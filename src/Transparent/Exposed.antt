-- ===== src/Transparent/Exposed.antt =====
-- The bytes of a packet that the enciphering path of src/bpf/tc_transparent.bpf.c leaves alone up to
-- the cipher.
use e_ba_f_project.Base.{
  ℕ, zero, suc, ◌+◌, ◌≤◌, ◌<◌, ◌≡◌, refl, Bool, true, false, List, [], ◌∷◌, arith, length, byte_at,
  u32, leb, ◌∙◌, if◌then◌else◌, u8, ◌^◌, ltb, ◌==◌, ◌||◌,
}
use e_ba_f_project.Base.Bytes.{length-overwrite, byte_at-overwrite_outside}
use e_ba_f_project.Flow.{Exit, rejected, bad_udp, bad_length, Flow, next}
use e_ba_f_project.Wire.{Packet, udp_bytes, eth_bytes, header_bytes, max_transparent_payload}
use e_ba_f_project.Kernel.{Kernel}
use e_ba_f_project.Kernel.Skb.{IsSkbLawful}
use e_ba_f_project.Machine.{Machine}
use e_ba_f_project.Machine.Act.{
  Act, done, lift, read, ◌>>=◌, check, change, follow-eq-next, change-eq-next,
}
use e_ba_f_project.Transparent.Checks.{Datagram}
use e_ba_f_project.Transparent.Lengths.{update_lengths}
use e_ba_f_project.Transparent.Updated.{update_lengths-Updates}
use e_ba_f_project.Transparent.{padding, fill_iv, store_padding, extend}

-- The bytes from `lo` to `hi` are in the packet, and stay as they are.
pub record Keeps (lo hi : ℕ) (p q : Packet) : Type 0 where
  pub inside : hi ≤ length q.bytes
  pub same : (j : ℕ) → lo ≤ j → j < hi → byte_at q.bytes j ≡ byte_at p.bytes j

-- Wherever the step goes on, it keeps these bytes.
abbrev IsKeeping {ℓ} : {A : Type ℓ} → ℕ → ℕ → Act A → Type ℓ
IsKeeping {A} lo hi a =
    (m m' : Machine) (x : A)
    → hi ≤ length m.packet.bytes
    → a m ≡ (m', next x)
    → Keeps lo hi m.packet m'.packet

Keeps-trans : (lo hi : ℕ) (p q r : Packet) → Keeps lo hi p q → Keeps lo hi q r → Keeps lo hi p r
Keeps-trans lo hi p q r first second = record {
  inside = second.inside;
  same = λ j low high. second.same j low high ∙ first.same j low high;
}

Keeps-refl : (lo hi : ℕ) (p : Packet) → hi ≤ length p.bytes → Keeps lo hi p p
Keeps-refl lo hi p fits = record { inside = fits; same = λ j low high. refl }

module _ {ℓ κ} {A : Type ℓ} {B : Type κ} (lo hi : ℕ) where
  bind-IsKeeping :
      (a : Act A) (f : A → Act B)
      → IsKeeping lo hi a
      → ((x : A) → IsKeeping lo hi (f x))
      → IsKeeping lo hi (a >>= f)
  bind-IsKeeping a f first rest m m' y fits h =
      let (m₁, x, went, on) = follow-eq-next (a m) f h in
      let kept = first m m₁ x fits went in
      Keeps-trans lo hi m.packet m₁.packet m'.packet kept (rest x m₁ m' y kept.inside on)

lift-IsKeeping {ℓ} : {A : Type ℓ} (lo hi : ℕ) (r : Flow A) → IsKeeping lo hi (lift r)
lift-IsKeeping lo hi r m m' x fits h =
    let same : m ≡ m' = cc h in rw (← same) (Keeps-refl lo hi m.packet fits)

read-IsKeeping {ℓ} : {A : Type ℓ} (lo hi : ℕ) (f : Packet → Flow A) → IsKeeping lo hi (read f)
read-IsKeeping lo hi f m m' x fits h =
    let same : m ≡ m' = cc h in rw (← same) (Keeps-refl lo hi m.packet fits)

store-IsKeeping :
    (k : Kernel) (lo hi off : ℕ) (new : List ℕ) (e : Exit)
    → IsSkbLawful k
    → hi ≤ off
    → IsKeeping lo hi (change (λ p. k.bpf_skb_store_bytes p off new) e)
store-IsKeeping k lo hi off new e skb behind m m' x fits h =
    let (q, made, after) = change-eq-next (λ p. k.bpf_skb_store_bytes p off new) e m m' x h in
    let (written, _) = skb.store m.packet q off new made in
    let kept : Keeps lo hi m.packet q = record {
      inside = rw written (omega (arith, length-overwrite m.packet.bytes off new));
      same = λ j low high.
          rw written (byte_at-overwrite_outside m.packet.bytes off new j (omega arith));
    } in
    rw after kept

if_keeps {ℓ} :
    {A : Type ℓ} (lo hi : ℕ) (c : Bool) (a b : Act A)
    → IsKeeping lo hi a
    → IsKeeping lo hi b
    → IsKeeping lo hi (if c then a else b)
if_keeps lo hi true a b ha hb = ha
if_keeps lo hi false a b ha hb = hb

store_padding-IsKeeping :
    (k : Kernel) (lo hi at pad_len left i : ℕ)
    → IsSkbLawful k
    → hi ≤ at
    → IsKeeping lo hi (store_padding k at pad_len left i)
unfolding store_padding
store_padding-IsKeeping k lo hi at pad_len zero i skb behind = lift-IsKeeping lo hi (next tt)
store_padding-IsKeeping k lo hi at pad_len (suc left) i skb behind =
    if_keeps lo hi (leb pad_len i) (done tt) _ (lift-IsKeeping lo hi (next tt)) (
      bind-IsKeeping lo hi
        (change (λ p. k.bpf_skb_store_bytes p (at + i) (u8 pad_len ∷ [])) (rejected bad_udp)) _
        (store-IsKeeping k lo hi (at + i) (u8 pad_len ∷ []) (rejected bad_udp) skb (omega arith))
        (λ _. store_padding-IsKeeping k lo hi at pad_len left (i + 1) skb behind))

fill_iv-IsKeeping : (k : Kernel) (lo hi : ℕ) → IsKeeping lo hi (fill_iv k)
unfolding fill_iv
fill_iv-IsKeeping k lo hi m m' x fits h =
    let same : m.packet ≡ m'.packet = ground arith in rw (← same) (Keeps-refl lo hi m.packet fits)

update_lengths-IsKeeping :
    (k : Kernel) (lo hi ip_off udp_off delta : ℕ) (add : Bool) (e : Exit)
    → IsSkbLawful k
    → ip_off + 12 ≤ udp_off + 4
    → udp_off + 8 ≤ lo
    → IsKeeping lo hi (update_lengths k ip_off udp_off delta add e)
update_lengths-IsKeeping k lo hi ip_off udp_off delta add e skb apart behind m m' x fits h =
    let updates = update_lengths-Updates k ip_off udp_off delta add e m m' skb apart h in
    record {
      inside = omega (arith, updates.same_length);
      same = λ j low high. updates.elsewhere j (omega arith);
    }

-- The same from one state on.
abbrev pub KeepsAt {ℓ} : {A : Type ℓ} → ℕ → ℕ → Machine → Act A → Type ℓ
KeepsAt {A} lo hi m a = (m' : Machine) (x : A) → a m ≡ (m', next x) → Keeps lo hi m.packet m'.packet

check-KeepsAt {κ} :
    {B : Type κ} (lo hi : ℕ) (c : Bool) (e : Exit) (f : Unit {0} → Act B) (m : Machine)
    → KeepsAt lo hi m (f tt)
    → KeepsAt lo hi m (check c e >>= f)
check-KeepsAt lo hi true e f m rest m' x h = cc h
check-KeepsAt lo hi false e f m rest m' x h = rest m' x h

tail-KeepsAt {κ} :
    {B : Type κ} (k : Kernel) (lo hi delta : ℕ) (e : Exit) (f : Unit {0} → Act B) (m : Machine)
    → IsSkbLawful k
    → hi ≤ length m.packet.bytes
    → length m.packet.bytes + delta < 2 ^ 32
    → ((x : Unit {0}) → IsKeeping lo hi (f x))
    → KeepsAt lo hi m (change (λ p. k.bpf_skb_change_tail p (u32 (length p.bytes + delta))) e >>= f)
tail-KeepsAt k lo hi delta e f m skb fits bounded rest m' y h =
    let n = u32 (length m.packet.bytes + delta) in
    let call = λ (p : Packet). k.bpf_skb_change_tail p (u32 (length p.bytes + delta)) in
    let (m₁, x, went, on) = follow-eq-next (change call e m) f h in
    let (q, made, after) = change-eq-next call e m m₁ x went in
    let grown : Keeps lo hi m.packet m₁.packet = rw after (record {
      inside = omega (arith, skb.tail_length m.packet q n made);
      same = λ j low high. skb.tail_kept m.packet q n j made (omega arith) (omega arith);
    }) in
    Keeps-trans lo hi m.packet m₁.packet m'.packet grown (rest x m₁ m' y grown.inside on)

-- The enciphering path, up to the cipher, appends to the payload and leaves it in plain text.
pub extend-KeepsAt :
    (k : Kernel) (d : Datagram) (m : Machine)
    → IsSkbLawful k
    → 34 ≤ d.udp
    → d.udp + udp_bytes + d.payload_len ≤ length m.packet.bytes
    → length m.packet.bytes + 40 < 2 ^ 32
    → KeepsAt (d.udp + udp_bytes) (d.udp + udp_bytes + d.payload_len) m (extend k d)
unfolding extend
extend-KeepsAt k d m skb behind fits bounded =
    let lo = d.udp + udp_bytes in
    let hi = lo + d.payload_len in
    let at_end : hi ≤ lo + d.payload_len = omega arith in
    let past_body : hi ≤ lo + (d.payload_len + padding d.payload_len) = omega arith in
    let headers_apart : eth_bytes + 12 ≤ d.udp + 4 = omega arith in
    let behind_udp : d.udp + 8 ≤ lo = omega arith in
    check-KeepsAt lo hi (d.payload_len == 0 || ltb max_transparent_payload d.payload_len)
      (rejected bad_length) _ m
      (tail-KeepsAt k lo hi (padding d.payload_len + header_bytes) (rejected bad_length) _ m skb
        fits (ground arith)
        (λ _.
          search
            (
              bind-IsKeeping, read-IsKeeping, lift-IsKeeping, store_padding-IsKeeping,
              fill_iv-IsKeeping, store-IsKeeping, update_lengths-IsKeeping, at_end, past_body,
              headers_apart, behind_udp,
            )
            depth 16))
