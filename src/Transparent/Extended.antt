-- ===== src/Transparent/Extended.antt =====
-- What the enciphering path of src/bpf/tc_transparent.bpf.c hands to the cipher.
use e_ba_f_project.Base.{
  ℕ, zero, suc, ◌+◌, ◌≤◌, ◌≡◌, Bool, true, false, List, arith, length, refl, low_bits, ltb, ◌==◌,
  ◌||◌, ap,
}
use e_ba_f_project.Flow.{Exit, bad_length, rejected, next}
use e_ba_f_project.Wire.{
  udp_bytes, crypto_iv_offset, crypto_iv_bytes, crypto_block_bytes, max_transparent_payload,
}
use e_ba_f_project.Kernel.{Kernel}
use e_ba_f_project.Machine.{Machine}
use e_ba_f_project.Machine.Act.{Act, done, ◌>>=◌, check, follow-eq-next}
use e_ba_f_project.Transparent.Checks.{Datagram}
use e_ba_f_project.Transparent.{Sealed, iv_from, fill_iv, padding, extend}

-- Wherever the step goes on, its value satisfies `P`.
abbrev Ensures {ℓ κ} : {A : Type ℓ} → (A → Type κ) → Act A → Type (ℓ ⊔ κ)
Ensures {A} P a = (m m' : Machine) (x : A) → a m ≡ (m', next x) → P x

module _ {ℓ κ η} {A : Type ℓ} {B : Type κ} (P : B → Type η) where
  bind-Ensures : (a : Act A) (f : A → Act B) → ((x : A) → Ensures P (f x)) → Ensures P (a >>= f)
  bind-Ensures a f rest m m' y h =
      let (m₁, x, went, on) = follow-eq-next (a m) f h in rest x m₁ m' y on

  bind_known-Ensures {θ} :
      (Q : A → Type θ) (a : Act A) (f : A → Act B)
      → Ensures Q a
      → ((x : A) → Q x → Ensures P (f x))
      → Ensures P (a >>= f)
  bind_known-Ensures Q a f first rest m m' y h =
      let (m₁, x, went, on) = follow-eq-next (a m) f h in rest x (first m m₁ x went) m₁ m' y on

done-Ensures {ℓ κ} : {A : Type ℓ} (P : A → Type κ) (a : A) → P a → Ensures P (done a)
done-Ensures P a holds m m' x h = let same : a ≡ x = cc h in rw (← same) holds

check-Ensures : (c : Bool) (e : Exit) → Ensures (λ _. c ≡ false) (check c e)
check-Ensures false e m m' x h = refl
check-Ensures true e m m' x h = cc

length-iv_from : (now left i : ℕ) → length (iv_from now left i) ≡ left
unfolding iv_from
length-iv_from now zero i = refl
length-iv_from now (suc left) i = ap suc (length-iv_from now left (i + 1))

fill_iv-Ensures : (k : Kernel) → Ensures (λ iv. length iv ≡ crypto_iv_bytes) (fill_iv k)
unfolding fill_iv
fill_iv-Ensures k m m' iv h = ground (arith, length-iv_from (k.bpf_ktime_get_ns m.ticks) 16 0)

fill_iv_then-Ensures {ℓ κ} :
    {B : Type ℓ} (P : B → Type κ) (k : Kernel) (f : List ℕ → Act B)
    → ((iv : List ℕ) → length iv ≡ crypto_iv_bytes → Ensures P (f iv))
    → Ensures P (fill_iv k >>= f)
fill_iv_then-Ensures P k f =
    bind_known-Ensures P (λ iv. length iv ≡ crypto_iv_bytes) (fill_iv k) f (fill_iv-Ensures k)

-- A body in whole blocks: the payload, of 1 to 1408 bytes, and 1 to 16 bytes of padding; the IV, of
-- 16 bytes, in the header behind it.
pub record IsExtended (d : Datagram) (s : Sealed) : Type 0 where
  pub payload_low : 1 ≤ d.payload_len
  pub payload_high : d.payload_len ≤ max_transparent_payload
  pub body : s.body_len ≡ d.payload_len + padding d.payload_len
  pub pad_low : 1 ≤ padding d.payload_len
  pub pad_high : padding d.payload_len ≤ crypto_block_bytes
  pub whole_blocks : low_bits s.body_len 4 ≡ 0
  pub body_at : s.body_off ≡ d.udp + udp_bytes
  pub iv_at : s.iv_off ≡ s.body_off + s.body_len + crypto_iv_offset
  pub iv_size : length s.iv ≡ crypto_iv_bytes

extend_last :
    (d : Datagram) (iv : List ℕ)
    → (d.payload_len == 0 || ltb max_transparent_payload d.payload_len) ≡ false
    → length iv ≡ crypto_iv_bytes
    → IsExtended d (record {
      body_len = d.payload_len + padding d.payload_len;
      body_off = d.udp + udp_bytes;
      iv_off = d.udp + udp_bytes + (d.payload_len + padding d.payload_len) + crypto_iv_offset;
      iv = iv;
      stated_len = 0;
    })
extend_last d iv fits size = ground arith

-- Where the enciphering path goes on to the cipher, the payload has 1 to 1408 bytes, the body is the
-- payload with 1 to 16 bytes of padding and consists of whole blocks, and the IV has 16 bytes and
-- lies in the header behind the body.
pub extend-IsExtended :
    (k : Kernel) (d : Datagram) (m m' : Machine) (s : Sealed)
    → extend k d m ≡ (m', next s)
    → IsExtended d s
unfolding extend
extend-IsExtended k d m m' s =
    bind_known-Ensures (IsExtended d)
      (λ _. (d.payload_len == 0 || ltb max_transparent_payload d.payload_len) ≡ false)
      (check (d.payload_len == 0 || ltb max_transparent_payload d.payload_len)
        (rejected bad_length))
      _ (check-Ensures _ _)
      (λ _ fits. search (fill_iv_then-Ensures, bind-Ensures, done-Ensures, extend_last) depth 16) m
      m' s
