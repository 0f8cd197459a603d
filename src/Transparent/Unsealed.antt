-- ===== src/Transparent/Unsealed.antt =====
-- A datagram that src/bpf/tc_transparent.bpf.c is to encipher, where no crypto context is loaded.
use e_ba_f_project.Base.{
  ℕ, zero, suc, ◌+◌, ◌≤◌, ◌<◌, ◌≡◌, refl, sym, ap, Bool, true, false, some, none, arith, length,
  byte_at, ◌^◌, ◌∙◌, ◌==◌, ◌!=◌, ◌&&◌, ◌||◌, if◌then◌else◌, low_bits, inl, inr, Bool-cases,
}
use e_ba_f_project.Flow.{Exit, rejected, bad_length, no_crypto_ctx, Flow, next, exit}
use e_ba_f_project.Wire.{CryptoConfig, Packet, tc_act_ok, action_encrypt, action_decrypt}
use e_ba_f_project.Kernel.{Kernel}
use e_ba_f_project.Kernel.Skb.{IsSkbLawful}
use e_ba_f_project.Machine.{Machine, packets_seen, count}
use e_ba_f_project.Machine.Accounts.{leave_keeps}
use e_ba_f_project.Machine.Act.{Act, lift, read, follow, ◌>>=◌, change}
use e_ba_f_project.Transparent.Checks.{Datagram, IsDatagram, parse_transparent_iff}
use e_ba_f_project.Transparent.Lengths.{update_lengths}
use e_ba_f_project.Transparent.Exposed.{extend-KeepsAt}
use e_ba_f_project.Transparent.Safety.{tc_transparent_passes}
use e_ba_f_project.Transparent.{
  Sealed, fill_iv, store_padding, extend, cipher, transform, tc_transparent,
}

-- A step that leaves the context slot alone, wherever it ends.
abbrev SlotKept {ℓ} : {A : Type ℓ} → Act A → Type 0
SlotKept a = (m : Machine) → (a m).0.slot ≡ m.slot

follow-slot {ℓ κ} :
    {A : Type ℓ} {B : Type κ} (r : Machine × Flow A) (f : A → Act B)
    → ((x : A) → SlotKept (f x))
    → (follow r f).0.slot ≡ r.0.slot
follow-slot (m, next a) f rest = rest a m
follow-slot (m, exit e) f rest = refl

bind-SlotKept {ℓ κ} :
    {A : Type ℓ} {B : Type κ} (a : Act A) (f : A → Act B)
    → SlotKept a
    → ((x : A) → SlotKept (f x))
    → SlotKept (a >>= f)
bind-SlotKept a f first rest m = follow-slot (a m) f rest ∙ first m

lift-SlotKept {ℓ} : {A : Type ℓ} (r : Flow A) → SlotKept (lift r)
lift-SlotKept r m = refl

read-SlotKept {ℓ} : {A : Type ℓ} (f : Packet → Flow A) → SlotKept (read f)
read-SlotKept f m = refl

change-SlotKept : (f : Packet → Bool × Packet) (e : Exit) → SlotKept (change f e)
change-SlotKept f e m = refl

if-SlotKept {ℓ} :
    {A : Type ℓ} (c : Bool) (a b : Act A) → SlotKept a → SlotKept b → SlotKept (if c then a else b)
if-SlotKept true a b ha hb = ha
if-SlotKept false a b ha hb = hb

ruleset slot_steps = (bind-SlotKept, lift-SlotKept, read-SlotKept, change-SlotKept, if-SlotKept)

fill_iv-SlotKept : (k : Kernel) → SlotKept (fill_iv k)
unfolding fill_iv
fill_iv-SlotKept k m = refl

store_padding-SlotKept :
    (k : Kernel) (at pad_len left i : ℕ) → SlotKept (store_padding k at pad_len left i)
unfolding store_padding
store_padding-SlotKept k at pad_len zero i = search slot_steps
store_padding-SlotKept k at pad_len (suc left) i =
    search (slot_steps, store_padding-SlotKept k at pad_len left (i + 1))

update_lengths-SlotKept :
    (k : Kernel) (ip_off udp_off delta : ℕ) (add : Bool) (e : Exit)
    → SlotKept (update_lengths k ip_off udp_off delta add e)
unfolding update_lengths
update_lengths-SlotKept k ip_off udp_off delta add e = search slot_steps depth 12

extend-SlotKept : (k : Kernel) (d : Datagram) → SlotKept (extend k d)
unfolding extend
extend-SlotKept k d =
    search (slot_steps, fill_iv-SlotKept, store_padding-SlotKept, update_lengths-SlotKept) depth 16

-- Without a context the cipher is not reached, and the packet stays as it is.
cipher_refused :
    (k : Kernel) (config : CryptoConfig) (s : Sealed) (m : Machine)
    → m.slot ≡ some none
    → (e : Exit) × (cipher k config s m ≡ (m, exit e))
unfolding cipher
cipher_refused k config s m empty =
    elim (Bool-cases (s.body_len == 0 || low_bits s.body_len 4 != 0)) [
      | inl bad ↦ (rejected bad_length, rw bad refl)
      | inr good ↦
          elim (Bool-cases (config.action == action_decrypt && s.stated_len != s.body_len)) [
            | inl bad ↦ (rejected bad_length, rw (good, bad) refl)
            | inr fits ↦ (rejected no_crypto_ctx, rw (good, fits, empty) refl)
          ]
    ]

-- If no crypto context is loaded, a datagram that is to be enciphered leaves in plain text: once it
-- was extended, the program returns TC_ACT_OK, and the packet that goes on has every byte of the
-- payload as it was.
pub tc_transparent_unsealed :
    (k : Kernel) (m m' : Machine) (d : Datagram) (s : Sealed)
    → IsSkbLawful k
    → IsDatagram m.packet m.config d
    → d.config.action ≡ action_encrypt
    → m.packet.data_end ≤ length m.packet.bytes
    → length m.packet.bytes + 40 < 2 ^ 32
    → m.slot ≡ some none
    → extend k d (count packets_seen m) ≡ (m', next s)
    → ((tc_transparent k m).0 ≡ some tc_act_ok)
      × ((tc_transparent k m).1.packet ≡ m'.packet)
      × ((j : ℕ)
          → 42 ≤ j
          → j < 42 + d.payload_len
          → byte_at (tc_transparent k m).1.packet.bytes j ≡ byte_at m.packet.bytes j)
unfolding tc_transparent transform count
tc_transparent_unsealed k m m' d s skb datagram encrypts sized bounded empty extended =
    let kept =
      extend-KeepsAt k d (count packets_seen m) skb (omega arith) (omega arith) (omega arith) m' s
        extended in
    let found = (parse_transparent_iff m.packet m.config d).1 datagram in
    let slot : m'.slot ≡ some none =
      sym (ap (λ r. r.0.slot) extended) ∙ extend-SlotKept k d (count packets_seen m) ∙ empty in
    let chosen : (d.config.action == action_encrypt) ≡ true = ground arith in
    let (e, refused) = cipher_refused k d.config s m' slot in
    let out : (tc_transparent k m).1.packet ≡ m'.packet =
      rw (found, chosen, extended, refused) (leave_keeps tc_act_ok e m').0 in
    (tc_transparent_passes k m, out, λ j low high. rw out (kept.same j (omega arith) (omega arith)))
