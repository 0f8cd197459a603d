-- ===== src/Flow.antt =====
-- The control flow that the packet programs of src/bpf/ share: a chain of checks, each of which
-- leaves the program through one of the few exits that their code has.
use e_ba_f_project.Base.{Bool, true, false, Option, none, some, ◌≡◌, refl, ◌⊎◌, inl, inr}

-- The per-CPU counters that name why a packet was rejected.
pub data Reason : Type 0 where
  bad_eth bad_ip bad_udp bad_magic bad_length bad_alignment no_crypto_ctx : Reason

-- How a packet program leaves before its end. `passed` counts packets_passed, `failed` counts
-- packets_crypto_fail, `rejected r` is stat_reason (stat_bad) with the counter of `r`,
-- `rejected_failed` is stat_bad with packets_crypto_fail, and `quiet` is a plain return.
-- `fault` is no exit of the code: it is an access behind `data_end`.
pub data Exit : Type 0 where
  passed failed rejected_failed quiet fault : Exit
  rejected : Reason → Exit

pub data Flow {ℓ} (A : Type ℓ) : Type ℓ where
  next : A → Flow A
  exit : Exit → Flow A

infixl 5 ◌>>=◌ ◌>>◌
abbrev pub ◌>>=◌ {ℓ κ} : {A : Type ℓ} {B : Type κ} → Flow A → (A → Flow B) → Flow B
next a >>= f = f a
exit e >>= f = exit e

abbrev pub ◌>>◌ {ℓ} : {B : Type ℓ} → Flow (Unit {0}) → Flow B → Flow B
m >> k = m >>= λ _. k

-- `if (c) { <count>; return; }`
abbrev pub exit_if : Bool → Exit → Flow (Unit {0})
exit_if true e = exit e
exit_if false e = next tt

-- The pointer that a lookup or a kernel call gave, or the exit where it is NULL or an error.
abbrev pub or_exit {ℓ} : {A : Type ℓ} → Option A → Exit → Flow A
or_exit none e = exit e
or_exit (some a) e = next a

-- Inversion of a chain that came to its end.
pub >>=-eq-next {ℓ κ} :
    {A : Type ℓ} {B : Type κ} (m : Flow A) (f : A → Flow B) {b : B}
    → (m >>= f) ≡ next b
    → (a : A) × (m ≡ next a) × (f a ≡ next b)
>>=-eq-next (next a) f h = (a, refl, h)
>>=-eq-next (exit e) f h = cc

pub Flow-cases {ℓ} :
    {A : Type ℓ} (m : Flow A) → ((a : A) × (m ≡ next a)) ⊎ ((e : Exit) × (m ≡ exit e))
Flow-cases (next a) = inl (a, refl)
Flow-cases (exit e) = inr (e, refl)

-- Inversion of a chain that was left early.
pub >>=-eq-exit {ℓ κ} :
    {A : Type ℓ} {B : Type κ} (m : Flow A) (f : A → Flow B) {e : Exit}
    → (m >>= f) ≡ exit e
    → (m ≡ exit e) ⊎ ((a : A) × (m ≡ next a) × (f a ≡ exit e))
>>=-eq-exit (next a) f h = inr (a, refl, h)
>>=-eq-exit (exit e) f h = inl (cc h)
