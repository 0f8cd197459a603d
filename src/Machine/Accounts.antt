-- ===== src/Machine/Accounts.antt =====
-- The bookkeeping of struct ebaf_crypto_stats, on 64-bit counters that wrap around: how the
-- counters of one packet add up.
use e_ba_f_project.Base.{ℕ, ◌+◌, ◌≡◌, refl, Option, none, some, arith, u64}
use e_ba_f_project.Wire.{CryptoStats}
use e_ba_f_project.Flow.{
  Exit, Reason, passed, failed, rejected_failed, quiet, fault, rejected, bad_eth, bad_ip, bad_udp,
  bad_magic, bad_length, bad_alignment, no_crypto_ctx,
}
use e_ba_f_project.Machine.{
  Machine, Counter, packets_seen, packets_passed, packets_crypto_ok, packets_crypto_fail,
  packets_malformed, stat_inc, bump, count, leave,
}

abbrev pub outcomes : CryptoStats → ℕ
outcomes s = s.packets_passed + s.packets_crypto_ok + s.packets_crypto_fail + s.packets_malformed

abbrev pub reasons : CryptoStats → ℕ
reasons s =
    s.packets_bad_eth + s.packets_bad_ip + s.packets_bad_udp + s.packets_bad_magic
    + s.packets_bad_length + s.packets_bad_alignment + s.packets_no_crypto_ctx

-- From `s` to `t` one packet was seen, exactly one outcome was counted for it, and a malformed
-- packet was counted under one reason.
pub record Accounts (s t : CryptoStats) : Type 0 where
  pub seen : t.packets_seen ≡ u64 (s.packets_seen + 1)
  pub one_outcome : u64 (outcomes t) ≡ u64 (outcomes s + 1)
  pub one_reason : u64 (t.packets_malformed + reasons s) ≡ u64 (s.packets_malformed + reasons t)

-- The same of what the lookup of the counters gives; without counters there is nothing to count.
abbrev pub AccountsFor : Option CryptoStats → Option CryptoStats → Type 0
AccountsFor none none = Unit
AccountsFor (some s) (some t) = Accounts s t
AccountsFor none (some t) = ⊥
AccountsFor (some s) none = ⊥

-- The exits that the framed programs take.
abbrev pub IsCounted : Exit → Type 0
IsCounted passed = Unit
IsCounted failed = Unit
IsCounted (rejected r) = Unit
IsCounted rejected_failed = ⊥
IsCounted quiet = ⊥
IsCounted fault = ⊥

rejected-Accounts :
    (r : Reason) (s : CryptoStats)
    → Accounts s
        (stat_inc (Counter.reason r) (stat_inc packets_malformed (stat_inc packets_seen s)))
unfolding stat_inc
rejected-Accounts bad_eth s = omega arith
rejected-Accounts bad_ip s = omega arith
rejected-Accounts bad_udp s = omega arith
rejected-Accounts bad_magic s = omega arith
rejected-Accounts bad_length s = omega arith
rejected-Accounts bad_alignment s = omega arith
rejected-Accounts no_crypto_ctx s = omega arith

rejected_bump :
    (r : Reason) (o : Option CryptoStats)
    → AccountsFor o (bump (Counter.reason r) (bump packets_malformed (bump packets_seen o)))
unfolding bump
rejected_bump r none = tt
rejected_bump r (some s) = rejected-Accounts r s

-- The counters that stand for an outcome other than a malformed packet.
abbrev pub IsOutcome : Counter → Type 0
IsOutcome packets_passed = Unit
IsOutcome packets_crypto_ok = Unit
IsOutcome packets_crypto_fail = Unit
IsOutcome packets_malformed = ⊥
IsOutcome packets_seen = ⊥
IsOutcome (Counter.reason r) = ⊥

outcome_bump :
    (c : Counter) (o : Option CryptoStats)
    → IsOutcome c
    → AccountsFor o (bump c (bump packets_seen o))
unfolding bump
outcome_bump c none h = tt
outcome_bump packets_passed (some s) h = omega arith
outcome_bump packets_crypto_ok (some s) h = omega arith
outcome_bump packets_crypto_fail (some s) h = omega arith
outcome_bump packets_malformed (some s) h = elim h [ ]
outcome_bump packets_seen (some s) h = elim h [ ]
outcome_bump (Counter.reason r) (some s) h = elim h [ ]

-- One packet that is counted under an outcome after it was seen.
pub count-Accounts :
    (c : Counter) (m : Machine)
    → IsOutcome c
    → AccountsFor m.stats (count c (count packets_seen m)).stats
unfolding count
count-Accounts c m h = outcome_bump c m.stats h

-- The same where the run leaves early.
pub leave-Accounts :
    (code : ℕ) (e : Exit) (m : Machine)
    → IsCounted e
    → AccountsFor m.stats (leave code e (count packets_seen m)).1.stats
unfolding leave
leave-Accounts code passed m h = outcome_bump packets_passed m.stats tt
leave-Accounts code failed m h = outcome_bump packets_crypto_fail m.stats tt
leave-Accounts code (rejected r) m h = rejected_bump r m.stats
leave-Accounts code rejected_failed m h = elim h [ ]
leave-Accounts code quiet m h = elim h [ ]
leave-Accounts code fault m h = elim h [ ]

pub leave_passes :
    (code : ℕ) (e : Exit) (m : Machine) → IsCounted e → (leave code e m).0 ≡ some code
unfolding leave
leave_passes code passed m h = refl
leave_passes code failed m h = refl
leave_passes code (rejected r) m h = refl
leave_passes code rejected_failed m h = elim h [ ]
leave_passes code quiet m h = elim h [ ]
leave_passes code fault m h = elim h [ ]

pub leave_keeps :
    (code : ℕ) (e : Exit) (m : Machine)
    → ((leave code e m).1.packet ≡ m.packet) × ((leave code e m).1.events ≡ m.events)
unfolding leave
leave_keeps code passed m = (refl, refl)
leave_keeps code failed m = (refl, refl)
leave_keeps code (rejected r) m = (refl, refl)
leave_keeps code rejected_failed m = (refl, refl)
leave_keeps code quiet m = (refl, refl)
leave_keeps code fault m = (refl, refl)
