-- ===== src/Framed/Trace.antt =====
-- Many packets, one after the other, on one CPU: the counters of a framed program stay balanced.
use e_ba_f_project.Base.{
  ℕ, suc, ◌+◌, ◌≤◌, ◌≡◌, Option, none, some, List, [], ◌∷◌, arith, length, u64,
}
use e_ba_f_project.Wire.{CryptoStats, Packet}
use e_ba_f_project.Kernel.{Kernel}
use e_ba_f_project.Kernel.Laws.{Cipher}
use e_ba_f_project.Machine.{Machine}
use e_ba_f_project.Machine.Accounts.{outcomes, reasons, AccountsFor}
use e_ba_f_project.Framed.{Framed, run}
use e_ba_f_project.Framed.Steps.{IsFramed}
use e_ba_f_project.Framed.Run.{run-Accounts}

-- The kernel hands one packet after the other to the program; the maps and the events stay between
-- them. This is no code of the repository, which has no loop over packets.
unfoldable pub run_all : Kernel → Framed → List Packet → Machine → Machine
run_all k program [] m = m
run_all k program (p ∷ packets) m =
    run_all k program packets (run k program (record m { packet = p })).1

abbrev pub AllSized : List Packet → Type 0
AllSized [] = Unit
AllSized (p ∷ packets) = (p.data_end ≤ length p.bytes) × AllSized packets

-- As many outcomes as packets seen, and as many reasons as malformed packets, up to the wrap of
-- the 64-bit counters; `n` packets were seen since the counters stood at `s`.
pub record Balanced (n : ℕ) (s t : CryptoStats) : Type 0 where
  pub all_seen : u64 t.packets_seen ≡ u64 (s.packets_seen + n)
  pub outcomes_add_up : u64 (outcomes t) ≡ u64 (outcomes s + n)
  pub reasons_add_up : u64 (t.packets_malformed + reasons s) ≡ u64 (s.packets_malformed + reasons t)

abbrev pub BalancedFor : ℕ → Option CryptoStats → Option CryptoStats → Type 0
BalancedFor n none none = Unit
BalancedFor n (some s) (some t) = Balanced n s t
BalancedFor n none (some t) = ⊥
BalancedFor n (some s) none = ⊥

u64_chain : (a b c n : ℕ) → u64 b ≡ u64 (a + 1) → u64 c ≡ u64 (b + n) → u64 c ≡ u64 (a + (n + 1))
u64_chain a b c n p q = omega arith

u64_cross :
    (m r m' r' m'' r'' : ℕ)
    → u64 (m' + r) ≡ u64 (m + r')
    → u64 (m'' + r') ≡ u64 (m' + r'')
    → u64 (m'' + r) ≡ u64 (m + r'')
u64_cross m r m' r' m'' r'' p q = omega arith

Balanced-none : (o : Option CryptoStats) → BalancedFor 0 o o
Balanced-none none = tt
Balanced-none (some s) = omega arith

Balanced-step :
    (n : ℕ) (a b c : Option CryptoStats)
    → AccountsFor a b
    → BalancedFor n b c
    → BalancedFor (n + 1) a c
Balanced-step n none none none one rest = tt
Balanced-step n none none (some u) one rest = elim rest [ ]
Balanced-step n none (some t) c one rest = elim one [ ]
Balanced-step n (some s) none c one rest = elim one [ ]
Balanced-step n (some s) (some t) none one rest = elim rest [ ]
Balanced-step n (some s) (some t) (some u) one rest = record {
  all_seen = omega (arith, one.seen, rest.all_seen);
  outcomes_add_up =
      u64_chain (outcomes s) (outcomes t) (outcomes u) n one.one_outcome rest.outcomes_add_up;
  reasons_add_up =
      u64_cross s.packets_malformed (reasons s) t.packets_malformed (reasons t) u.packets_malformed
        (reasons u) one.one_reason rest.reasons_add_up;
}

pub run_all-Balanced :
    (k : Kernel) (c : Cipher) (program : Framed)
    → IsFramed c program
    → (packets : List Packet) (m : Machine) → AllSized packets
    → BalancedFor (length packets) m.stats (run_all k program packets m).stats
unfolding run_all
run_all-Balanced k c program laws [] m sized = Balanced-none m.stats
run_all-Balanced k c program laws (p ∷ packets) m (fits, sized) =
    let placed = record m { packet = p } in
    let after = (run k program placed).1 in
    let one_more : length packets + 1 ≡ suc (length packets) = omega arith in
    rw (← one_more) (
      Balanced-step (length packets) m.stats after.stats (run_all k program packets after).stats
        (run-Accounts k c program laws placed fits).1
        (run_all-Balanced k c program laws packets after sized))
