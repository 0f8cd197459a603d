-- ===== src/Formats/Summed.antt =====
-- What ebaf_bpf_print_stats of src/user/bpf_loader.c prints of counters that the packet programs
-- keep on every CPU.
use e_ba_f_project.Base.{
  ℕ, ◌+◌, ◌<◌, ◌≡◌, true, Option, some, List, [], ◌∷◌, arith, length, take_all,
}
use e_ba_f_project.Base.Text.{codes}
use e_ba_f_project.Config.Strtoul.{is_digit}
use e_ba_f_project.Wire.{CryptoStats, Packet}
use e_ba_f_project.Kernel.{Kernel}
use e_ba_f_project.Kernel.Laws.{Cipher}
use e_ba_f_project.Machine.{Machine}
use e_ba_f_project.Framed.{Framed}
use e_ba_f_project.Framed.Steps.{IsFramed}
use e_ba_f_project.Framed.Trace.{run_all, AllSized, Balanced, BalancedFor, run_all-Balanced}
use e_ba_f_project.Formats.Fields.{read_fields, read_fields-render}
use e_ba_f_project.Formats.Totals.{
  zero_stats, add_stats, sum_stats, PerCpu, totals, totals_fields, print_stats,
}

-- The text in front of each counter.
abbrev pub totals_labels : List (List ℕ)
totals_labels =
    codes "seen="
    ∷ codes " passed="
    ∷ codes " crypto_ok="
    ∷ codes " crypto_fail="
    ∷ codes " malformed="
    ∷ codes " bad_eth="
    ∷ codes " bad_ip="
    ∷ codes " bad_udp="
    ∷ codes " bad_magic="
    ∷ codes " bad_length="
    ∷ codes " bad_alignment="
    ∷ codes " no_crypto_ctx="
    ∷ []

abbrev pub totals_values : CryptoStats → List ℕ
totals_values total =
    total.packets_seen ∷ total.packets_passed ∷ total.packets_crypto_ok ∷ total.packets_crypto_fail
    ∷ total.packets_malformed ∷ total.packets_bad_eth ∷ total.packets_bad_ip ∷ total.packets_bad_udp
    ∷ total.packets_bad_magic ∷ total.packets_bad_length ∷ total.packets_bad_alignment
    ∷ total.packets_no_crypto_ctx ∷ []

-- A reader that knows the labels finds the twelve totals in the printed line, also where a lookup
-- fails.
pub print_stats_reads_back :
    (fd : Option ℕ) (map : PerCpu)
    → read_fields totals_labels (10 ∷ []) (print_stats fd map)
      ≡ some (totals_values (totals fd map))
unfolding print_stats is_digit
print_stats_reads_back fd map =
    read_fields-render (totals_fields (totals fd map)) (10 ∷ []) (ground arith)

-- A CPU: what it starts from, and the packets that it handles.
pub record Cpu : Type 0 where
  pub machine : Machine
  pub packets : List Packet

abbrev pub packets_of : List Cpu → ℕ
packets_of [] = 0
packets_of (cpu ∷ cpus) = length cpu.packets + packets_of cpus

-- Each CPU ran the program on its packets from counters at zero, and `values` are the counters
-- that it ended with.
abbrev pub Collected : Kernel → Framed → List Cpu → List CryptoStats → Type 0
Collected k program [] [] = Unit
Collected k program [] (v ∷ values) = ⊥
Collected k program (cpu ∷ cpus) [] = ⊥
Collected k program (cpu ∷ cpus) (v ∷ values) =
    ((cpu.machine.stats ≡ some zero_stats)
      × AllSized cpu.packets
      × ((run_all k program cpu.packets cpu.machine).stats ≡ some v))
    × Collected k program cpus values

add_stats-Balanced :
    (n p : ℕ) (s t v : CryptoStats)
    → Balanced n s t
    → Balanced p zero_stats v
    → Balanced (n + p) s (add_stats t v)
unfolding add_stats
add_stats-Balanced n p s t v sofar more = record {
  all_seen = omega (arith, sofar.all_seen, more.all_seen);
  outcomes_add_up = omega (arith, sofar.outcomes_add_up, more.outcomes_add_up);
  reasons_add_up = omega (arith, sofar.reasons_add_up, more.reasons_add_up);
}

-- Counters that are there at the start and at the end.
Balanced-ends :
    (n : ℕ) (o o' : Option CryptoStats) (s v : CryptoStats)
    → o ≡ some s
    → o' ≡ some v
    → BalancedFor n o o'
    → Balanced n s v
Balanced-ends n o o' s v starts ends balanced = rw (starts, ends) at balanced

module _ (k : Kernel) (c : Cipher) (program : Framed) (laws : IsFramed c program) where
  cpu-Balanced :
      (cpu : Cpu) (v : CryptoStats)
      → cpu.machine.stats ≡ some zero_stats
      → AllSized cpu.packets
      → (run_all k program cpu.packets cpu.machine).stats ≡ some v
      → Balanced (length cpu.packets) zero_stats v
  cpu-Balanced cpu v fresh sized ends =
      Balanced-ends (length cpu.packets) cpu.machine.stats
        (run_all k program cpu.packets cpu.machine).stats zero_stats v fresh ends
        (run_all-Balanced k c program laws cpu.packets cpu.machine sized)

  sum_stats-Balanced :
      (cpus : List Cpu) (values : List CryptoStats) (n : ℕ) (total : CryptoStats)
      → Collected k program cpus values
      → Balanced n zero_stats total
      → Balanced (n + packets_of cpus) zero_stats (sum_stats values total)
  unfolding sum_stats
  sum_stats-Balanced [] [] n total none_left sofar =
      let none_more : n + packets_of [] ≡ n = omega arith in rw none_more sofar
  sum_stats-Balanced [] (v ∷ values) n total h sofar = elim h [ ]
  sum_stats-Balanced (cpu ∷ cpus) [] n total h sofar = elim h [ ]
  sum_stats-Balanced (cpu ∷ cpus) (v ∷ values) n total ((fresh, sized, ends), others) sofar =
      let one = cpu-Balanced cpu v fresh sized ends in
      let more =
        sum_stats-Balanced cpus values (n + length cpu.packets) (add_stats total v) others
          (add_stats-Balanced n (length cpu.packets) zero_stats total v sofar one) in
      let all : n + length cpu.packets + packets_of cpus ≡ n + packets_of (cpu ∷ cpus) =
        omega arith in
      rw all at more

  -- Where every CPU ran a framed program from counters at zero, the totals that are printed are
  -- those of one program that saw the packets of all CPUs: all are seen, and the outcomes and the
  -- reasons add up, up to the wrap of the 64-bit counters. The lookups of the counters succeed.
  pub totals-Balanced :
      (cpus : List Cpu) (values : List CryptoStats) (fd : ℕ)
      → 0 < length values
      → Collected k program cpus values
      → Balanced (packets_of cpus) zero_stats (
          totals
            (some fd)
            record { cpu_count = length values; allocated = true; values = some values })
  totals-Balanced cpus values fd some_cpu collected =
      let start : Balanced 0 zero_stats zero_stats = omega arith in
      let sum = sum_stats-Balanced cpus values 0 zero_stats collected start in
      let all = take_all (length values) values (omega arith) in
      let whole : totals (some fd)
            record { cpu_count = length values; allocated = true; values = some values }
          ≡ sum_stats values zero_stats =
        unfold totals in ground (arith, all) in
      let from_none : 0 + packets_of cpus ≡ packets_of cpus = omega arith in
      rw (whole, ← from_none) sum
