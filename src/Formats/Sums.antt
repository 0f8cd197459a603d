-- ===== src/Formats/Sums.antt =====
-- The totals that ebaf_bpf_print_stats of src/user/bpf_loader.c prints are the sums over the CPUs.
use e_ba_f_project.Base.{
  ℕ, ◌+◌, ◌≡◌, refl, ap, ◌∙◌, Bool, true, false, not, ◌||◌, ◌==◌, Option, none, some, take,
  if◌then◌else◌, List, [], ◌∷◌, u64, arith,
}
use e_ba_f_project.Wire.{CryptoStats}
use e_ba_f_project.Formats.Fields.{read_fields}
use e_ba_f_project.Formats.Totals.{zero_stats, PerCpu, add_stats, sum_stats, totals, print_stats}
use e_ba_f_project.Formats.Summed.{totals_labels, totals_values, print_stats_reads_back}

abbrev pub sum_of : (CryptoStats → ℕ) → List CryptoStats → ℕ
sum_of field [] = 0
sum_of field (v ∷ values) = field v + sum_of field values

-- Each counter is the sum of the CPUs' counters, on 64 bits, on top of those of `s`.
abbrev sums_on : CryptoStats → List CryptoStats → CryptoStats
sums_on s values = record {
  packets_seen = u64 (s.packets_seen + sum_of (λ v. v.packets_seen) values);
  packets_passed = u64 (s.packets_passed + sum_of (λ v. v.packets_passed) values);
  packets_crypto_ok = u64 (s.packets_crypto_ok + sum_of (λ v. v.packets_crypto_ok) values);
  packets_crypto_fail = u64 (s.packets_crypto_fail + sum_of (λ v. v.packets_crypto_fail) values);
  packets_malformed = u64 (s.packets_malformed + sum_of (λ v. v.packets_malformed) values);
  packets_bad_eth = u64 (s.packets_bad_eth + sum_of (λ v. v.packets_bad_eth) values);
  packets_bad_ip = u64 (s.packets_bad_ip + sum_of (λ v. v.packets_bad_ip) values);
  packets_bad_udp = u64 (s.packets_bad_udp + sum_of (λ v. v.packets_bad_udp) values);
  packets_bad_magic = u64 (s.packets_bad_magic + sum_of (λ v. v.packets_bad_magic) values);
  packets_bad_length = u64 (s.packets_bad_length + sum_of (λ v. v.packets_bad_length) values);
  packets_bad_alignment =
      u64 (s.packets_bad_alignment + sum_of (λ v. v.packets_bad_alignment) values);
  packets_no_crypto_ctx =
      u64 (s.packets_no_crypto_ctx + sum_of (λ v. v.packets_no_crypto_ctx) values);
}

plus_none : (b : ℕ) → b + 0 ≡ b
plus_none b = omega arith

u64_shift : (a b c : ℕ) → u64 (u64 (a + b) + c) ≡ u64 (a + (b + c))
u64_shift a b c = omega arith

sum_stats-sums :
    (v : CryptoStats) (values : List CryptoStats) (s : CryptoStats)
    → sum_stats (v ∷ values) s ≡ sums_on s (v ∷ values)
unfolding sum_stats add_stats
sum_stats-sums v [] s = simp plus_none refl
sum_stats-sums v (w ∷ values) s = sum_stats-sums w values (add_stats s v) ∙ simp u64_shift refl

-- Each counter is the sum of the counters of the CPUs, on 64 bits.
abbrev pub sums : List CryptoStats → CryptoStats
sums values = record {
  packets_seen = u64 (sum_of (λ v. v.packets_seen) values);
  packets_passed = u64 (sum_of (λ v. v.packets_passed) values);
  packets_crypto_ok = u64 (sum_of (λ v. v.packets_crypto_ok) values);
  packets_crypto_fail = u64 (sum_of (λ v. v.packets_crypto_fail) values);
  packets_malformed = u64 (sum_of (λ v. v.packets_malformed) values);
  packets_bad_eth = u64 (sum_of (λ v. v.packets_bad_eth) values);
  packets_bad_ip = u64 (sum_of (λ v. v.packets_bad_ip) values);
  packets_bad_udp = u64 (sum_of (λ v. v.packets_bad_udp) values);
  packets_bad_magic = u64 (sum_of (λ v. v.packets_bad_magic) values);
  packets_bad_length = u64 (sum_of (λ v. v.packets_bad_length) values);
  packets_bad_alignment = u64 (sum_of (λ v. v.packets_bad_alignment) values);
  packets_no_crypto_ctx = u64 (sum_of (λ v. v.packets_no_crypto_ctx) values);
}

none_plus : (b : ℕ) → 0 + b ≡ b
none_plus b = omega arith

sum_stats_zero : (values : List CryptoStats) → sum_stats values zero_stats ≡ sums values
sum_stats_zero [] = unfold sum_stats in refl
sum_stats_zero (v ∷ values) = sum_stats-sums v values zero_stats ∙ simp none_plus refl

-- The counters of the CPUs, as far as the lookups give them.
abbrev pub collected : Option ℕ → PerCpu → List CryptoStats
collected none map = []
collected (some fd) map =
    if map.cpu_count == 0 || not map.allocated
    then []
    else elim map.values [ none ↦ [] | some values ↦ take map.cpu_count values ]

totals_lem :
    (fd : Option ℕ) (cpu_count : ℕ) (allocated : Bool) (values : Option (List CryptoStats))
    → totals fd (record { cpu_count = cpu_count; allocated = allocated; values = values })
      ≡ sums
          (collected fd (record { cpu_count = cpu_count; allocated = allocated; values = values }))
unfolding totals
totals_lem none cpu_count allocated values = refl
totals_lem (some fd) cpu_count false values = ground arith
totals_lem (some fd) cpu_count true none = ground arith
totals_lem (some fd) cpu_count true (some values) =
    ground (arith, sum_stats_zero (take cpu_count values))

-- A reader that knows the labels finds twelve numbers in the printed line: the sums of the counters
-- over the CPUs, on 64 bits, or zeros where a lookup fails.
pub print_stats-sums :
    (fd : Option ℕ) (map : PerCpu)
    → read_fields totals_labels (10 ∷ []) (print_stats fd map)
      ≡ some (totals_values (sums (collected fd map)))
print_stats-sums fd map =
    print_stats_reads_back fd map
    ∙ ap (λ t. some (totals_values t)) (totals_lem fd map.cpu_count map.allocated map.values)
