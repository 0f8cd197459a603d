-- ===== src/Formats/Totals.antt =====
-- ebaf_bpf_print_stats of src/user/bpf_loader.c: the counters of all CPUs, added up and printed.
use e_ba_f_project.Base.{
  ℕ, ◌+◌, Bool, Option, none, some, List, [], ◌∷◌, ◌==◌, u64, if◌then◌else◌, take,
}
use e_ba_f_project.Base.Text.{codes}
use e_ba_f_project.Wire.{CryptoStats}
use e_ba_f_project.Formats.Fields.{Field, render}

abbrev pub zero_stats : CryptoStats
zero_stats = record {
  packets_seen = 0;
  packets_passed = 0;
  packets_crypto_ok = 0;
  packets_crypto_fail = 0;
  packets_malformed = 0;
  packets_bad_eth = 0;
  packets_bad_ip = 0;
  packets_bad_udp = 0;
  packets_bad_magic = 0;
  packets_bad_length = 0;
  packets_bad_alignment = 0;
  packets_no_crypto_ctx = 0;
}

-- One round of the loop over the CPUs.
unfoldable pub add_stats : CryptoStats → CryptoStats → CryptoStats
add_stats total value = record {
  packets_seen = u64 (total.packets_seen + value.packets_seen);
  packets_passed = u64 (total.packets_passed + value.packets_passed);
  packets_crypto_ok = u64 (total.packets_crypto_ok + value.packets_crypto_ok);
  packets_crypto_fail = u64 (total.packets_crypto_fail + value.packets_crypto_fail);
  packets_malformed = u64 (total.packets_malformed + value.packets_malformed);
  packets_bad_eth = u64 (total.packets_bad_eth + value.packets_bad_eth);
  packets_bad_ip = u64 (total.packets_bad_ip + value.packets_bad_ip);
  packets_bad_udp = u64 (total.packets_bad_udp + value.packets_bad_udp);
  packets_bad_magic = u64 (total.packets_bad_magic + value.packets_bad_magic);
  packets_bad_length = u64 (total.packets_bad_length + value.packets_bad_length);
  packets_bad_alignment = u64 (total.packets_bad_alignment + value.packets_bad_alignment);
  packets_no_crypto_ctx = u64 (total.packets_no_crypto_ctx + value.packets_no_crypto_ctx);
}

unfoldable pub sum_stats : List CryptoStats → CryptoStats → CryptoStats
unfolding add_stats
sum_stats [] total = total
sum_stats (value ∷ values) total = sum_stats values (add_stats total value)

-- What the calls give: libbpf_num_possible_cpus, 0 standing for any result that is not positive,
-- whether calloc gave memory, and the counters of the CPUs, if the lookup found them.
pub record PerCpu : Type 0 where
  pub cpu_count : ℕ
  pub allocated : Bool
  pub values : Option (List CryptoStats)

-- The totals that are printed; `fd` is the field `stats_map_fd` of the runtime, `none` where it is
-- negative or there is no runtime.
unfoldable pub totals : Option ℕ → PerCpu → CryptoStats
unfolding sum_stats
totals none map = zero_stats
totals (some fd) map =
    if map.cpu_count == 0
    then zero_stats
    else if map.allocated
    then elim map.values [
      | none ↦ zero_stats
      | some values ↦ sum_stats (take map.cpu_count values) zero_stats
    ]
    else zero_stats

abbrev pub totals_fields : CryptoStats → List Field
totals_fields total =
    record { label = codes "seen="; value = total.packets_seen }
    ∷ record { label = codes " passed="; value = total.packets_passed }
    ∷ record { label = codes " crypto_ok="; value = total.packets_crypto_ok }
    ∷ record { label = codes " crypto_fail="; value = total.packets_crypto_fail }
    ∷ record { label = codes " malformed="; value = total.packets_malformed }
    ∷ record { label = codes " bad_eth="; value = total.packets_bad_eth }
    ∷ record { label = codes " bad_ip="; value = total.packets_bad_ip }
    ∷ record { label = codes " bad_udp="; value = total.packets_bad_udp }
    ∷ record { label = codes " bad_magic="; value = total.packets_bad_magic }
    ∷ record { label = codes " bad_length="; value = total.packets_bad_length }
    ∷ record { label = codes " bad_alignment="; value = total.packets_bad_alignment }
    ∷ record { label = codes " no_crypto_ctx="; value = total.packets_no_crypto_ctx }
    ∷ []

unfoldable pub print_stats : Option ℕ → PerCpu → List ℕ
unfolding totals render
print_stats fd map = render (totals_fields (totals fd map)) (10 ∷ [])
