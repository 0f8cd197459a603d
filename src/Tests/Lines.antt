-- ===== src/Tests/Lines.antt =====
-- The printed lines and the totals, on concrete events and counters.
use e_ba_f_project.Base.{
  ℕ, ◌≤◌, ◌<◌, ◌≡◌, ◌⊎◌, refl, true, none, some, List, [], ◌∷◌, ◌++◌, arith, length,
}
use e_ba_f_project.Base.Bytes.{slice, overwrite}
use e_ba_f_project.Base.Text.{codes}
use e_ba_f_project.Wire.{CryptoStats, CryptoEvent}
use e_ba_f_project.Machine.{count, bump, stat_inc}
use e_ba_f_project.Framed.{run, apply, restore, emit_crypto_event, save_iv, sample_from, fill_event}
use e_ba_f_project.Framed.Trace.{run_all, AllSized, Balanced}
use e_ba_f_project.Formats.Decimal.{decimal, decimal_fuel}
use e_ba_f_project.Formats.Fields.{read_fields}
use e_ba_f_project.Formats.Stats.{stats_json, format_stats_json, print_pieces}
use e_ba_f_project.Formats.Event.{
  action_name, algo_name, inet_ntop, hex_digit, hex_from, sample_bytes, format_sample_hex,
  event_json,
}
use e_ba_f_project.Formats.Handler.{handle_crypto_event, handle_crypto_event-jsonl}
use e_ba_f_project.Formats.Lines.{stats_labels, stats_values, format_stats_json_lem}
use e_ba_f_project.Formats.Totals.{zero_stats, PerCpu, totals, print_stats}
use e_ba_f_project.Formats.Summed.{totals_labels, totals_values, Cpu, totals-Balanced}
use e_ba_f_project.Formats.Sums.{sums, collected, print_stats-sums}
use e_ba_f_project.Xdp
use e_ba_f_project.Xdp.{xdp}
use e_ba_f_project.Xdp.Program.{xdp-IsFramed}
use e_ba_f_project.Tests.Toy.{toy_kernel, toy_cipher, toy-IsDynptrLawful, toy-IsCryptoLawful}
use e_ba_f_project.Tests.Packets.{framed_packet, sender}

abbrev event : CryptoEvent
event = record {
  timestamp_ns = 1700000000123;
  src_ip = 0x0a00_0001;
  dst_ip = 0x0a00_0002;
  src_port = 1024;
  dst_port = 7777;
  payload_len = 40;
  data_len = 16;
  action = 1;
  algo = 1;
  result = 0;
  sample_len = 3;
  sample = 7 ∷ 255 ∷ 16 ∷ [];
}

event_line :
    event_json event
    ≡ codes
        "{\"type\":\"packet\",\"ts_ns\":1700000000123,\"action\":\"encrypt\",\"algo\":\"cbc-aes\",\"src\":\"10.0.0.1\",\"src_port\":1024,\"dst\":\"10.0.0.2\",\"dst_port\":7777,\"payload_len\":40,\"data_len\":16,\"sample\":\"07ff10\"}"
unfolding event_json print_pieces decimal decimal_fuel action_name algo_name inet_ntop hex_digit
    hex_from sample_bytes format_sample_hex
event_line = refl

handle_crypto_event-jsonl_example :
    handle_crypto_event (some true) event 64 ≡ event_json event ++ 10 ∷ []
handle_crypto_event-jsonl_example = handle_crypto_event-jsonl event 64 (omega arith) (omega arith)

-- The counters after one enciphered frame.
abbrev one_frame : CryptoStats
one_frame = record zero_stats { packets_seen = 1; packets_crypto_ok = 1 }

format_stats_json_lem_example :
    ((line : List ℕ) × (length line < 256)
      × (format_stats_json one_frame 256 ≡ record { result = some (length line); out = some line })
      × (read_fields stats_labels (codes "}") line ≡ some (stats_values one_frame)))
    ⊎ ((256 ≤ length (stats_json one_frame)) × ((format_stats_json one_frame 256).result ≡ none))
format_stats_json_lem_example = format_stats_json_lem one_frame 256

abbrev two_cpus : PerCpu
two_cpus = record { cpu_count = 2; allocated = true; values = some (one_frame ∷ one_frame ∷ []) }

print_stats-sums_example :
    read_fields totals_labels (10 ∷ []) (print_stats (some 5) two_cpus)
    ≡ some (totals_values (sums (collected (some 5) two_cpus)))
print_stats-sums_example = print_stats-sums (some 5) two_cpus

abbrev cpu : Cpu
cpu = record { machine = sender; packets = framed_packet ∷ [] }

one_frame_counted :
    (run_all toy_kernel (xdp toy_kernel) (framed_packet ∷ []) sender).stats ≡ some one_frame
unfolding run_all run save_iv sample_from fill_event apply restore emit_crypto_event slice overwrite
    count bump stat_inc xdp Xdp.parse Xdp.parse_ip Xdp.parse_udp Xdp.parse_header Xdp.prepare
    Xdp.run_cipher
one_frame_counted = refl

ran :
    (cpu.machine.stats ≡ some zero_stats)
    × AllSized cpu.packets
    × ((run_all toy_kernel (xdp toy_kernel) cpu.packets cpu.machine).stats ≡ some one_frame)
ran = (refl, omega arith, one_frame_counted)

totals-Balanced_example : Balanced 2 zero_stats (totals (some 5) two_cpus)
totals-Balanced_example =
    totals-Balanced toy_kernel toy_cipher (xdp toy_kernel)
      (xdp-IsFramed toy_kernel toy_cipher toy-IsDynptrLawful toy-IsCryptoLawful) (cpu ∷ cpu ∷ [])
      (one_frame ∷ one_frame ∷ []) 5 (omega arith) (ran, (ran, tt))
