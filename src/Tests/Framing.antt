-- ===== src/Tests/Framing.antt =====
-- The framed programs on concrete packets.
use e_ba_f_project.Base.{◌≡◌, ◌⊎◌, ◌↔◌, refl, true, false, some, [], ◌∷◌, arith, length, replicate}
use e_ba_f_project.Base.Bytes.{slice, overwrite}
use e_ba_f_project.Flow.{next}
use e_ba_f_project.Wire.{CryptoEvent, xdp_pass, tc_act_ok}
use e_ba_f_project.Machine.{Machine, packets_seen, packets_crypto_ok, count, leave}
use e_ba_f_project.Machine.Accounts.{AccountsFor}
use e_ba_f_project.Framed.{
  Job, run, apply, restore, emit_crypto_event, save_iv, sample_from, fill_event,
}
use e_ba_f_project.Framed.Run.{processed}
use e_ba_f_project.Framed.RoundTrip.{Succeeds, IsPeer}
use e_ba_f_project.Framed.Trace.{run_all, BalancedFor}
use e_ba_f_project.Framed.Steps.{Kept}
use e_ba_f_project.Framed.Sample.{Reports, emit_crypto_event_lem}
use e_ba_f_project.Xdp
use e_ba_f_project.Xdp.{xdp, xdp_crypto}
use e_ba_f_project.TcCrypto
use e_ba_f_project.TcCrypto.{tc, tc_crypto}
use e_ba_f_project.Tests.Toy.{toy_kernel, toy_cipher, toy-IsDynptrLawful, toy-IsCryptoLawful}
use e_ba_f_project.Tests.Packets.{sending, receiving, framed_packet, frame, no_packets, sender}

-- The body of 100s becomes one of 113s, the checksum is gone, and an event is submitted.
xdp_runs :
    let (code, m) = xdp_crypto toy_kernel sender in
    (code ≡ some xdp_pass)
    × (slice m.packet.bytes 66 16 ≡ replicate 16 113)
    × (slice m.packet.bytes 40 2 ≡ 0 ∷ 0 ∷ [])
    × (length m.events ≡ 1)
unfolding xdp_crypto run save_iv sample_from fill_event apply restore emit_crypto_event slice
    overwrite count Xdp.parse_ip Xdp.parse_udp Xdp.parse_header
xdp_runs = (refl, refl, refl, refl)

-- A frame of the TC program that is marked as a fragment is rejected.
fragment : Machine
fragment = record sender {
  packet = record framed_packet { bytes = overwrite framed_packet.bytes 20 (0x20 ∷ []) };
}

tc_rejects_fragments :
    let (code, m) = tc_crypto toy_kernel fragment in
    (code ≡ some tc_act_ok)
    × (m.stats
        ≡ some (record no_packets { packets_seen = 1; packets_malformed = 1; packets_bad_ip = 1 }))
unfolding fragment tc_crypto run overwrite count leave TcCrypto.parse_ip
tc_rejects_fragments = (refl, refl)

xdp_frame : Xdp.Shape.IsFrame framed_packet (some sending) frame
unfolding Xdp.parse Xdp.parse_ip Xdp.parse_udp Xdp.parse_header
xdp_frame = (Xdp.Shape.parse_xdp_iff framed_packet (some sending) frame).0 refl

tc_frame : TcCrypto.Shape.IsFrame framed_packet (some sending) frame
unfolding TcCrypto.parse TcCrypto.parse_ip TcCrypto.parse_udp TcCrypto.parse_header
tc_frame = (TcCrypto.Shape.parse_tc_iff framed_packet (some sending) frame).0 refl

-- The peer: it receives what the sender's program leaves.
abbrev xdp_receiver : Machine
xdp_receiver = record sender {
  packet = (xdp_crypto toy_kernel sender).1.packet;
  config = some receiving;
}

abbrev tc_receiver : Machine
tc_receiver = record sender {
  packet = (tc_crypto toy_kernel sender).1.packet;
  config = some receiving;
}

abbrev job : Job
job = record {
  ctx = 3;
  data_ptr = record { offset = 66; size = 16 };
  iv_ptr = record { offset = 50; size = 16 };
}

xdp_sends : Succeeds (xdp toy_kernel) sender frame 3
unfolding xdp count
xdp_sends = record { job = job; prepared = refl; context = refl; called = refl }

xdp_receives : Succeeds (xdp toy_kernel) xdp_receiver (record frame { config = receiving }) 3
unfolding xdp_crypto run save_iv sample_from fill_event apply restore emit_crypto_event slice
    overwrite count Xdp.parse_ip Xdp.parse_udp Xdp.parse_header
xdp_receives = record { job = job; prepared = refl; context = refl; called = refl }

tc_sends : Succeeds (tc toy_kernel) sender frame 3
unfolding tc count
tc_sends = record { job = job; prepared = refl; context = refl; called = refl }

tc_receives : Succeeds (tc toy_kernel) tc_receiver (record frame { config = receiving }) 3
unfolding tc_crypto run save_iv sample_from fill_event apply restore emit_crypto_event slice
    overwrite count TcCrypto.parse_ip TcCrypto.parse_udp TcCrypto.parse_header
tc_receives = record { job = job; prepared = refl; context = refl; called = refl }

peers : IsPeer sending receiving
peers = omega arith

parse_xdp_iff_example :
    (Xdp.parse framed_packet (some sending) ≡ next frame)
    ↔ Xdp.Shape.IsFrame framed_packet (some sending) frame
parse_xdp_iff_example = Xdp.Shape.parse_xdp_iff framed_packet (some sending) frame

parse_tc_iff_example :
    (TcCrypto.parse framed_packet (some sending) ≡ next frame)
    ↔ TcCrypto.Shape.IsFrame framed_packet (some sending) frame
parse_tc_iff_example = TcCrypto.Shape.parse_tc_iff framed_packet (some sending) frame

xdp_crypto-Accounts_example :
    ((xdp_crypto toy_kernel sender).0 ≡ some xdp_pass)
    × AccountsFor (some no_packets) (xdp_crypto toy_kernel sender).1.stats
xdp_crypto-Accounts_example =
    Xdp.Laws.xdp_crypto-Accounts toy_kernel toy_cipher toy-IsDynptrLawful toy-IsCryptoLawful sender
      (omega arith)

xdp_crypto_untouched_example :
    Xdp.Laws.MayChange sender
    ⊎ (((xdp_crypto toy_kernel sender).1.packet ≡ sender.packet)
        × ((xdp_crypto toy_kernel sender).1.events ≡ []))
xdp_crypto_untouched_example =
    Xdp.Laws.xdp_crypto_untouched toy_kernel toy_cipher toy-IsDynptrLawful toy-IsCryptoLawful sender

xdp_crypto-processed_example :
    let (code, m) = xdp_crypto toy_kernel sender in
    (code ≡ some xdp_pass)
    × (m.packet ≡ processed toy_cipher frame 3 framed_packet)
    × (m.stats ≡ (count packets_crypto_ok (count packets_seen sender)).stats)
xdp_crypto-processed_example =
    Xdp.Laws.xdp_crypto-processed toy_kernel toy_cipher toy-IsDynptrLawful toy-IsCryptoLawful sender
      frame 3 (omega arith) xdp_frame xdp_sends

run_all-xdp_balanced_example :
    BalancedFor 2
      (some no_packets)
      (run_all toy_kernel (xdp toy_kernel) (framed_packet ∷ framed_packet ∷ []) sender).stats
run_all-xdp_balanced_example =
    Xdp.Laws.run_all-xdp_balanced toy_kernel toy_cipher toy-IsDynptrLawful toy-IsCryptoLawful
      (framed_packet ∷ framed_packet ∷ []) sender (omega arith)

xdp_crypto_round_trip_example :
    (xdp_crypto toy_kernel xdp_receiver).1.packet
    ≡ record framed_packet { bytes = overwrite framed_packet.bytes 40 (0 ∷ 0 ∷ []) }
xdp_crypto_round_trip_example =
    Xdp.RoundTrip.xdp_crypto_round_trip toy_kernel toy_cipher sender xdp_receiver frame receiving 3
      toy-IsDynptrLawful toy-IsCryptoLawful (omega arith) xdp_frame peers refl refl xdp_sends
      xdp_receives

tc_crypto-Accounts_example :
    ((tc_crypto toy_kernel sender).0 ≡ some tc_act_ok)
    × AccountsFor (some no_packets) (tc_crypto toy_kernel sender).1.stats
tc_crypto-Accounts_example =
    TcCrypto.Laws.tc_crypto-Accounts toy_kernel toy_cipher toy-IsDynptrLawful toy-IsCryptoLawful
      sender (omega arith)

tc_crypto_untouched_example :
    TcCrypto.Laws.MayChange sender
    ⊎ (((tc_crypto toy_kernel sender).1.packet ≡ sender.packet)
        × ((tc_crypto toy_kernel sender).1.events ≡ []))
tc_crypto_untouched_example =
    TcCrypto.Laws.tc_crypto_untouched toy_kernel toy_cipher toy-IsDynptrLawful toy-IsCryptoLawful
      sender

tc_crypto-processed_example :
    let (code, m) = tc_crypto toy_kernel sender in
    (code ≡ some tc_act_ok)
    × (m.packet ≡ processed toy_cipher frame 3 framed_packet)
    × (m.stats ≡ (count packets_crypto_ok (count packets_seen sender)).stats)
tc_crypto-processed_example =
    TcCrypto.Laws.tc_crypto-processed toy_kernel toy_cipher toy-IsDynptrLawful toy-IsCryptoLawful
      sender frame 3 (omega arith) tc_frame tc_sends

run_all-tc_balanced_example :
    BalancedFor 2
      (some no_packets)
      (run_all toy_kernel (tc toy_kernel) (framed_packet ∷ framed_packet ∷ []) sender).stats
run_all-tc_balanced_example =
    TcCrypto.Laws.run_all-tc_balanced toy_kernel toy_cipher toy-IsDynptrLawful toy-IsCryptoLawful
      (framed_packet ∷ framed_packet ∷ []) sender (omega arith)

tc_crypto_round_trip_example :
    (tc_crypto toy_kernel tc_receiver).1.packet
    ≡ record framed_packet { bytes = overwrite framed_packet.bytes 40 (0 ∷ 0 ∷ []) }
tc_crypto_round_trip_example =
    TcCrypto.RoundTrip.tc_crypto_round_trip toy_kernel toy_cipher sender tc_receiver frame receiving
      3 toy-IsDynptrLawful toy-IsCryptoLawful (omega arith) tc_frame peers refl refl tc_sends
      tc_receives

emit_crypto_event_lem_example :
    (m : Machine) × (emit_crypto_event toy_kernel frame sender ≡ next m)
    × Kept sender m
    × (((toy_kernel.bpf_ringbuf_reserve [] ≡ true)
          × ((event : CryptoEvent) × (m.events ≡ event ∷ []) × Reports framed_packet frame event))
        ⊎ ((toy_kernel.bpf_ringbuf_reserve [] ≡ false) × (m.events ≡ [])))
emit_crypto_event_lem_example =
    emit_crypto_event_lem toy_kernel frame sender (omega arith) (omega arith) (omega arith)
