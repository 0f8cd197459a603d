-- ===== src/Tests/Plain.antt =====
-- src/bpf/tc_transparent.bpf.c on a concrete datagram.
use e_ba_f_project.Base.{
  none, ℕ, ◌<◌, ◌≤◌, ◌≡◌, ◌⊎◌, ◌↔◌, refl, true, false, some, [], ◌∷◌, ◌++◌, arith, length, byte_at,
  replicate,
}
use e_ba_f_project.Base.Bytes.{slice, overwrite}
use e_ba_f_project.Flow.{next, quiet}
use e_ba_f_project.Wire.{Packet, tc_act_ok, be16}
use e_ba_f_project.Machine.{Machine, packets_seen, count, leave}
use e_ba_f_project.Transparent.Checks
use e_ba_f_project.Transparent.Checks.{Datagram, IsDatagram, parse_transparent_iff}
use e_ba_f_project.Transparent.Lengths.{update_lengths}
use e_ba_f_project.Transparent.Event
use e_ba_f_project.Transparent.Safety.{tc_transparent_passes}
use e_ba_f_project.Transparent.Untouched.{tc_transparent_untouched}
use e_ba_f_project.Transparent.Updated.{Updates, update_lengths-Updates, update_lengths_inverse}
use e_ba_f_project.Transparent
use e_ba_f_project.Transparent.{Sealed, tc_transparent}
use e_ba_f_project.Transparent.Unsealed.{tc_transparent_unsealed}
use e_ba_f_project.Transparent.Extended.{IsExtended, extend-IsExtended}
use e_ba_f_project.Tests.Toy.{toy_kernel, toy-IsSkbLawful}
use e_ba_f_project.Tests.Packets.{sending, receiving, headers, sender}

-- A payload of 5 bytes, with the two lengths filled in.
abbrev plain_packet : Packet
plain_packet = record {
  bytes = overwrite (headers 5) 16 (0 ∷ 33 ∷ []) ++ replicate 5 100;
  data_end = 47;
}

abbrev datagram : Datagram
datagram = record { config = sending; udp = 34; payload_len = 5 }

abbrev plain_sender : Machine
plain_sender = record sender { packet = plain_packet }

abbrev plain_receiver : Machine
plain_receiver = record sender {
  packet = (tc_transparent toy_kernel plain_sender).1.packet;
  config = some receiving;
}

-- The packet grows by 11 bytes of padding and a header, and its body is enciphered; the peer's
-- program gives the datagram back, less the UDP checksum.
plain_runs :
    let p = (tc_transparent toy_kernel plain_sender).1.packet in
    (length p.bytes ≡ 82)
    × (be16 p.bytes 16 ≡ 68)
    × (slice p.bytes 42 5 ≡ replicate 5 104)
    × ((tc_transparent toy_kernel plain_receiver).1.packet
        ≡ record plain_packet { bytes = overwrite plain_packet.bytes 40 (0 ∷ 0 ∷ []) })
unfolding tc_transparent Checks.parse Checks.parse_ip Checks.parse_udp Transparent.transform
    Transparent.extend Transparent.locate Transparent.cipher Transparent.report Transparent.shrink
    Transparent.store_padding Transparent.fill_iv Transparent.iv_from update_lengths Event.reopen
    Event.reopen_payload Event.emit_event Event.load_sample count leave slice overwrite
plain_runs = (refl, refl, refl, refl)

parse_transparent_iff_example :
    (Checks.parse plain_packet (some sending) ≡ next datagram)
    ↔ IsDatagram plain_packet (some sending) datagram
parse_transparent_iff_example = parse_transparent_iff plain_packet (some sending) datagram

tc_transparent_passes_example : (tc_transparent toy_kernel plain_sender).0 ≡ some tc_act_ok
tc_transparent_passes_example = tc_transparent_passes toy_kernel plain_sender

tc_transparent_untouched_example :
    ((d : Datagram) × IsDatagram plain_packet (some sending) d)
    ⊎ (((tc_transparent toy_kernel plain_sender).1.packet ≡ plain_packet)
        × ((tc_transparent toy_kernel plain_sender).1.events ≡ []))
tc_transparent_untouched_example = tc_transparent_untouched toy_kernel plain_sender

abbrev updated : Machine
updated = (update_lengths toy_kernel 14 34 35 true quiet plain_sender).0

abbrev restored : Machine
restored = (update_lengths toy_kernel 14 34 35 false quiet updated).0

update_lengths-Updates_example : Updates 14 34 35 true plain_packet.bytes updated.packet.bytes
unfolding update_lengths slice overwrite
update_lengths-Updates_example =
    update_lengths-Updates toy_kernel 14 34 35 true quiet plain_sender updated toy-IsSkbLawful
      (omega arith) refl

update_lengths_inverse_example :
    (be16 restored.packet.bytes 16 ≡ 33)
    × (be16 restored.packet.bytes 38 ≡ 13)
    × ((j : ℕ)
        → (j < 16) ⊎ ((18 ≤ j) × (j < 24)) ⊎ ((26 ≤ j) × (j < 38)) ⊎ (42 ≤ j)
        → byte_at restored.packet.bytes j ≡ byte_at plain_packet.bytes j)
unfolding update_lengths slice overwrite
update_lengths_inverse_example =
    update_lengths_inverse toy_kernel 14 34 35 quiet quiet plain_sender updated restored
      toy-IsSkbLawful (omega arith) (omega arith) (omega arith) refl refl

abbrev extended : Sealed
extended = record { body_len = 16; body_off = 42; iv_off = 66; iv = replicate 16 0; stated_len = 0 }

extend-IsExtended_example : IsExtended datagram extended
unfolding Transparent.extend Transparent.store_padding Transparent.fill_iv Transparent.iv_from
    update_lengths Event.reopen Event.reopen_payload slice overwrite
extend-IsExtended_example =
    extend-IsExtended toy_kernel datagram plain_sender
      (Transparent.extend toy_kernel datagram plain_sender).0 extended refl

-- The sender without a crypto context.
abbrev unloaded : Machine
unloaded = record plain_sender { slot = some none }

abbrev unloaded_extended : Machine
unloaded_extended = (Transparent.extend toy_kernel datagram (count packets_seen unloaded)).0

plain_datagram : IsDatagram plain_packet (some sending) datagram
unfolding Checks.parse Checks.parse_ip Checks.parse_udp overwrite
plain_datagram = (parse_transparent_iff plain_packet (some sending) datagram).0 refl

tc_transparent_unsealed_example :
    ((tc_transparent toy_kernel unloaded).0 ≡ some tc_act_ok)
    × ((tc_transparent toy_kernel unloaded).1.packet ≡ unloaded_extended.packet)
    × ((j : ℕ)
        → 42 ≤ j
        → j < 47
        → byte_at (tc_transparent toy_kernel unloaded).1.packet.bytes j
          ≡ byte_at plain_packet.bytes j)
unfolding Transparent.extend Transparent.store_padding Transparent.fill_iv Transparent.iv_from
    update_lengths Event.reopen Event.reopen_payload slice overwrite count
tc_transparent_unsealed_example =
    tc_transparent_unsealed toy_kernel unloaded unloaded_extended datagram extended toy-IsSkbLawful
      plain_datagram refl (omega arith) (omega arith) refl refl
