-- ===== src/Tests/Sending.antt =====
-- The sender of the benchmarks on concrete arguments.
use e_ba_f_project.Base.{
  ℕ, ◌+◌, ◌≡◌, refl, inl, true, none, some, ◌*◌, List, [], ◌∷◌, ◌++◌, arith, length, byte_at,
}
use e_ba_f_project.Base.Text.{codes}
use e_ba_f_project.Flow.{next}
use e_ba_f_project.Wire.{Packet}
use e_ba_f_project.Formats.Decimal.{decimal}
use e_ba_f_project.Config.Strtoul.{
  strtoul, scan, skip_spaces, read_sign, is_digit, is_space, is_empty,
}
use e_ba_f_project.Xdp
use e_ba_f_project.TcCrypto
use e_ba_f_project.TcCrypto.Shape.{IsIp, IsUdp}
use e_ba_f_project.Sender.{Settings, parse_uint, payload_arg, parse_settings, packet, bench}
use e_ba_f_project.Sender.Frames.{Carries}
use e_ba_f_project.Sender.Accepted.{sent_frame, packet-accepted}
use e_ba_f_project.Sender.Counts.{bench_counts}
use e_ba_f_project.Tests.Packets.{sending, headers}

abbrev arguments : List (List ℕ)
arguments = codes "10.0.0.2" ∷ codes "7777" ∷ codes "5" ∷ codes "16" ∷ []

abbrev settings : Settings
settings = record { host = codes "10.0.0.2"; port = 7777; duration_sec = 5; payload_bytes = 16 }

arguments_parsed : parse_settings arguments ≡ some settings
unfolding parse_settings parse_uint payload_arg strtoul scan skip_spaces read_sign is_digit is_space
    is_empty
arguments_parsed = refl

-- A size that is no multiple of 16 is refused.
odd_size : parse_settings (codes "h" ∷ codes "1" ∷ codes "1" ∷ codes "20" ∷ []) ≡ none
unfolding parse_settings parse_uint payload_arg strtoul scan skip_spaces read_sign is_digit is_space
    is_empty
odd_size = refl

abbrev sent_packet : Packet
sent_packet = record { bytes = headers 40 ++ packet 16; data_end = 82 }

byte_at-behind : (a b : List ℕ) (j : ℕ) → byte_at (a ++ b) (length a + j) ≡ byte_at b j
byte_at-behind [] b j = ground arith
byte_at-behind (x ∷ a) b j = ground (arith, byte_at-behind a b j)

carries : Carries sent_packet 42 16
carries j h = byte_at-behind (headers 40) (packet 16) j

sent-IsIp : IsIp sent_packet 34
sent-IsIp = record {
  ethernet = omega arith;
  words = omega arith;
  udp_at = omega arith;
  whole = omega arith;
  protocol = omega arith;
  ip_fits = omega arith;
}

sent-IsUdp : IsUdp sent_packet (some sending) 34 sending 40
sent-IsUdp = record {
  configured = refl;
  known = inl refl;
  cbc = refl;
  port = omega arith;
  udp_len = omega arith;
  udp_fits = omega arith;
}

packet-accepted_example :
    (TcCrypto.parse sent_packet (some sending) ≡ next (sent_frame sending 34 16))
    × (Xdp.parse sent_packet (some sending) ≡ next (sent_frame sending 34 16))
packet-accepted_example =
    packet-accepted arguments settings sent_packet (some sending) 34 sending arguments_parsed
      sent-IsIp sent-IsUdp carries

-- A clock that reaches the deadline in round 3.
abbrev clock : ℕ → ℕ
clock i = 2000000000 * i

bench_counts_example :
    bench arguments true (λ host. true) 1000000000 clock (λ i. true) 9
    ≡ record { code = some 0; printed = some (decimal 3 ++ 10 ∷ []) }
bench_counts_example =
    bench_counts arguments settings (λ host. true) 1000000000 clock (λ i. true) 9 3 arguments_parsed
      refl (omega arith) (λ j h. (omega arith, refl)) (omega arith)
