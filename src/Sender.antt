-- ===== src/Sender.antt =====
-- tools/udp_bench_sender.c: the sender of the benchmarks, which sends one eBaF frame over and over.
pub mod Frames
pub mod Accepted
pub mod Counts
use e_ba_f_project.Base.{
  ℕ, zero, suc, ◌+◌, ◌-◌, ◌*◌, ◌/◌, ◌%◌, ◌^◌, Bool, true, false, ◌&&◌, ◌||◌, not, Option, none,
  some, List, [], ◌∷◌, ltb, leb, ◌==◌, ◌!=◌, u8, u16, u64, ◌++◌, if◌then◌else◌, replicate,
}
use e_ba_f_project.Base.Bytes.{overwrite}
use e_ba_f_project.Formats.Decimal.{decimal}
use e_ba_f_project.Config.Strtoul.{strtoul, is_empty}
use e_ba_f_project.Config.Args.{◌>>=◌, ◌>>◌, guard}

abbrev pub magic : ℕ
magic = 0x4542_4146

abbrev pub version : ℕ
version = 1

abbrev pub action : ℕ
action = 1

abbrev pub iv_bytes : ℕ
iv_bytes = 16

abbrev pub block_bytes : ℕ
block_bytes = 16

abbrev pub frame_header_bytes : ℕ
frame_header_bytes = 24

abbrev pub max_udp_payload : ℕ
max_udp_payload = 65507

-- `none` is the -1 of the code; the result is stored as an `unsigned int`.
unfoldable pub parse_uint : List ℕ → ℕ → ℕ → Option ℕ
parse_uint text min max =
    let c = strtoul text in
    if c.range_error
      || not c.converted
      || not (is_empty c.rest)
      || ltb c.value min
      || ltb max c.value
    then none
    else some (c.value % 2 ^ 32)

pub record Settings : Type 0 where
  pub host : List ℕ
  pub port : ℕ
  pub duration_sec : ℕ
  pub payload_bytes : ℕ

-- The optional argument; 32 where it is missing.
unfoldable pub payload_arg : List (List ℕ) → Option ℕ
unfolding parse_uint
payload_arg [] = some 32
payload_arg (text ∷ []) = parse_uint text 16 (max_udp_payload - frame_header_bytes)
payload_arg (text ∷ other ∷ more) = none

-- The arguments behind `argv[0]`; `none` is the exit 2.
unfoldable pub parse_settings : List (List ℕ) → Option Settings
unfolding parse_uint payload_arg
parse_settings [] = none
parse_settings (host ∷ []) = none
parse_settings (host ∷ port_text ∷ []) = none
parse_settings (host ∷ port_text ∷ duration_text ∷ more) = do
  port ← parse_uint port_text 1 65535
  duration_sec ← parse_uint duration_text 1 3600
  payload_bytes ← payload_arg more
  guard
      (payload_bytes % block_bytes == 0 && leb (payload_bytes + frame_header_bytes) max_udp_payload)
  some (record {
    host = host;
    port = port;
    duration_sec = duration_sec;
    payload_bytes = payload_bytes;
  })

-- The loop that writes the IV, at index `i` with `left` rounds to go.
unfoldable pub iv_loop : ℕ → ℕ → List ℕ → List ℕ
iv_loop zero i packet = packet
iv_loop (suc left) i packet = iv_loop left (i + 1) (overwrite packet (8 + i) (u8 i ∷ []))

-- The part of the array `packet` that is sent, after memset and the writes up to the length of the
-- body; nothing is written behind that part.
unfoldable pub packet_start : ℕ → List ℕ
packet_start payload_bytes =
    let zeros = replicate (frame_header_bytes + payload_bytes) 0 in
    let with_magic =
      overwrite zeros 0
        (u8 (magic / 2 ^ 24) ∷ u8 (magic / 2 ^ 16) ∷ u8 (magic / 2 ^ 8) ∷ u8 magic ∷ []) in
    let with_action = overwrite with_magic 4 (version ∷ action ∷ []) in
    let body_len = u16 payload_bytes in
    overwrite with_action 6 (body_len / 256 ∷ body_len % 256 ∷ [])

unfoldable pub packet : ℕ → List ℕ
unfolding iv_loop packet_start
packet payload_bytes =
    let with_iv = iv_loop iv_bytes 0 (packet_start payload_bytes) in
    let with_body = overwrite with_iv frame_header_bytes (replicate payload_bytes b'A') in
    overwrite with_body (frame_header_bytes + payload_bytes - 1) (1 ∷ [])

-- How a run of the loop ends: `deadline` reached with this many packets sent, an error of sendto
-- after this many, or not within the fuel.
pub data Ending : Type 0 where
  sent_all : ℕ → Ending
  send_error : ℕ → Ending
  unfinished : Ending

-- The loop from its round `i` on; `clock` is what monotonic_ns gives in a round, `sends` whether
-- sendto succeeds in it. `sent` is a uint64_t.
unfoldable pub send_loop : ℕ → (ℕ → ℕ) → (ℕ → Bool) → ℕ → ℕ → ℕ → Ending
send_loop deadline clock sends zero i sent = unfinished
send_loop deadline clock sends (suc fuel) i sent =
    let rest = send_loop deadline clock sends fuel (i + 1) (u64 (sent + 1)) in
    if ltb (clock i) deadline then if sends i then rest else send_error sent else sent_all sent

-- The exit code, `none` for a run that does not end within the fuel, and the line that is printed.
pub record Report : Type 0 where
  pub code : Option ℕ
  pub printed : Option (List ℕ)

abbrev pub report : Ending → Report
report (sent_all sent) = record { code = some 0; printed = some (decimal sent ++ 10 ∷ []) }
report (send_error sent) = record { code = some 1; printed = none }
report unfinished = record { code = none; printed = none }

-- From the arguments on: `socket_ok` and `host_ok` are whether socket and inet_pton succeed, `begin`
-- is the reading of the clock that the deadline is counted from.
unfoldable pub run_settings :
    Bool → (List ℕ → Bool) → ℕ → (ℕ → ℕ) → (ℕ → Bool) → ℕ → Option Settings → Report
unfolding send_loop
run_settings socket_ok host_ok begin clock sends fuel none = record {
  code = some 2;
  printed = none;
}
run_settings socket_ok host_ok begin clock sends fuel (some settings) =
    if not socket_ok
    then record { code = some 1; printed = none }
    else if not (host_ok settings.host)
    then record { code = some 2; printed = none }
    else let deadline = u64 (begin + settings.duration_sec * 1000000000) in
      report (send_loop deadline clock sends fuel 0 0)

unfoldable pub bench :
    List (List ℕ) → Bool → (List ℕ → Bool) → ℕ → (ℕ → ℕ) → (ℕ → Bool) → ℕ → Report
unfolding parse_settings run_settings
bench argv socket_ok host_ok begin clock sends fuel =
    run_settings socket_ok host_ok begin clock sends fuel (parse_settings argv)
