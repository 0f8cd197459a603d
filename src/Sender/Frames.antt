-- ===== src/Sender/Frames.antt =====
-- The packet of tools/udp_bench_sender.c against the checks of src/bpf/xdp_crypto.bpf.c and
-- src/bpf/tc_crypto.bpf.c.
use e_ba_f_project.Base.{
  ℕ, zero, suc, ◌+◌, ◌-◌, ◌/◌, ◌%◌, ◌≤◌, ◌<◌, ◌≡◌, refl, sym, ◌==◌, ◌&&◌, inl, some, List, [], ◌∷◌,
  arith, length, byte_at, replicate, leb, u8, u16, ◌∙◌, ◌++◌,
}
use e_ba_f_project.Base.Bytes.{
  overwrite, length-overwrite, byte_at-overwrite, byte_at-overwrite_outside, overwrite-nil,
}
use e_ba_f_project.Wire.{Packet, be16, be32, crypto_magic}
use e_ba_f_project.Config.Strtoul
use e_ba_f_project.Config.Uint.{parse_uint_bounds}
use e_ba_f_project.Config.Args.{>>=-eq-some, guard}
use e_ba_f_project.Sender.{
  parse_uint, Settings, payload_arg, parse_settings, iv_loop, packet_start, packet,
}

-- Both tools read a number in the same way: the check of an empty text makes no difference.
parse_uint_same :
    (text : List ℕ) (min max : ℕ) → parse_uint text min max ≡ Strtoul.parse_uint text min max
unfolding parse_uint Strtoul.parse_uint Strtoul.strtoul Strtoul.skip_spaces Strtoul.read_sign
    Strtoul.scan Strtoul.is_empty
parse_uint_same [] min max = ground arith
parse_uint_same (c ∷ text) min max = refl

length-replicate : (n a : ℕ) → length (replicate n a) ≡ n
length-replicate zero a = refl
length-replicate (suc n) a = omega (arith, length-replicate n a)

length-iv_loop : (left i : ℕ) (b : List ℕ) → length (iv_loop left i b) ≡ length b
unfolding iv_loop
length-iv_loop zero i b = refl
length-iv_loop (suc left) i b = omega (
  arith,
  length-iv_loop left (i + 1) (overwrite b (8 + i) (u8 i ∷ [])),
  length-overwrite b (8 + i) (u8 i ∷ []),
)

byte_at-iv_loop :
    (left i : ℕ) (b : List ℕ) (j : ℕ) → j < 8 → byte_at (iv_loop left i b) j ≡ byte_at b j
unfolding iv_loop
byte_at-iv_loop zero i b j h = refl
byte_at-iv_loop (suc left) i b j h = ground (
  arith,
  byte_at-iv_loop left (i + 1) (overwrite b (8 + i) (u8 i ∷ [])) j h,
  byte_at-overwrite b (8 + i) (u8 i ∷ []) j,
)

-- The header, less its IV.
abbrev header : ℕ → List ℕ
header n = 0x45 ∷ 0x42 ∷ 0x41 ∷ 0x46 ∷ 1 ∷ 1 ∷ (n / 256) ∷ (n % 256) ∷ []

byte_at-append : (a b : List ℕ) (j : ℕ) → j < length a → byte_at (a ++ b) j ≡ byte_at a j
byte_at-append [] b j h = elim h [ ]
byte_at-append (x ∷ a) b zero h = refl
byte_at-append (x ∷ a) b (suc j) h = byte_at-append a b j (omega arith)

packet_start_lem :
    (n k : ℕ)
    → 24 + n ≡ suc (suc (suc (suc (suc (suc (suc (suc k)))))))
    → n < 65536
    → packet_start n ≡ header n ++ replicate k 0
unfolding packet_start overwrite
packet_start_lem n k size fits =
    let small : u16 n ≡ n = omega arith in rw (size, small, overwrite-nil) refl

byte_at-packet_start :
    (n j : ℕ) → n < 65536 → j < 8 → byte_at (packet_start n) j ≡ byte_at (header n) j
byte_at-packet_start n j fits h =
    rw (packet_start_lem n (16 + n) (omega arith) fits) (byte_at-append (header n) _ j h)

-- The writes behind the first eight bytes leave them as they are.
byte_at-packet : (n j : ℕ) → 0 < n → n < 65536 → j < 8 → byte_at (packet n) j ≡ byte_at (header n) j
unfolding packet
byte_at-packet n j some_body fits h =
    let with_iv = iv_loop 16 0 (packet_start n) in
    let with_body = overwrite with_iv 24 (replicate n b'A') in
    byte_at-overwrite_outside with_body (24 + n - 1) (1 ∷ []) j (inl (omega arith))
    ∙ byte_at-overwrite_outside with_iv 24 (replicate n b'A') j (inl (omega arith))
    ∙ byte_at-iv_loop 16 0 (packet_start n) j h
    ∙ byte_at-packet_start n j fits h

length-packet_start : (n : ℕ) → length (packet_start n) ≡ 24 + n
unfolding packet_start
length-packet_start n =
    let size = length-replicate (24 + n) 0 in
    rw (length-overwrite, length-overwrite, length-overwrite) size

length-packet : (n : ℕ) → length (packet n) ≡ 24 + n
unfolding packet
length-packet n = rw (length-overwrite, length-overwrite, length-iv_loop) (length-packet_start n)

payload_arg_bounds :
    (more : List (List ℕ)) (n : ℕ) → payload_arg more ≡ some n → (16 ≤ n) × (n ≤ 65483)
unfolding payload_arg
payload_arg_bounds [] n h = ground arith
payload_arg_bounds (text ∷ []) n h =
    parse_uint_bounds text 16 65483 n (omega arith) (sym (parse_uint_same text 16 65483) ∙ h)
payload_arg_bounds (text ∷ other ∷ more) n h = cc

-- The length of a body that the sender accepts.
pub record IsBody (n : ℕ) : Type 0 where
  pub some_block : 16 ≤ n
  pub fits : n ≤ 65483
  pub whole_blocks : n % 16 ≡ 0

guarded-IsBody :
    (n : ℕ) (checked settings : Settings) (u : Unit {0})
    → guard (n % 16 == 0 && leb (n + 24) 65507) ≡ some u
    → checked.payload_bytes ≡ n
    → 16 ≤ n
    → n ≤ 65483
    → some checked ≡ some settings
    → IsBody settings.payload_bytes
guarded-IsBody n checked settings u passes is_n above below same = ground arith

pub parse_settings-IsBody :
    (argv : List (List ℕ)) (settings : Settings)
    → parse_settings argv ≡ some settings
    → IsBody settings.payload_bytes
unfolding parse_settings
parse_settings-IsBody [] settings h = cc
parse_settings-IsBody (host ∷ []) settings h = cc
parse_settings-IsBody (host ∷ port_text ∷ []) settings h = cc
parse_settings-IsBody (host ∷ port_text ∷ duration_text ∷ more) settings h =
    let (port, h_port, h1) = >>=-eq-some (parse_uint port_text 1 65535) _ h in
    let (seconds, h_seconds, h2) = >>=-eq-some (parse_uint duration_text 1 3600) _ h1 in
    let (n, h_n, h3) = >>=-eq-some (payload_arg more) _ h2 in
    let (u, h_u, h4) = >>=-eq-some (guard (n % 16 == 0 && leb (n + 24) 65507)) _ h3 in
    let (above, below) = payload_arg_bounds more n h_n in
    let checked : Settings = record {
      host = host;
      port = port;
      duration_sec = seconds;
      payload_bytes = n;
    } in
    guarded-IsBody n checked settings u h_u refl above below h4

-- The packet of the sender lies in `p` from `payload` on.
abbrev pub Carries : Packet → ℕ → ℕ → Type 0
Carries p payload n =
    (j : ℕ) → j < length (packet n) → byte_at p.bytes (payload + j) ≡ byte_at (packet n) j

-- The fields of the header, where the packet of the sender lies.
pub record Fields (p : Packet) (payload n : ℕ) : Type 0 where
  pub magic : be32 p.bytes payload ≡ crypto_magic
  pub version : byte_at p.bytes (payload + 4) ≡ 1
  pub action : byte_at p.bytes (payload + 5) ≡ 1
  pub stated : be16 p.bytes (payload + 6) ≡ n

carried :
    (p : Packet) (payload n j : ℕ)
    → IsBody n
    → Carries p payload n
    → j < 8
    → byte_at p.bytes (payload + j) ≡ byte_at (header n) j
carried p payload n j body carries h =
    carries j (omega (arith, length-packet n))
    ∙ byte_at-packet n j (omega (arith, body.some_block)) (omega (arith, body.fits)) h

pub Carries-Fields :
    (p : Packet) (payload n : ℕ) → IsBody n → Carries p payload n → Fields p payload n
Carries-Fields p payload n body carries =
    let zeroth : payload + 0 ≡ payload = omega arith in
    let b0 = carried p payload n 0 body carries (omega arith) in
    let b1 = carried p payload n 1 body carries (omega arith) in
    let b2 = carried p payload n 2 body carries (omega arith) in
    let b3 = carried p payload n 3 body carries (omega arith) in
    let b6 = carried p payload n 6 body carries (omega arith) in
    let b7 = carried p payload n 7 body carries (omega arith) in
    record {
      magic = ground (arith, zeroth, b0, b1, b2, b3);
      version = carried p payload n 4 body carries (omega arith);
      action = carried p payload n 5 body carries (omega arith);
      stated = ground (arith, b6, b7);
    }
