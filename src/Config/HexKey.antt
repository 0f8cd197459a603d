-- ===== src/Config/HexKey.antt =====
-- `hex_value` and `ebaf_parse_hex_key` of src/user/config.c.
use Prim.Native.Nat.{bit_or}
use e_ba_f_project.Base.{
  ℕ, zero, suc, ◌+◌, ◌-◌, ◌*◌, Bool, true, false, ◌&&◌, Option, none, some, List, [], ◌∷◌, leb,
  ◌!=◌, u8, if◌then◌else◌, length, byte_at,
}
use e_ba_f_project.Base.Bytes.{overwrite}

-- `none` is the -1 of the code.
unfoldable pub hex_value : ℕ → Option ℕ
hex_value c =
    if leb b'0' c && leb c b'9'
    then some (c - b'0')
    else if leb b'a' c && leb c b'f'
    then some (c - b'a' + 10)
    else if leb b'A' c && leb c b'F'
    then some (c - b'A' + 10)
    else none

-- The loop at index `i` with `left` rounds to go: whether it came to its end, and the output
-- buffer, which keeps what was written before a bad digit.
unfoldable pub hex_loop : List ℕ → ℕ → ℕ → List ℕ → Bool × List ℕ
hex_loop hex zero i out = (true, out)
hex_loop hex (suc left) i out = elim (hex_value (byte_at hex (i * 2))) [
  | none ↦ (false, out)
  | some hi ↦ elim (hex_value (byte_at hex (i * 2 + 1))) [
    | none ↦ (false, out)
    | some lo ↦ hex_loop hex left (i + 1) (overwrite out i (u8 (bit_or (hi * 16) lo) ∷ []))
  ]
]

unfoldable pub parse_hex_key : List ℕ → List ℕ → ℕ → Bool × List ℕ
unfolding hex_loop
parse_hex_key hex out out_len =
    if length hex != out_len * 2 then (false, out) else hex_loop hex out_len 0 out
