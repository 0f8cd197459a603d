-- ===== src/Config/Strtoul.antt =====
-- `strtoul(text, &end, 10)` of the C library on 64 bits, and `parse_uint` of src/user/config.c.
use e_ba_f_project.Base.{
  ℕ, ◌+◌, ◌-◌, ◌*◌, ◌%◌, ◌^◌, Bool, true, false, ◌&&◌, ◌||◌, not, Option, none, some, List, [], ◌∷◌,
  ltb, leb, ◌==◌, u64, if◌then◌else◌,
}

-- `isspace` in the C locale: the blank and the codes from 9 (tab) to 13 (carriage return).
unfoldable pub is_space : ℕ → Bool
is_space c = c == 32 || (leb 9 c && leb c 13)

unfoldable pub is_digit : ℕ → Bool
is_digit c = leb b'0' c && leb c b'9'

unfoldable pub skip_spaces : List ℕ → List ℕ
unfolding is_space
skip_spaces [] = []
skip_spaces (c ∷ text) = if is_space c then skip_spaces text else c ∷ text

-- The value of the digits read so far, whether there was one, and what follows them.
pub record Scan : Type 0 where
  pub value : ℕ
  pub any : Bool
  pub rest : List ℕ

unfoldable pub scan : ℕ → Bool → List ℕ → Scan
unfolding is_digit
scan value any [] = record { value = value; any = any; rest = [] }
scan value any (c ∷ text) = elim (is_digit c) [
  | true ↦ scan (value * 10 + (c - b'0')) true text
  | false ↦ record { value = value; any = any; rest = c ∷ text }
]

-- A sign, and what follows it.
unfoldable pub read_sign : List ℕ → Bool × List ℕ
read_sign [] = (false, [])
read_sign (c ∷ text) =
    if c == b'-' then (true, text) else if c == b'+' then (false, text) else (false, c ∷ text)

-- The value that strtoul returns, whether `end` differs from `text`, what stands at `end`, and
-- whether errno is ERANGE. A minus sign negates the value modulo 2 ^ 64.
pub record Conversion : Type 0 where
  pub value : ℕ
  pub converted : Bool
  pub rest : List ℕ
  pub range_error : Bool

unfoldable pub strtoul : List ℕ → Conversion
unfolding skip_spaces scan read_sign
strtoul text =
    let (negative, digits) = read_sign (skip_spaces text) in
    let s = scan 0 false digits in
    let overflow = leb (2 ^ 64) s.value in
    record {
      value = if overflow then 2 ^ 64 - 1 else if negative then u64 (2 ^ 64 - s.value) else s.value;
      converted = s.any;
      rest = s.rest;
      range_error = overflow;
    }

unfoldable pub is_empty : List ℕ → Bool
is_empty [] = true
is_empty (c ∷ text) = false

-- `none` is the -1 of the code; the result is stored as an `unsigned int`.
unfoldable pub parse_uint : List ℕ → ℕ → ℕ → Option ℕ
unfolding is_empty
parse_uint text min max =
    if is_empty text
    then none
    else let c = strtoul text in
      if c.range_error
        || not c.converted
        || not (is_empty c.rest)
        || ltb c.value min
        || ltb max c.value
      then none
      else some (c.value % 2 ^ 32)
