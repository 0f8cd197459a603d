-- ===== src/Config/Uint.antt =====
-- Which numbers `parse_uint` of src/user/config.c reads.
use e_ba_f_project.Base.{
  ℕ, zero, suc, ◌+◌, ◌-◌, ◌*◌, ◌/◌, ◌%◌, ◌^◌, ◌≤◌, ◌<◌, ◌≡◌, ◌∙◌, refl, Bool, true, false, some,
  List, [], ◌∷◌, ◌++◌, ltb, arith, Bool-cases, inl, inr,
}
use mathlib.Core.List.{append_assoc, append-nil}
use e_ba_f_project.Config.Strtoul.{skip_spaces, scan, read_sign, strtoul, parse_uint}
use e_ba_f_project.Formats.Decimal.{decimal_fuel, decimal}

-- A digit continues the scan.
scan-digit :
    (value d : ℕ) (any : Bool) (text : List ℕ)
    → d < 10
    → scan value any ((b'0' + d) ∷ text) ≡ scan (value * 10 + d) true text
unfolding scan
scan-digit value d any text h = ground arith

pub scan-decimal_fuel :
    (fuel n : ℕ) (any : Bool) (text : List ℕ)
    → n < fuel
    → scan 0 any (decimal_fuel fuel n ++ text) ≡ scan n true text
unfolding decimal_fuel
scan-decimal_fuel zero n any text h = elim h [ ]
scan-decimal_fuel (suc fuel) n any text h = elim (Bool-cases (ltb n 10)) [
  | inl single ↦ ground (arith, single, scan-digit 0 n any text (ground arith))
  | inr more ↦
      let moved : (decimal_fuel fuel (n / 10) ++ (b'0' + n % 10) ∷ []) ++ text
          ≡ decimal_fuel fuel (n / 10) ++ (b'0' + n % 10) ∷ text =
        append_assoc (decimal_fuel fuel (n / 10)) ((b'0' + n % 10) ∷ []) text in
      let whole : n / 10 * 10 + n % 10 ≡ n = omega arith in
      ground (
        arith,
        more,
        moved,
        whole,
        scan-decimal_fuel fuel (n / 10) any ((b'0' + n % 10) ∷ text) (ground arith),
        scan-digit (n / 10) (n % 10) true text (omega arith),
      )
]

-- The first character of a printed number is a digit.
pub decimal_fuel_head :
    (fuel n : ℕ)
    → n < fuel
    → (d : ℕ) × (text : List ℕ) × (d < 10) × (decimal_fuel fuel n ≡ (b'0' + d) ∷ text)
unfolding decimal_fuel
decimal_fuel_head zero n h = elim h [ ]
decimal_fuel_head (suc fuel) n h = elim (Bool-cases (ltb n 10)) [
  | inl single ↦ (n, [], ground arith, ground arith)
  | inr more ↦
      let (d, text, small, e) = decimal_fuel_head fuel (n / 10) (ground arith) in
      (d, text ++ (b'0' + n % 10) ∷ [], small, ground (arith, e))
]

-- A printed number is read in full: the conversion ends at the end of the text.
strtoul-decimal :
    (n : ℕ)
    → n < 2 ^ 64
    → strtoul (decimal n) ≡ record { value = n; converted = true; rest = []; range_error = false }
unfolding strtoul decimal
strtoul-decimal n h =
    let (d, text, small, e) = decimal_fuel_head (suc n) n (omega arith) in
    let start : read_sign (skip_spaces (decimal_fuel (suc n) n)) ≡ (false, decimal_fuel (suc n) n) =
      rw e (ground arith) in
    let digits = scan-decimal_fuel (suc n) n false [] (omega arith) in
    let whole : decimal_fuel (suc n) n ++ [] ≡ decimal_fuel (suc n) n = append-nil _ in
    let read : scan 0 false (decimal_fuel (suc n) n) ≡ record { value = n; any = true; rest = [] } =
      rw (← whole) (digits ∙ unfold scan in refl) in
    rw (start, read) (ground arith)

-- A number that printf wrote is read back, if it lies in the range that is asked for.
pub parse_uint-decimal :
    (n min max : ℕ) → min ≤ n → n ≤ max → max < 2 ^ 32 → parse_uint (decimal n) min max ≡ some n
unfolding parse_uint
parse_uint-decimal n min max above below word =
    let (d, text, _, e) = decimal_fuel_head (suc n) n (omega arith) in
    let written : decimal n ≡ (b'0' + d) ∷ text = unfold decimal in e in
    rw (strtoul-decimal n (omega arith), written) (ground arith)

-- An accepted number lies in the range that was asked for.
pub parse_uint_bounds :
    (text : List ℕ) (min max v : ℕ)
    → max < 2 ^ 32
    → parse_uint text min max ≡ some v
    → (min ≤ v) × (v ≤ max)
unfolding parse_uint
parse_uint_bounds text min max v word h = ground arith

strtoul_negative :
    (n : ℕ)
    → 0 < n
    → n < 2 ^ 64
    → strtoul (b'-' ∷ decimal n)
      ≡ record { value = 2 ^ 64 - n; converted = true; rest = []; range_error = false }
unfolding strtoul decimal
strtoul_negative n pos h =
    let digits = scan-decimal_fuel (suc n) n false [] (omega arith) in
    let whole : decimal_fuel (suc n) n ++ [] ≡ decimal_fuel (suc n) n = append-nil _ in
    let read : scan 0 false (decimal_fuel (suc n) n) ≡ record { value = n; any = true; rest = [] } =
      rw (← whole) (digits ∙ unfold scan in refl) in
    rw read (ground arith)

-- Negative numbers are accepted: the text of -(2 ^ 64 - v) is read as the number `v`, for every
-- `v` in the range.
pub parse_uint_negative :
    (v min max : ℕ)
    → 0 < v
    → min ≤ v
    → v ≤ max
    → max < 2 ^ 32
    → parse_uint (b'-' ∷ decimal (2 ^ 64 - v)) min max ≡ some v
unfolding parse_uint
parse_uint_negative v min max pos above below word =
    rw (strtoul_negative (2 ^ 64 - v) (omega arith) (omega arith)) (ground arith)
