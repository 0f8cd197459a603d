-- ===== src/Formats/Fields.antt =====
-- The output of a printf call whose conversions are all "%u" or "%llu": each number stands behind
-- the text of the format in front of it. A reader takes such a line apart again.
use e_ba_f_project.Base.{
  ℕ, suc, ◌≡◌, refl, ap, ◌∙◌, true, false, Option, some, none, List, [], ◌∷◌, ◌++◌, map, arith,
  ◌==◌, if◌then◌else◌,
}
use e_ba_f_project.Base.Text.{str_eq, str_eq_refl}
use e_ba_f_project.Formats.Decimal.{decimal}
use e_ba_f_project.Config.Strtoul.{is_digit, Scan, scan}
use e_ba_f_project.Config.Uint.{scan-decimal_fuel}

pub record Field : Type 0 where
  pub label : List ℕ
  pub value : ℕ

unfoldable pub render : List Field → List ℕ → List ℕ
render [] tail = tail
render (f ∷ fields) tail = f.label ++ (decimal f.value ++ render fields tail)

drop_prefix : List ℕ → List ℕ → Option (List ℕ)
drop_prefix [] text = some text
drop_prefix (c ∷ label) [] = none
drop_prefix (c ∷ label) (d ∷ text) = if c == d then drop_prefix label text else none

-- A number in front of the numbers of the rest of the line.
with_value : Scan → Option (List ℕ) → Option (List ℕ)
with_value s none = none
with_value s (some values) = if s.any then some (s.value ∷ values) else none

-- The numbers behind the labels, if the line consists of these, of numbers, and of the tail.
unfoldable pub read_fields : List (List ℕ) → List ℕ → List ℕ → Option (List ℕ)
unfolding drop_prefix with_value
read_fields [] tail text = if str_eq text tail then some [] else none
read_fields (label ∷ labels) tail text = elim (drop_prefix label text) [
  | none ↦ none
  | some rest ↦ with_value (scan 0 false rest) (read_fields labels tail (scan 0 false rest).rest)
]

-- No digit stands in front of the text.
abbrev pub Stops : List ℕ → Type 0
Stops [] = Unit
Stops (c ∷ text) = is_digit c ≡ false

-- What follows a number does not go on with a digit.
abbrev pub Separated : List Field → List ℕ → Type 0
Separated [] tail = Unit
Separated (f ∷ fields) tail = Stops (render fields tail) × Separated fields tail

drop_prefix-append : (label text : List ℕ) → drop_prefix label (label ++ text) ≡ some text
unfolding drop_prefix
drop_prefix-append [] text = refl
drop_prefix-append (c ∷ label) text = ground (arith, drop_prefix-append label text)

scan-Stops :
    (n : ℕ) (text : List ℕ)
    → Stops text
    → scan n true text ≡ record { value = n; any = true; rest = text }
unfolding scan
scan-Stops n [] stops = refl
scan-Stops n (c ∷ text) stops = rw (scan, stops) refl

pub scan-decimal :
    (n : ℕ) (text : List ℕ)
    → Stops text
    → scan 0 false (decimal n ++ text) ≡ record { value = n; any = true; rest = text }
unfolding decimal
scan-decimal n text stops =
    scan-decimal_fuel (suc n) n false text (omega arith) ∙ scan-Stops n text stops

read_fields_label :
    (label : List ℕ) (labels : List (List ℕ)) (tail text : List ℕ) {rest : List ℕ} {s : Scan}
    → drop_prefix label text ≡ some rest
    → scan 0 false rest ≡ s
    → read_fields (label ∷ labels) tail text ≡ with_value s (read_fields labels tail s.rest)
unfolding read_fields
read_fields_label label labels tail text dropped read = rw (read_fields, dropped, read) refl

-- A line that was printed is read back.
pub read_fields-render :
    (fields : List Field) (tail : List ℕ)
    → Separated fields tail
    → read_fields (map (λ f. f.label) fields) tail (render fields tail)
      ≡ some (map (λ f. f.value) fields)
unfolding render with_value
read_fields-render [] tail separated = unfold read_fields in rw str_eq_refl refl
read_fields-render (f ∷ fields) tail (stops, separated) =
    read_fields_label f.label (map (λ f. f.label) fields) tail
      (f.label ++ (decimal f.value ++ render fields tail))
      (drop_prefix-append f.label (decimal f.value ++ render fields tail))
      (scan-decimal f.value (render fields tail) stops)
    ∙ ap (with_value record { value = f.value; any = true; rest = render fields tail })
        (read_fields-render fields tail separated)
