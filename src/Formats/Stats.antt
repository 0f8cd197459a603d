-- ===== src/Formats/Stats.antt =====
-- ebaf_format_stats_json of src/user/stats_format.c.
use e_ba_f_project.Base.{
  ℕ, Option, some, none, List, [], ◌∷◌, ◌++◌, ◌==◌, leb, ◌-◌, if◌then◌else◌, length, take,
}
use e_ba_f_project.Base.Text.{codes}
use e_ba_f_project.Wire.{CryptoStats}
use e_ba_f_project.Formats.Fields.{Field, render}

-- What a formatting function returns, `none` being -1, and what it leaves in the buffer, `none`
-- where it does not write to it.
pub record Written : Type 0 where
  pub result : Option ℕ
  pub out : Option (List ℕ)

-- The output of a printf call, from its pieces.
unfoldable pub print_pieces : List (List ℕ) → List ℕ
print_pieces [] = []
print_pieces (text ∷ pieces) = text ++ print_pieces pieces

-- `snprintf(out, out_len, ...)` of a text, and the checks round it: the buffer gets as much of the
-- text as fits before the terminating NUL, and a text that was cut is an error.
unfoldable pub print_into : List ℕ → ℕ → Written
print_into text out_len =
    if out_len == 0
    then record { result = none; out = none }
    else let out = some (take (out_len - 1) text) in
      if leb out_len (length text)
      then record { result = none; out = out }
      else record { result = some (length text); out = out }

abbrev pub stats_fields : CryptoStats → List Field
stats_fields stats =
    record { label = codes "{\"type\":\"stats\",\"seen\":"; value = stats.packets_seen }
    ∷ record { label = codes ",\"passed\":"; value = stats.packets_passed }
    ∷ record { label = codes ",\"crypto_ok\":"; value = stats.packets_crypto_ok }
    ∷ record { label = codes ",\"crypto_fail\":"; value = stats.packets_crypto_fail }
    ∷ record { label = codes ",\"malformed\":"; value = stats.packets_malformed }
    ∷ []

unfoldable pub stats_json : CryptoStats → List ℕ
unfolding render
stats_json stats = render (stats_fields stats) (codes "}")

unfoldable pub format_stats_json : CryptoStats → ℕ → Written
unfolding stats_json print_into
format_stats_json stats out_len = print_into (stats_json stats) out_len
