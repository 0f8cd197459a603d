-- ===== src/Formats/Lines.antt =====
-- ebaf_format_stats_json of src/user/stats_format.c: what becomes of its line.
use e_ba_f_project.Base.{
  ℕ, ◌≤◌, ◌<◌, ◌≡◌, ◌⊎◌, inl, inr, none, some, List, [], ◌∷◌, arith, ltb, Bool-cases, length,
}
use e_ba_f_project.Base.Text.{codes}
use e_ba_f_project.Wire.{CryptoStats}
use e_ba_f_project.Config.Strtoul.{is_digit}
use e_ba_f_project.Formats.Fields.{read_fields, read_fields-render}
use e_ba_f_project.Formats.Stats.{print_into, stats_fields, stats_json, format_stats_json}
use e_ba_f_project.Formats.Handler.{print_into_fits}

-- The text in front of each counter.
abbrev pub stats_labels : List (List ℕ)
stats_labels =
    codes "{\"type\":\"stats\",\"seen\":"
    ∷ codes ",\"passed\":"
    ∷ codes ",\"crypto_ok\":"
    ∷ codes ",\"crypto_fail\":"
    ∷ codes ",\"malformed\":"
    ∷ []

abbrev pub stats_values : CryptoStats → List ℕ
stats_values stats =
    stats.packets_seen ∷ stats.packets_passed ∷ stats.packets_crypto_ok ∷ stats.packets_crypto_fail
    ∷ stats.packets_malformed ∷ []

-- The formatter returns -1 exactly if its line and the NUL behind it do not fit into the buffer.
-- Otherwise it returns the length of the line, and a reader that knows the labels finds the five
-- counters in what the buffer holds.
pub format_stats_json_lem :
    (stats : CryptoStats) (out_len : ℕ)
    → ((line : List ℕ) × (length line < out_len)
        × (format_stats_json stats out_len
            ≡ record { result = some (length line); out = some line })
        × (read_fields stats_labels (codes "}") line ≡ some (stats_values stats)))
      ⊎ ((out_len ≤ length (stats_json stats)) × ((format_stats_json stats out_len).result ≡ none))
unfolding format_stats_json
format_stats_json_lem stats out_len = elim (Bool-cases (ltb (length (stats_json stats)) out_len)) [
  | inl fits ↦ inl (
    stats_json stats,
    ground (arith, fits),
    print_into_fits (stats_json stats) out_len (ground (arith, fits)),
    unfold stats_json in
        read_fields-render (stats_fields stats) (codes "}") (unfold is_digit in ground arith),
  )
  | inr long ↦ inr (ground arith, unfold print_into in ground arith)
]
