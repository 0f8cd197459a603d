-- ===== src/Formats/Samples.antt =====
-- format_sample_hex of src/user/event_format.c against the decoder of src/user/config.c.
use e_ba_f_project.Base.{ℕ, ◌<◌, Bool, false, none, some, List, ◌==◌, byte_at}
use e_ba_f_project.Config.HexKey.{hex_value}
use e_ba_f_project.Formats.Event.{hex_digit}

abbrev reads_digit : ℕ → Bool
reads_digit v = elim (hex_value (hex_digit v)) [ none ↦ false | some w ↦ w == v ]

-- The numbers of a list are bytes.
abbrev pub AreBytes : List ℕ → Type 0
AreBytes bytes = (i : ℕ) → byte_at bytes i < 256
