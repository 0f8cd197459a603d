-- ===== src/Formats/Handler.antt =====
-- handle_crypto_event of src/user/bpf_loader.c: what the ring buffer's callback prints.
use e_ba_f_project.Base.{
  ℕ, ◌≡◌, ◌≤◌, Bool, true, false, Option, none, some, List, [], ◌∷◌, ◌++◌, ltb, arith,
  if◌then◌else◌, length, take_all, ◌-◌, ◌<◌,
}
use e_ba_f_project.Base.Text.{codes}
use e_ba_f_project.Wire.{CryptoEvent}
use e_ba_f_project.Formats.Decimal.{decimal}
use e_ba_f_project.Formats.Stats.{Written, print_into, print_pieces}
use e_ba_f_project.Formats.Event.{
  action_name, algo_name, inet_ntop, hex_from, sample_bytes, event_json, format_event_json,
}
use e_ba_f_project.Formats.Sizes.{IsSized, length-event_json}

-- sizeof(struct ebaf_crypto_event): 60 bytes of fields, padded to a multiple of eight.
abbrev pub event_bytes : ℕ
event_bytes = 64

-- The size of the array `line`.
abbrev pub line_bytes : ℕ
line_bytes = 512

-- `puts` of the line, if the formatter returned a positive number.
unfoldable pub puts_line : Written → List ℕ
puts_line w = elim w.result [
  | none ↦ []
  | some written ↦
      if ltb 0 written then elim w.out [ none ↦ [] | some line ↦ line ++ 10 ∷ [] ] else []
]

-- The two printf calls, the one of the loop and putchar; "%02x" writes the two digits of a byte.
abbrev pub text_pieces : CryptoEvent → List (List ℕ)
text_pieces event =
    codes "event ts="
    ∷ decimal event.timestamp_ns
    ∷ codes " action="
    ∷ action_name event.action
    ∷ codes " algo="
    ∷ algo_name event.algo
    ∷ codes " "
    ∷ inet_ntop event.src_ip
    ∷ codes ":"
    ∷ decimal event.src_port
    ∷ codes " -> "
    ∷ inet_ntop event.dst_ip
    ∷ codes ":"
    ∷ decimal event.dst_port
    ∷ codes " payload="
    ∷ decimal event.payload_len
    ∷ codes " data="
    ∷ decimal event.data_len
    ∷ codes " sample="
    ∷ hex_from event.sample (sample_bytes event) 0
    ∷ (10 ∷ [])
    ∷ []

-- What the callback writes to the standard output: `printer` is the field `jsonl` of the context,
-- `none` where that is NULL, and `data_sz` the size of the record.
unfoldable pub handle_crypto_event : Option Bool → CryptoEvent → ℕ → List ℕ
unfolding print_pieces format_event_json puts_line
handle_crypto_event printer event data_sz = if ltb data_sz event_bytes then [] else elim printer [
  | none ↦ print_pieces (text_pieces event)
  | some false ↦ print_pieces (text_pieces event)
  | some true ↦ puts_line (format_event_json event line_bytes)
]

-- A text that is shorter than the buffer is printed whole.
pub print_into_fits :
    (text : List ℕ) (out_len : ℕ)
    → length text < out_len
    → print_into text out_len ≡ record { result = some (length text); out = some text }
unfolding print_into
print_into_fits text out_len fits = ground (arith, take_all (out_len - 1) text (omega arith))

event_json_starts : (event : CryptoEvent) → 0 < length (event_json event)
unfolding event_json print_pieces
event_json_starts event = omega arith

-- With --jsonl, the line of every complete event comes out: it is never cut, so never dropped.
pub handle_crypto_event-jsonl :
    (event : CryptoEvent) (data_sz : ℕ)
    → IsSized event
    → event_bytes ≤ data_sz
    → handle_crypto_event (some true) event data_sz ≡ event_json event ++ 10 ∷ []
unfolding handle_crypto_event format_event_json puts_line
handle_crypto_event-jsonl event data_sz sized complete =
    let whole = print_into_fits (event_json event) line_bytes (length-event_json event sized) in
    let starts = event_json_starts event in ground (arith, whole)
