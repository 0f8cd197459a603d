-- ===== src/Formats/Event.antt =====
-- src/user/event_format.c: the JSON line of an event.
use e_ba_f_project.Base.{
  ℕ, zero, suc, ◌+◌, ◌/◌, ◌%◌, List, [], ◌∷◌, ltb, ◌==◌, if◌then◌else◌, low_bits, byte_at,
}
use e_ba_f_project.Base.Text.{codes}
use e_ba_f_project.Wire.{
  CryptoEvent, action_encrypt, action_decrypt, algo_cbc_aes, algo_chacha20, event_sample_bytes,
}
use e_ba_f_project.Formats.Decimal.{decimal}
use e_ba_f_project.Formats.Stats.{Written, print_into, print_pieces}

unfoldable pub action_name : ℕ → List ℕ
action_name action =
    if action == action_encrypt
    then codes "encrypt"
    else if action == action_decrypt
    then codes "decrypt"
    else codes "pass"

unfoldable pub algo_name : ℕ → List ℕ
algo_name algo =
    if algo == algo_cbc_aes
    then codes "cbc-aes"
    else if algo == algo_chacha20
    then codes "chacha20"
    else codes "unknown"

-- The table `hex`.
unfoldable pub hex_digit : ℕ → ℕ
hex_digit v = byte_at (codes "0123456789abcdef") v

-- The loop of format_sample_hex at index `i` with `left` rounds to go.
unfoldable pub hex_from : List ℕ → ℕ → ℕ → List ℕ
unfolding hex_digit
hex_from sample zero i = []
hex_from sample (suc left) i =
    hex_digit (byte_at sample i / 16)
    ∷ hex_digit (low_bits (byte_at sample i) 4)
    ∷ hex_from sample left (i + 1)

-- The number of bytes that are taken from the sample.
unfoldable pub sample_bytes : CryptoEvent → ℕ
sample_bytes event =
    if ltb event_sample_bytes event.sample_len then event_sample_bytes else event.sample_len

unfoldable pub format_sample_hex : CryptoEvent → List ℕ
unfolding hex_from sample_bytes
format_sample_hex event = hex_from event.sample (sample_bytes event) 0

-- `inet_ntop(AF_INET, ...)` of the C library, on the number that the address stands for in network
-- order.
abbrev pub address_pieces : ℕ → List (List ℕ)
address_pieces addr =
    decimal (addr / 16777216 % 256)
    ∷ (b'.' ∷ [])
    ∷ decimal (addr / 65536 % 256)
    ∷ (b'.' ∷ [])
    ∷ decimal (addr / 256 % 256)
    ∷ (b'.' ∷ [])
    ∷ decimal (addr % 256)
    ∷ []

unfoldable pub inet_ntop : ℕ → List ℕ
unfolding print_pieces
inet_ntop addr = print_pieces (address_pieces addr)

-- What the format writes, piece by piece.
abbrev pub event_pieces : CryptoEvent → List (List ℕ)
event_pieces event =
    codes "{\"type\":\"packet\",\"ts_ns\":"
    ∷ decimal event.timestamp_ns
    ∷ codes ",\"action\":\""
    ∷ action_name event.action
    ∷ codes "\",\"algo\":\""
    ∷ algo_name event.algo
    ∷ codes "\",\"src\":\""
    ∷ inet_ntop event.src_ip
    ∷ codes "\",\"src_port\":"
    ∷ decimal event.src_port
    ∷ codes ",\"dst\":\""
    ∷ inet_ntop event.dst_ip
    ∷ codes "\",\"dst_port\":"
    ∷ decimal event.dst_port
    ∷ codes ",\"payload_len\":"
    ∷ decimal event.payload_len
    ∷ codes ",\"data_len\":"
    ∷ decimal event.data_len
    ∷ codes ",\"sample\":\""
    ∷ format_sample_hex event
    ∷ codes "\"}"
    ∷ []

unfoldable pub event_json : CryptoEvent → List ℕ
unfolding print_pieces
event_json event = print_pieces (event_pieces event)

unfoldable pub format_event_json : CryptoEvent → ℕ → Written
unfolding event_json print_into
format_event_json event out_len = print_into (event_json event) out_len
