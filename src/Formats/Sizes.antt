-- ===== src/Formats/Sizes.antt =====
-- How long the printed lines are: whether snprintf has to cut them in the buffers of the code.
use e_ba_f_project.Base.{
  ℕ, zero, suc, ◌+◌, ◌*◌, ◌/◌, ◌%◌, ◌^◌, ◌≤◌, ◌<◌, ◌≡◌, refl, List, [], ◌∷◌, arith, length,
  length-append,
}
use e_ba_f_project.Wire.{CryptoEvent, event_sample_bytes}
use e_ba_f_project.Formats.Decimal.{decimal_fuel, decimal}
use e_ba_f_project.Formats.Stats.{print_pieces}
use e_ba_f_project.Formats.Event.{
  action_name, algo_name, sample_bytes, address_pieces, hex_from, format_sample_hex, inet_ntop,
  event_pieces, event_json,
}

length-decimal_fuel : (fuel k n : ℕ) → n < 10 ^ suc k → length (decimal_fuel fuel n) ≤ suc k
unfolding decimal_fuel
length-decimal_fuel zero k n h = omega arith
length-decimal_fuel (suc fuel) zero n h = ground arith
length-decimal_fuel (suc fuel) (suc k) n h =
    let rest = length-decimal_fuel fuel k (n / 10) (omega arith) in
    let whole = length-append (decimal_fuel fuel (n / 10)) ((b'0' + n % 10) ∷ []) in
    ground (arith, rest, whole)

-- A number below 10 ^ k has at most k digits.
pub length-decimal : (k n : ℕ) → n < 10 ^ suc k → length (decimal n) ≤ suc k
unfolding decimal
length-decimal k n h = length-decimal_fuel (suc n) k n h

length-action_name : (action : ℕ) → length (action_name action) ≤ 7
unfolding action_name
length-action_name action = ground arith

length-algo_name : (algo : ℕ) → length (algo_name algo) ≤ 8
unfolding algo_name
length-algo_name algo = ground arith

length-hex_from : (sample : List ℕ) (left i : ℕ) → length (hex_from sample left i) ≡ left * 2
unfolding hex_from
length-hex_from sample zero i = refl
length-hex_from sample (suc left) i = omega (arith, length-hex_from sample left (i + 1))

sample_bytes_max : (event : CryptoEvent) → sample_bytes event ≤ event_sample_bytes
unfolding sample_bytes
sample_bytes_max event = ground arith

length-format_sample_hex :
    (event : CryptoEvent) → length (format_sample_hex event) ≤ event_sample_bytes * 2
unfolding format_sample_hex
length-format_sample_hex event =
    omega (arith, sample_bytes_max event, length-hex_from event.sample (sample_bytes event) 0)

-- Pieces no longer than these numbers.
abbrev Within : List (List ℕ) → List ℕ → Type 0
Within [] sizes = Unit
Within (text ∷ pieces) [] = ⊥
Within (text ∷ pieces) (m ∷ sizes) = (length text ≤ m) × Within pieces sizes

abbrev sum : List ℕ → ℕ
sum [] = 0
sum (m ∷ sizes) = m + sum sizes

print_pieces-Within :
    (pieces : List (List ℕ)) (sizes : List ℕ)
    → Within pieces sizes
    → length (print_pieces pieces) ≤ sum sizes
unfolding print_pieces
print_pieces-Within [] sizes h = omega arith
print_pieces-Within (text ∷ pieces) [] h = elim h [ ]
print_pieces-Within (text ∷ pieces) (m ∷ sizes) (first, others) = omega (
  arith,
  first,
  print_pieces-Within pieces sizes others,
  length-append text (print_pieces pieces),
)

length-octet : (n : ℕ) → length (decimal (n % 256)) ≤ 3
length-octet n = length-decimal 2 (n % 256) (omega arith)

length-inet_ntop : (addr : ℕ) → length (inet_ntop addr) ≤ 15
unfolding inet_ntop
length-inet_ntop addr =
    let octets : List ℕ = 3 ∷ 1 ∷ 3 ∷ 1 ∷ 3 ∷ 1 ∷ 3 ∷ [] in
    print_pieces-Within (address_pieces addr) octets (
      ground (
        arith,
        length-octet (addr / 16777216),
        length-octet (addr / 65536),
        length-octet (addr / 256),
        length-octet addr,
      ))

-- The fields of an event that the line prints have the widths of their types.
pub record IsSized (event : CryptoEvent) : Type 0 where
  pub timestamp : event.timestamp_ns < 2 ^ 64
  pub src_port : event.src_port < 2 ^ 16
  pub dst_port : event.dst_port < 2 ^ 16
  pub payload_len : event.payload_len < 2 ^ 16
  pub data_len : event.data_len < 2 ^ 16

length-word : (n : ℕ) → n < 2 ^ 16 → length (decimal n) ≤ 5
length-word n h = length-decimal 4 n (omega arith)

abbrev most : List ℕ
most =
    25 ∷ 20 ∷ 11 ∷ 7 ∷ 10 ∷ 8 ∷ 9 ∷ 15 ∷ 13 ∷ 5 ∷ 8 ∷ 15 ∷ 13 ∷ 5 ∷ 15 ∷ 5 ∷ 12 ∷ 5 ∷ 11 ∷ 64 ∷ 2
    ∷ []

event_pieces-Within : (event : CryptoEvent) → IsSized event → Within (event_pieces event) most
event_pieces-Within event sized = ground (
  arith,
  length-decimal 19 event.timestamp_ns (omega (arith, sized.timestamp)),
  length-action_name event.action,
  length-algo_name event.algo,
  length-inet_ntop event.src_ip,
  length-word event.src_port sized.src_port,
  length-inet_ntop event.dst_ip,
  length-word event.dst_port sized.dst_port,
  length-word event.payload_len sized.payload_len,
  length-word event.data_len sized.data_len,
  length-format_sample_hex event,
)

pub length-event_json : (event : CryptoEvent) → IsSized event → length (event_json event) < 512
unfolding event_json
length-event_json event sized =
    omega (arith, print_pieces-Within (event_pieces event) most (event_pieces-Within event sized))
