-- ===== src/Config/Decoding.antt =====
-- What `ebaf_parse_hex_key` of src/user/config.c decodes: a plain recursion on pairs of digits.
use e_ba_f_project.Base.{
  ℕ, zero, suc, ◌+◌, ◌*◌, ◌<◌, ◌≡◌, ◌≢◌, refl, Bool, true, false, Option, none, some, List, [], ◌⊎◌,
  inl, inr, ◌∷◌, arith, ◌!=◌, ◌==◌, ◌&&◌, ◌≤◌, ltb, if◌then◌else◌, u8, length, byte_at,
  Option-cases, Bool-cases,
}
use e_ba_f_project.Base.Bytes.{overwrite, overwrite-nil, overwrite-cons}
use e_ba_f_project.Base.Tables.{row, row-member, bit_or_nibbles}
use e_ba_f_project.Base.Text.{codes}
use e_ba_f_project.Config.HexKey.{hex_value, hex_loop, parse_hex_key}

-- The place of a character in a text.
unfoldable place : ℕ → List ℕ → Option ℕ
place c [] = none
place c (x ∷ text) =
    if c == x then some 0 else elim (place c text) [ none ↦ none | some i ↦ some (i + 1) ]

-- A hexadecimal digit stands for its place among the sixteen, in small or in capital letters.
unfoldable pub digit : ℕ → Option ℕ
unfolding place
digit c = elim (place c (codes "0123456789abcdef")) [
  | none ↦ place c (codes "0123456789ABCDEF")
  | some v ↦ some v
]

unfoldable is_same : Option ℕ → Option ℕ → Bool
is_same none none = true
is_same none (some y) = false
is_same (some x) none = false
is_same (some x) (some y) = x == y

is_same_sound : (x y : Option ℕ) → is_same x y ≡ true → x ≡ y
unfolding is_same
is_same_sound none none h = refl
is_same_sound none (some y) h = cc
is_same_sound (some x) none h = cc
is_same_sound (some x) (some y) h = ground arith

all_digits : row (λ c. is_same (hex_value c) (digit c)) 0 128 ≡ true
unfolding row is_same hex_value digit
all_digits = refl

-- The test passes at every character of a text.
unfoldable row_of : (ℕ → Bool) → List ℕ → Bool
row_of test [] = true
row_of test (x ∷ text) = test x && row_of test text

no_place :
    (c : ℕ) (text : List ℕ) → row_of (λ x. ltb x 128) text ≡ true → 128 ≤ c → place c text ≡ none
unfolding place row_of
no_place c [] small large = refl
no_place c (x ∷ text) small large = ground (arith, no_place c text)

hex_value-digit : (c : ℕ) → hex_value c ≡ digit c
hex_value-digit c = elim (Bool-cases (ltb c 128)) [
  | inl small ↦ is_same_sound _ _ (
      row-member (λ c. is_same (hex_value c) (digit c)) 0 128 c (omega arith) (ground arith)
        all_digits)
  | inr large ↦
      let none_small =
        no_place c (codes "0123456789abcdef") (unfold row_of in refl) (ground arith) in
      let none_capital =
        no_place c (codes "0123456789ABCDEF") (unfold row_of in refl) (ground arith) in
      unfold hex_value digit in ground (arith, none_small, none_capital)
]

-- The bytes that a text of digit pairs stands for; none for an odd length or a bad digit.
unfoldable pub decode : List ℕ → Option (List ℕ)
unfolding digit
decode [] = some []
decode (x ∷ []) = none
decode (x ∷ y ∷ hex) = elim (digit x) [
  | none ↦ none
  | some hi ↦ elim (digit y) [
    | none ↦ none
    | some lo ↦ elim (decode hex) [ none ↦ none | some bytes ↦ some ((hi * 16 + lo) ∷ bytes) ]
  ]
]

pub hex_value-lt : (c v : ℕ) → hex_value c ≡ some v → v < 16
unfolding hex_value
hex_value-lt c v h = ground arith

-- One round of the loop on two digits.
hex_loop-suc :
    (hex : List ℕ) (left i hi lo : ℕ) (out : List ℕ)
    → hex_value (byte_at hex (i * 2)) ≡ some hi
    → hex_value (byte_at hex (i * 2 + 1)) ≡ some lo
    → hex_loop hex (suc left) i out
      ≡ hex_loop hex left (i + 1) (overwrite out i ((hi * 16 + lo) ∷ []))
unfolding hex_loop
hex_loop-suc hex left i hi lo out high low =
    let hh = hex_value-lt (byte_at hex (i * 2)) hi high in
    let hl = hex_value-lt (byte_at hex (i * 2 + 1)) lo low in
    let small : u8 (hi * 16 + lo) ≡ hi * 16 + lo = omega arith in
    ground (arith, bit_or_nibbles hi lo hh hl, small)

-- The loop on a text of which `rest` is what follows its index: it ends well exactly if `rest`
-- decodes, and then it has written what `rest` decodes to.
abbrev Decodes : Option (List ℕ) → List ℕ → ℕ → Bool × List ℕ → Type 0
Decodes none out i r = r.0 ≡ false
Decodes (some bytes) out i r = r ≡ (true, overwrite out i bytes)

-- A bad first or second digit ends both the loop and the decoding.
bad_pair :
    (hex rest : List ℕ) (left i x y : ℕ) (out : List ℕ)
    → byte_at hex (i * 2) ≡ x
    → byte_at hex (i * 2 + 1) ≡ y
    → (hex_value x ≡ none) ⊎ (hex_value y ≡ none)
    → (decode (x ∷ y ∷ rest) ≡ none) × ((hex_loop hex (suc left) i out).0 ≡ false)
unfolding hex_loop decode
bad_pair hex rest left i x y out first second bad =
    ground (arith, hex_value-digit x, hex_value-digit y)

-- Two digits stand for one byte.
pub decode-pair :
    (x y hi lo : ℕ) (rest : List ℕ)
    → hex_value x ≡ some hi
    → hex_value y ≡ some lo
    → decode (x ∷ y ∷ rest)
      ≡ (elim (decode rest) [ none ↦ none | some bytes ↦ some ((hi * 16 + lo) ∷ bytes) ])
unfolding decode
decode-pair x y hi lo rest high low = ground (arith, hex_value-digit x, hex_value-digit y)

Decodes-pair :
    (v i : ℕ) (out : List ℕ) (d : Option (List ℕ)) (r : Bool × List ℕ)
    → Decodes d (overwrite out i (v ∷ [])) (i + 1) r
    → Decodes (elim d [ none ↦ none | some bytes ↦ some (v ∷ bytes) ]) out i r
Decodes-pair v i out none r h = h
Decodes-pair v i out (some bytes) r h =
    let next_index : i + 1 ≡ suc i = omega arith in
    ground (arith, h, next_index, overwrite-cons out i v bytes)

hex_loop-Decodes :
    (hex rest : List ℕ) (left i : ℕ) (out : List ℕ)
    → length rest ≡ left * 2
    → ((j : ℕ) → byte_at hex (i * 2 + j) ≡ byte_at rest j)
    → Decodes (decode rest) out i (hex_loop hex left i out)
hex_loop-Decodes hex [] zero i out size same = unfold hex_loop decode in rw overwrite-nil refl
hex_loop-Decodes hex (x ∷ []) zero i out size same = absurd (omega arith)
hex_loop-Decodes hex (x ∷ y ∷ rest) zero i out size same = absurd (omega arith)
hex_loop-Decodes hex [] (suc left) i out size same = absurd (omega arith)
hex_loop-Decodes hex (x ∷ []) (suc left) i out size same = absurd (omega arith)
hex_loop-Decodes hex (x ∷ y ∷ rest) (suc left) i out size same =
    let first : byte_at hex (i * 2) ≡ x = ground (arith, same 0) in
    let second : byte_at hex (i * 2 + 1) ≡ y = same 1 in
    elim (Option-cases (hex_value x)) [
      | inl bad ↦
          let (undecoded, stopped) = bad_pair hex rest left i x y out first second (inl bad) in
          rw undecoded stopped
      | inr (hi, high) ↦ elim (Option-cases (hex_value y)) [
        | inl bad ↦
            let (undecoded, stopped) = bad_pair hex rest left i x y out first second (inr bad) in
            rw undecoded stopped
        | inr (lo, low) ↦
            rw
              (
                decode-pair x y hi lo rest high low,
                hex_loop-suc hex left i hi lo out (rw first high) (rw second low),
              )
              (Decodes-pair (hi * 16 + lo) i out (decode rest) _ (
                hex_loop-Decodes hex rest left (i + 1) (overwrite out i ((hi * 16 + lo) ∷ []))
                  (omega arith) (λ j. ground (arith, same (suc (suc j))))))
      ]
    ]

-- A key text decodes if it is made of `out_len` pairs of hexadecimal digits: then the program
-- accepts it and writes the bytes that the pairs stand for over the beginning of the buffer.
-- Any other text it refuses.
pub parse_hex_key_lem :
    (hex out : List ℕ) (out_len : ℕ)
    → ((length hex ≡ out_len * 2)
        × ((bytes : List ℕ) × (decode hex ≡ some bytes)
            × (parse_hex_key hex out out_len ≡ (true, overwrite out 0 bytes))))
      ⊎ (((length hex ≢ out_len * 2) ⊎ (decode hex ≡ none))
          × ((parse_hex_key hex out out_len).0 ≡ false))
unfolding parse_hex_key
parse_hex_key_lem hex out out_len = elim (Bool-cases (length hex != out_len * 2)) [
  | inl other ↦ inr (inl (ground arith), ground arith)
  | inr size ↦
      let loop = hex_loop-Decodes hex hex out_len 0 out (ground arith) (λ j. ground arith) in
      elim (Option-cases (decode hex)) [
        | inl undecoded ↦ let stopped = rw undecoded at loop in inr (inr undecoded, rw size stopped)
        | inr (bytes, decoded) ↦
            let done = rw decoded at loop in inl (ground arith, (bytes, decoded, rw size done))
      ]
]
