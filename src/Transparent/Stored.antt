-- ===== src/Transparent/Stored.antt =====
-- The three stores of update_lengths of src/bpf/tc_transparent.bpf.c on the bytes of a packet.
use e_ba_f_project.Base.{
  ℕ, ◌+◌, ◌/◌, ◌≤◌, ◌<◌, ◌≡◌, ◌⊎◌, refl, List, [], ◌∷◌, arith, length, byte_at, u16, u8, ◌∙◌,
}
use e_ba_f_project.Base.Bytes.{
  slice, overwrite, length-overwrite, byte_at-overwrite_inside, byte_at-overwrite_outside,
  byte_at-slice,
}
use e_ba_f_project.Wire.{be16}
use e_ba_f_project.Transparent.Lengths.{htons}

be16-overwrite_inside :
    (b : List ℕ) (off n : ℕ) → off + 2 ≤ length b → be16 (overwrite b off (htons n)) off ≡ u16 n
be16-overwrite_inside b off n fits =
    let first : byte_at (overwrite b off (htons n)) off ≡ u8 (n / 256) =
      ground (arith, byte_at-overwrite_inside b off (htons n) 0 (omega arith) (omega arith)) in
    let second : byte_at (overwrite b off (htons n)) (off + 1) ≡ u8 n =
      byte_at-overwrite_inside b off (htons n) 1 (omega arith) (omega arith) in
    rw (first, second) (omega arith)

be16-overwrite_outside :
    (b new : List ℕ) (off at : ℕ)
    → (at + 2 ≤ off) ⊎ (off + length new ≤ at)
    → be16 (overwrite b off new) at ≡ be16 b at
be16-overwrite_outside b new off at away = omega (
  arith,
  byte_at-overwrite_outside b off new at (omega arith),
  byte_at-overwrite_outside b off new (at + 1) (omega arith),
)

pub be16-slice : (b : List ℕ) (off : ℕ) → be16 (slice b off 2) 0 ≡ be16 b off
be16-slice b off =
    let zero_off : off + 0 ≡ off = omega arith in
    rw (byte_at-slice b off 2 0 (omega arith), zero_off, byte_at-slice b off 2 1 (omega arith)) refl

-- The buffer after the three stores on the bytes `b`.
abbrev pub stored : ℕ → ℕ → ℕ → ℕ → List ℕ → List ℕ
stored ip_off udp_off ip_len udp_len b =
    overwrite (overwrite (overwrite b (ip_off + 2) (htons ip_len)) (udp_off + 4) (htons udp_len))
      (udp_off + 6) (0 ∷ 0 ∷ [])

module _ (ip_off udp_off n l : ℕ) (b : List ℕ) (apart : ip_off + 12 ≤ udp_off + 4)
    (fits : udp_off + 8 ≤ length b) where
  pub stored_ip : be16 (stored ip_off udp_off n l b) (ip_off + 2) ≡ u16 n
  stored_ip =
      be16-overwrite_outside _ (0 ∷ 0 ∷ []) (udp_off + 6) (ip_off + 2) (omega arith)
      ∙ be16-overwrite_outside _ (htons l) (udp_off + 4) (ip_off + 2) (omega arith)
      ∙ be16-overwrite_inside b (ip_off + 2) n (omega arith)

  pub stored_udp : be16 (stored ip_off udp_off n l b) (udp_off + 4) ≡ u16 l
  stored_udp =
      be16-overwrite_outside _ (0 ∷ 0 ∷ []) (udp_off + 6) (udp_off + 4) (omega arith)
      ∙ be16-overwrite_inside (overwrite b (ip_off + 2) (htons n)) (udp_off + 4) l
          (omega (arith, length-overwrite b (ip_off + 2) (htons n)))

  pub length-stored : length (stored ip_off udp_off n l b) ≡ length b
  length-stored =
      length-overwrite _ (udp_off + 6) (0 ∷ 0 ∷ [])
      ∙ length-overwrite _ (udp_off + 4) (htons l)
      ∙ length-overwrite b (ip_off + 2) (htons n)

  pub stored_checksum : be16 (stored ip_off udp_off n l b) (udp_off + 6) ≡ 0
  stored_checksum = be16-overwrite_inside _ (udp_off + 6) 0 (
      omega (
        arith,
        length-overwrite (overwrite b (ip_off + 2) (htons n)) (udp_off + 4) (htons l),
        length-overwrite b (ip_off + 2) (htons n),
      ))

  pub stored_elsewhere :
      (j : ℕ)
      → (j < ip_off + 2) ⊎ ((ip_off + 4 ≤ j) × (j < udp_off + 4)) ⊎ (udp_off + 8 ≤ j)
      → byte_at (stored ip_off udp_off n l b) j ≡ byte_at b j
  stored_elsewhere j away =
      byte_at-overwrite_outside _ (udp_off + 6) (0 ∷ 0 ∷ []) j (omega arith)
      ∙ byte_at-overwrite_outside _ (udp_off + 4) (htons l) j (omega arith)
      ∙ byte_at-overwrite_outside b (ip_off + 2) (htons n) j (omega arith)
