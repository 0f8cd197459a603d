-- ===== src/Base/Bytes.antt =====
-- Byte buffers: reading a byte, a slice, and overwriting a range in place.
use e_ba_f_project.Base.{
  ℕ, zero, suc, ◌+◌, ◌≤◌, ◌<◌, ◌≡◌, refl, ap, ◌⊎◌, List, [], ◌∷◌, arith, length, byte_at, take,
  drop, get_or-take, get_or-drop, length-take, length-drop, get_or_ext, ltb, leb, ◌&&◌, ◌-◌,
  if◌then◌else◌,
}

-- The `n` bytes from offset `off` on, fewer at the end of the buffer.
unfoldable pub slice : List ℕ → ℕ → ℕ → List ℕ
slice b off n = take n (drop off b)

-- `memcpy(b + off, new, length new)`; what would fall behind the buffer is dropped.
unfoldable pub overwrite : List ℕ → ℕ → List ℕ → List ℕ
overwrite [] off new = []
overwrite (x ∷ b) zero [] = x ∷ b
overwrite (x ∷ b) zero (y ∷ new) = y ∷ overwrite b zero new
overwrite (x ∷ b) (suc off) new = x ∷ overwrite b off new

pub length-overwrite :
    (b : List ℕ) (off : ℕ) (new : List ℕ) → length (overwrite b off new) ≡ length b
unfolding overwrite
length-overwrite [] off new = refl
length-overwrite (x ∷ b) zero [] = refl
length-overwrite (x ∷ b) zero (y ∷ new) = ap suc (length-overwrite b zero new)
length-overwrite (x ∷ b) (suc off) new = ap suc (length-overwrite b off new)

pub byte_at-overwrite_outside :
    (b : List ℕ) (off : ℕ) (new : List ℕ) (j : ℕ)
    → (j < off) ⊎ (off + length new ≤ j)
    → byte_at (overwrite b off new) j ≡ byte_at b j
unfolding overwrite
byte_at-overwrite_outside [] off new j h = refl
byte_at-overwrite_outside (x ∷ b) zero [] j h = refl
byte_at-overwrite_outside (x ∷ b) zero (y ∷ new) zero h = absurd (omega arith)
byte_at-overwrite_outside (x ∷ b) zero (y ∷ new) (suc j) h =
    byte_at-overwrite_outside b zero new j (omega arith)
byte_at-overwrite_outside (x ∷ b) (suc off) new zero h = refl
byte_at-overwrite_outside (x ∷ b) (suc off) new (suc j) h =
    byte_at-overwrite_outside b off new j (omega arith)

pub byte_at-overwrite_inside :
    (b : List ℕ) (off : ℕ) (new : List ℕ) (j : ℕ)
    → off + j < length b
    → j < length new
    → byte_at (overwrite b off new) (off + j) ≡ byte_at new j
unfolding overwrite
byte_at-overwrite_inside [] off new j h k = elim h [ ]
byte_at-overwrite_inside (x ∷ b) zero [] j h k = elim k [ ]
byte_at-overwrite_inside (x ∷ b) zero (y ∷ new) zero h k = refl
byte_at-overwrite_inside (x ∷ b) zero (y ∷ new) (suc j) h k =
    ground (arith, byte_at-overwrite_inside b zero new j)
byte_at-overwrite_inside (x ∷ b) (suc off) new j h k =
    ground (arith, byte_at-overwrite_inside b off new j)

pub length-slice : (b : List ℕ) (off n : ℕ) → off + n ≤ length b → length (slice b off n) ≡ n
unfolding slice
length-slice b off n h = omega (arith, length-take n (drop off b), length-drop off b)

pub byte_at-slice :
    (b : List ℕ) (off n j : ℕ) → j < n → byte_at (slice b off n) j ≡ byte_at b (off + j)
unfolding slice
byte_at-slice b off n j h = ground (arith, get_or-take n j (drop off b) 0, get_or-drop off j b 0)

-- Slices agree where the bytes do.
pub slice-eq :
    (a b : List ℕ) (off n : ℕ)
    → off + n ≤ length a
    → off + n ≤ length b
    → ((j : ℕ) → off ≤ j → j < off + n → byte_at a j ≡ byte_at b j)
    → slice a off n ≡ slice b off n
slice-eq a b off n ha hb h =
    get_or_ext 0 (slice a off n) (slice b off n)
      (omega (arith, length-slice a off n ha, length-slice b off n hb))
      λ i p. ground (
        arith,
        length-slice a off n ha,
        byte_at-slice a off n i,
        byte_at-slice b off n i,
        h (off + i),
      )

pub slice-overwrite_self :
    (b : List ℕ) (off n : ℕ) (new : List ℕ)
    → length new ≡ n
    → off + n ≤ length b
    → slice (overwrite b off new) off n ≡ new
slice-overwrite_self b off n new size h =
    get_or_ext 0 (slice (overwrite b off new) off n) new
      (omega (arith, length-slice (overwrite b off new) off n, length-overwrite b off new))
      λ i p. ground (
        arith,
        length-overwrite b off new,
        length-slice (overwrite b off new) off n,
        byte_at-slice (overwrite b off new) off n i,
        byte_at-overwrite_inside b off new i,
      )

-- A byte after an overwrite, with no side condition.
pub byte_at-overwrite :
    (b : List ℕ) (off : ℕ) (new : List ℕ) (j : ℕ)
    → byte_at (overwrite b off new) j ≡ (
        if leb off j && ltb j (off + length new) && ltb j (length b)
        then byte_at new (j - off)
        else byte_at b j)
unfolding overwrite
byte_at-overwrite [] off new j = ground arith
byte_at-overwrite (x ∷ b) zero [] j = ground arith
byte_at-overwrite (x ∷ b) zero (y ∷ new) zero = ground arith
byte_at-overwrite (x ∷ b) zero (y ∷ new) (suc j) = ground (arith, byte_at-overwrite b zero new j)
byte_at-overwrite (x ∷ b) (suc off) new zero = ground arith
byte_at-overwrite (x ∷ b) (suc off) new (suc j) = ground (arith, byte_at-overwrite b off new j)

pub slice_none : (b : List ℕ) (off : ℕ) → slice b off 0 ≡ []
unfolding slice
slice_none b off = refl

pub slice_step :
    (b : List ℕ) (off n : ℕ)
    → off < length b
    → slice b off (suc n) ≡ byte_at b off ∷ slice b (off + 1) n
unfolding slice
slice_step [] off n h = elim h [ ]
slice_step (x ∷ b) zero n h = refl
slice_step (x ∷ b) (suc off) n h = ground (arith, slice_step b off n)

pub overwrite-nil : (b : List ℕ) (off : ℕ) → overwrite b off [] ≡ b
unfolding overwrite
overwrite-nil [] off = refl
overwrite-nil (x ∷ b) zero = refl
overwrite-nil (x ∷ b) (suc off) = ap (λ t. x ∷ t) (overwrite-nil b off)

-- Writing byte by byte.
pub overwrite-cons :
    (b : List ℕ) (off y : ℕ) (new : List ℕ)
    → overwrite (overwrite b off (y ∷ [])) (suc off) new ≡ overwrite b off (y ∷ new)
unfolding overwrite
overwrite-cons [] off y new = refl
overwrite-cons (x ∷ b) zero y new = rw overwrite-nil refl
overwrite-cons (x ∷ b) (suc off) y new = ap (λ t. x ∷ t) (overwrite-cons b off y new)
