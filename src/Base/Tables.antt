-- ===== src/Base/Tables.antt =====
-- `(hi << 4) | lo` of two nibbles is a sum: by a run over the 256 pairs.
use Prim.Native.Nat.{bit_or}
use e_ba_f_project.Base.{
  ℕ, zero, suc, ◌+◌, ◌*◌, ◌≤◌, ◌<◌, ◌≡◌, refl, Bool, true, ◌&&◌, ◌==◌, ==_iff, arith,
}

-- The test passes at the `left` numbers from `start` on.
unfoldable pub row : (ℕ → Bool) → ℕ → ℕ → Bool
row test start zero = true
row test start (suc left) = row test (start + 1) left && test start

pub row-member :
    (test : ℕ → Bool) (start left j : ℕ)
    → start ≤ j
    → j < start + left
    → row test start left ≡ true
    → test j ≡ true
unfolding row
row-member test start zero j above below passes = absurd (omega arith)
row-member test start (suc left) j above below passes =
    ground (arith, row-member test (start + 1) left j)

abbrev adds : ℕ → ℕ → Bool
adds hi lo = bit_or (hi * 16) lo == hi * 16 + lo

all_add : row (λ hi. row (adds hi) 0 16) 0 16 ≡ true
unfolding row
all_add = refl

pub bit_or_nibbles : (hi lo : ℕ) → hi < 16 → lo < 16 → bit_or (hi * 16) lo ≡ hi * 16 + lo
bit_or_nibbles hi lo high low =
    let of_hi = row-member (λ h. row (adds h) 0 16) 0 16 hi (omega arith) high all_add in
    (==_iff _ _).0 (row-member (adds hi) 0 16 lo (omega arith) low of_hi)
