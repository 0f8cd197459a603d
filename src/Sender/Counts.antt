-- ===== src/Sender/Counts.antt =====
-- How many packets tools/udp_bench_sender.c says it has sent.
use mathlib.Core.Path.{subst}
use e_ba_f_project.Formats.Decimal.{decimal}
use e_ba_f_project.Base.{
  ℕ, ◌*◌, ◌%◌, ◌^◌, some, List, [], ◌∷◌, ◌++◌, u64, zero, suc, ◌+◌, ◌≤◌, ◌<◌, ◌≡◌, refl, Bool, true,
  arith,
}
use e_ba_f_project.Sender.{Settings, parse_settings, sent_all, send_loop, run_settings, bench}

shift : (i j : ℕ) → i + suc j ≡ i + 1 + j
shift i j = omega arith

from_zero : (j : ℕ) → j ≡ 0 + j
from_zero j = omega arith

module _ (deadline : ℕ) (clock : ℕ → ℕ) (sends : ℕ → Bool) where
  send_loop_rest :
      (fuel i n sent : ℕ)
      → sent < 2 ^ 64
      → n < fuel
      → ((j : ℕ) → j < n → (clock (i + j) < deadline) × (sends (i + j) ≡ true))
      → deadline ≤ clock (i + n)
      → send_loop deadline clock sends fuel i sent ≡ sent_all (u64 (sent + n))
  unfolding send_loop
  send_loop_rest zero i n sent small within before reached = elim within [ ]
  send_loop_rest (suc fuel) i zero sent small within before reached =
      let here : i + 0 ≡ i = omega arith in
      let kept : u64 (sent + 0) ≡ sent = omega arith in
      let over : deadline ≤ clock i = rw here at reached in ground (arith, over, kept)
  send_loop_rest (suc fuel) i (suc n) sent small within before reached =
      let here : i + 0 ≡ i = omega arith in
      let (early, sent_one) = rw here at (before 0 (omega arith)) in
      let shifted : i + suc n ≡ i + 1 + n = omega arith in
      let counted : u64 (u64 (sent + 1) + n) ≡ u64 (sent + suc n) = omega arith in
      let rest =
        send_loop_rest fuel (i + 1) n (u64 (sent + 1)) (omega arith) (omega arith)
          (λ j h.
            subst (λ x. (clock x < deadline) × (sends x ≡ true)) (shift i j)
              (before (suc j) (omega arith)))
          (rw shifted at reached) in
      ground (arith, early, sent_one, rest, counted)

-- The clock reads the deadline or more for the first time after `n` rounds, and sendto succeeded
-- in each of these: then the sender ends with the code 0, and prints `n` modulo 2 ^ 64. More than `n`
-- rounds of fuel are enough. The arguments are accepted, and so are the socket and the host.
pub bench_counts :
    (argv : List (List ℕ)) (settings : Settings) (host_ok : List ℕ → Bool) (begin : ℕ)
    (clock : ℕ → ℕ) (sends : ℕ → Bool) (fuel n : ℕ)
    → parse_settings argv ≡ some settings
    → host_ok settings.host ≡ true
    → n < fuel
    → ((j : ℕ)
        → j < n
        → (clock j < u64 (begin + settings.duration_sec * 1000000000)) × (sends j ≡ true))
    → u64 (begin + settings.duration_sec * 1000000000) ≤ clock n
    → bench argv true host_ok begin clock sends fuel
      ≡ record { code = some 0; printed = some (decimal (n % 2 ^ 64) ++ 10 ∷ []) }
unfolding bench run_settings
bench_counts argv settings host_ok begin clock sends fuel n accepted known within before reached =
    let deadline = u64 (begin + settings.duration_sec * 1000000000) in
    let none_before : 0 + n ≡ n = omega arith in
    let counted =
      send_loop_rest deadline clock sends fuel 0 n 0 (omega arith) within
        (λ j h. subst (λ x. (clock x < deadline) × (sends x ≡ true)) (from_zero j) (before j h))
        (rw none_before reached) in
    rw (accepted, known, counted, none_before) refl
