-- ===== src/Main/Rounds.antt =====
-- The main loop of src/user/main.c: when it ends, and when it prints the statistics.
use e_ba_f_project.Base.{
  ℕ, zero, suc, ◌+◌, ◌≤◌, ◌<◌, ◌≡◌, refl, ◌⊎◌, inl, inr, Bool, true, false, List, [], ◌∷◌, ◌++◌,
  arith, if◌then◌else◌,
}
use e_ba_f_project.Config.Args.{UserConfig}
use e_ba_f_project.Main.{
  Round, Action, prints_stats, polls_events, sleeps, is_due, is_over, turn, loop,
}

-- A round that ends the loop: a signal came before it, or the duration is over.
abbrev pub IsLast : UserConfig → ℕ → Round → Type 0
IsLast cfg start_time r =
    (r.exiting ≡ true) ⊎ ((0 < cfg.duration_sec) × (start_time + cfg.duration_sec ≤ r.later))

-- The statistics are printed at least `gap` apart, the last time having been `last`, 0 for never.
abbrev pub Spaced : ℕ → ℕ → List Action → Type 0
Spaced gap last [] = Unit
Spaced gap last (prints_stats now ∷ actions) =
    ((last ≡ 0) ⊎ (last + gap ≤ now)) × Spaced gap now actions
Spaced gap last (polls_events ∷ actions) = Spaced gap last actions
Spaced gap last (sleeps ∷ actions) = Spaced gap last actions

turn_ends :
    (exiting over : Bool) (before after : List Action) (rest : List Action × Bool)
    → (exiting ≡ true) ⊎ ((over ≡ true) ⊎ (rest.1 ≡ true))
    → (turn exiting over before after rest).1 ≡ true
turn_ends true over before after rest h = refl
turn_ends false true before after rest h = refl
turn_ends false false before after rest (inl h) = absurd (cc)
turn_ends false false before after rest (inr (inl h)) = absurd (cc)
turn_ends false false before after rest (inr (inr h)) = h

turn-Spaced :
    (exiting over due events : Bool) (gap last now : ℕ) (rest : List Action × Bool)
    → (due ≡ true → (last ≡ 0) ⊎ (last + gap ≤ now))
    → Spaced gap (if due then now else last) rest.0
    → Spaced gap last
        (turn exiting over
          ((if due then prints_stats now ∷ [] else [])
            ++ (if events then polls_events ∷ [] else []))
          (if events then [] else sleeps ∷ [])
          rest).0
turn-Spaced true over due events gap last now rest apart later = tt
turn-Spaced false true true true gap last now rest apart later = (apart refl, tt)
turn-Spaced false true true false gap last now rest apart later = (apart refl, tt)
turn-Spaced false true false true gap last now rest apart later = tt
turn-Spaced false true false false gap last now rest apart later = tt
turn-Spaced false false true true gap last now rest apart later = (apart refl, later)
turn-Spaced false false true false gap last now rest apart later = (apart refl, later)
turn-Spaced false false false true gap last now rest apart later = later
turn-Spaced false false false false gap last now rest apart later = later

module _ (cfg : UserConfig) (start_time : ℕ) (rounds : ℕ → Round) where
  last_round :
      (i : ℕ) (goes_on : Bool)
      → IsLast cfg start_time (rounds i)
      → ((rounds i).exiting ≡ true)
        ⊎ ((is_over cfg start_time (rounds i).later ≡ true) ⊎ (goes_on ≡ true))
  last_round i goes_on (inl exiting) = inl exiting
  last_round i goes_on (inr (limited, over)) = inr (inl (ground arith))

  -- Where some round is a last one, the loop ends with that round at the latest: `n` rounds before
  -- it, so `n + 1` rounds are enough.
  pub loop_ends :
      (fuel i last n : ℕ)
      → IsLast cfg start_time (rounds (i + n))
      → n < fuel
      → (loop cfg start_time rounds fuel i last).1 ≡ true
  unfolding loop
  loop_ends zero i last n ends within = elim within [ ]
  loop_ends (suc fuel) i last zero ends within =
      let here : i + 0 ≡ i = omega arith in
      turn_ends (rounds i).exiting (is_over cfg start_time (rounds i).later) _ _ _
        (last_round i _ (rw here at ends))
  loop_ends (suc fuel) i last (suc n) ends within =
      let shifted : i + suc n ≡ i + 1 + n = omega arith in
      turn_ends (rounds i).exiting (is_over cfg start_time (rounds i).later) _ _ _
        (inr (inr (loop_ends fuel (i + 1) _ n (rw shifted at ends) (omega arith))))

  -- Two times at which the loop prints the statistics, one after the other, lie at least the
  -- interval apart, and the first of them as far from `last`, the time of the last print before; in
  -- both cases unless the earlier time is 0, which also stands for no print before.
  pub loop-Spaced :
      (fuel i last : ℕ)
      → Spaced cfg.stats_interval_sec last (loop cfg start_time rounds fuel i last).0
  unfolding loop
  loop-Spaced zero i last = tt
  loop-Spaced (suc fuel) i last =
      let r = rounds i in
      let due = is_due cfg last r.now in
      turn-Spaced r.exiting (is_over cfg start_time r.later) due cfg.print_events
        cfg.stats_interval_sec last r.now
        (loop cfg start_time rounds fuel (i + 1) (if due then r.now else last)) (λ h. ground arith)
        (loop-Spaced fuel (i + 1) (if due then r.now else last))
