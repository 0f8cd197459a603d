-- ===== src/Main.antt =====
-- src/user/main.c: what ebaf-crypto does from its arguments to its exit. The clock, the signals and
-- what they find in each round of the main loop are parameters.
pub mod Rounds
pub mod Exits
use e_ba_f_project.Base.{
  ℕ, zero, suc, ◌+◌, Bool, true, false, ◌&&◌, ◌||◌, Option, none, some, List, [], ◌∷◌, ◌++◌, ltb,
  leb, ◌==◌, if◌then◌else◌,
}
use e_ba_f_project.CtxProgram.{Code, minus}
use e_ba_f_project.Config.Args.{UserConfig, parse_args}
use e_ba_f_project.Loader.{Libbpf, Loader, is_error}
use e_ba_f_project.Loader.Start.{start, stop}

-- What a round finds: the flag `exiting`, and what the two calls of `time` in it give.
pub record Round : Type 0 where
  pub exiting : Bool
  pub now : ℕ
  pub later : ℕ

-- What a round does; the statistics are printed with the time that is noted for them.
pub data Action : Type 0 where
  prints_stats : ℕ → Action
  polls_events : Action
  sleeps : Action

-- `last_stats_time == 0 || now - last_stats_time >= stats_interval_sec`, on a signed difference.
abbrev pub is_due : UserConfig → ℕ → ℕ → Bool
is_due cfg last now = last == 0 || leb (last + cfg.stats_interval_sec) now

-- `duration_sec > 0 && time(NULL) - start_time >= duration_sec`
abbrev pub is_over : UserConfig → ℕ → ℕ → Bool
is_over cfg start_time later = ltb 0 cfg.duration_sec && leb (start_time + cfg.duration_sec) later

-- A round and what comes after it: the loop ends before the round, in its middle, or goes on.
abbrev pub turn : Bool → Bool → List Action → List Action → List Action × Bool → List Action × Bool
turn true over before after rest = ([], true)
turn false true before after rest = (before, true)
turn false false before after rest = (before ++ (after ++ rest.0), rest.1)

-- The loop from round `i` on: what it does, and whether it ends within `fuel` rounds.
unfoldable pub loop : UserConfig → ℕ → (ℕ → Round) → ℕ → ℕ → ℕ → List Action × Bool
loop cfg start_time rounds zero i last = ([], false)
loop cfg start_time rounds (suc fuel) i last =
    let r = rounds i in
    let due = is_due cfg last r.now in
    let printed = if due then prints_stats r.now ∷ [] else [] in
    let polled = if cfg.print_events then polls_events ∷ [] else [] in
    let slept = if cfg.print_events then [] else sleeps ∷ [] in
    turn r.exiting (is_over cfg start_time r.later) (printed ++ polled) slept
      (loop cfg start_time rounds fuel (i + 1) (if due then r.now else last))

-- The exit code, `none` where the loop does not end within its fuel, what the loop did, and the
-- loader as it is left.
pub record Exit : Type 0 where
  pub code : Option ℕ
  pub actions : List Action
  pub loader : Loader

-- From `ebaf_bpf_start` on.
unfoldable pub run_started : UserConfig → ℕ → (ℕ → Round) → ℕ → Code × Loader → Exit
unfolding loop
run_started cfg start_time rounds fuel (err, s) =
    if is_error err
    then record { code = some 1; actions = []; loader = s }
    else let (actions, ended) = loop cfg start_time rounds fuel 0 0 in
      record {
        code = if ended then some 0 else none;
        actions = actions;
        loader = if ended then stop s else s;
      }

-- What follows the arguments; `signals` is whether both handlers could be set up.
unfoldable pub run_parsed : Libbpf → Bool → ℕ → (ℕ → Round) → ℕ → Loader → Option UserConfig → Exit
unfolding run_started
run_parsed lib signals start_time rounds fuel s none = record {
  code = some 1;
  actions = [];
  loader = s;
}
run_parsed lib signals start_time rounds fuel s (some cfg) =
    if signals
    then run_started cfg start_time rounds fuel (start lib cfg s)
    else record { code = some 1; actions = []; loader = s }

unfoldable pub main : Libbpf → List (List ℕ) → Bool → ℕ → (ℕ → Round) → ℕ → Loader → Exit
unfolding run_parsed
main lib argv signals start_time rounds fuel s =
    run_parsed lib signals start_time rounds fuel s (parse_args argv)
