-- ===== src/Main/Exits.antt =====
-- The exits of src/user/main.c: what is held when the process ends.
use e_ba_f_project.Base.{
  ℕ, ◌+◌, ◌<◌, ◌≡◌, refl, ◌⊎◌, inl, inr, Bool, true, false, Option, none, some, List, [], arith,
}
use e_ba_f_project.CtxProgram.{Code}
use e_ba_f_project.Config.Args.{UserConfig, parse_args}
use e_ba_f_project.Loader.{Libbpf, Loader, Event, TcHook, cleared}
use e_ba_f_project.Loader.Start.{start}
use e_ba_f_project.Loader.Held.{nothing, accepts}
use e_ba_f_project.Loader.Released.{IsFresh, IsReleased, Returns, start-Returns, stopped}
use e_ba_f_project.Main.{Round, Exit, run_started, run_parsed, main}
use e_ba_f_project.Main.Rounds.{IsLast, loop_ends}

module _ (lib : Libbpf) where
  -- The exit 0, after a run, and the exit 1, after an error before that.
  abbrev pub IsClean : Exit → Type 0
  IsClean e =
      ((e.code ≡ some 0) × IsReleased lib e.loader × (e.loader.rt ≡ cleared))
      ⊎ ((e.code ≡ some 1)
          × (e.actions ≡ [])
          × ((created : Option TcHook) × (found : Option TcHook) × (accepts lib e.loader.log
                ≡ some (record nothing { hook = created; found = found }))))

  module _ (start_time : ℕ) (rounds : ℕ → Round) (fuel n : ℕ) (within : n < fuel) where
    run_started-IsClean :
        (cfg : UserConfig) (ifindex : ℕ) (r : Code × Loader)
        → IsLast cfg start_time (rounds n)
        → Returns lib cfg ifindex r
        → IsClean (run_started cfg start_time rounds fuel r)
    run_started-IsClean cfg ifindex (code, s) last (inr (bad, held)) =
        unfold run_started in rw bad (inr (refl, refl, held))
    run_started-IsClean cfg ifindex (code, s) last (inl (good, watched)) =
        let here : 0 + n ≡ n = omega arith in
        let ends = loop_ends cfg start_time rounds fuel 0 0 n (rw here last) within in
        let (fresh, runtime) = stopped lib cfg ifindex (code, s) (inl (good, watched)) good in
        unfold run_started in rw (good, ends) (inl (refl, fresh, runtime))

    run_parsed-IsClean :
        (o : Option UserConfig) (signals : Bool) (s : Loader)
        → ((log : List Event) → 0 < lib.errno log)
        → IsFresh lib s
        → ((cfg : UserConfig) → o ≡ some cfg → IsLast cfg start_time (rounds n))
        → IsClean (run_parsed lib signals start_time rounds fuel s o)
    unfolding run_parsed
    run_parsed-IsClean none signals s errno_set fresh last =
        inr (refl, refl, (none, none, fresh.calls))
    run_parsed-IsClean (some cfg) false s errno_set fresh last =
        inr (refl, refl, (none, none, fresh.calls))
    run_parsed-IsClean (some cfg) true s errno_set fresh last =
        run_started-IsClean cfg (lib.if_nametoindex cfg.iface) (start lib cfg s) (last cfg refl)
          (start-Returns lib cfg s errno_set fresh)

    -- If the loop meets a last round, and the fuel reaches to it, the process ends. It starts from a
    -- loader that holds nothing, a call that fails sets errno, and a release succeeds, but for
    -- bpf_tc_detach. It ends with the exit code 0 and has released all that it held but TC hooks, or
    -- with 1, without a round of the loop, and holds nothing but TC hooks: those that were created or
    -- found.
    pub main-IsClean :
        (argv : List (List ℕ)) (signals : Bool) (s : Loader)
        → ((log : List Event) → 0 < lib.errno log)
        → IsFresh lib s
        → ((cfg : UserConfig) → parse_args argv ≡ some cfg → IsLast cfg start_time (rounds n))
        → IsClean (main lib argv signals start_time rounds fuel s)
    unfolding main
    main-IsClean argv signals s = run_parsed-IsClean (parse_args argv) signals s
