-- ===== src/Tests/Loading.antt =====
-- The loader and the main loop, with calls that all succeed but for those that a test wants to fail.
use e_ba_f_project.Base.{ℕ, ◌+◌, ◌≡◌, refl, inl, true, false, ◌==◌, [], ◌∷◌, arith, if◌then◌else◌}
use e_ba_f_project.CtxProgram.{zero_code, minus}
use e_ba_f_project.Config.Args.{UserConfig}
use e_ba_f_project.Loader.{
  TcHook, TcOpts, finds_hook, destroys_hook, detaches_tc, Libbpf, Loader, cleared, set_skel,
}
use e_ba_f_project.Loader.Start.{
  start, stop, conclude, start_programs, open_xdp, open_tc, make_context, attach_all, watch_events,
  tc_program, attach_point, release_tc,
}
use e_ba_f_project.Loader.Steps.{
  settle, open_skel, load_skel, share, update_config, run_ctx, attach_xdp, create_hook,
  attach_filter, attach_tc, make_ring,
}
use e_ba_f_project.Loader.Held.{accepts}
use e_ba_f_project.Loader.Released.{IsFresh, Returns, start-Returns, stop-IsReleased, IsReleased}
use e_ba_f_project.Loader.Found.{FoundHook, attach_tc_found, CreatedHook, attach_tc_created}
use e_ba_f_project.Main.{Round, loop, main}
use e_ba_f_project.Main.Rounds.{Spaced, loop_ends, loop-Spaced}
use e_ba_f_project.Main.Exits.{IsClean, main-IsClean}
use e_ba_f_project.Tests.Options.{argv, parsed}

abbrev lib : Libbpf
lib = record {
  errno = λ log. 1;
  if_nametoindex = λ name. 3;
  open_skel = λ k log. true;
  load_skel = λ k log. zero_code;
  map_fd = λ k m. 7;
  prog_fd = λ k. 8;
  bpf_map_reuse_fd = λ k m fd log. zero_code;
  bpf_map_update_elem = λ fd config log. zero_code;
  bpf_prog_test_run_opts = λ fd log. zero_code;
  retval = λ fd log. zero_code;
  bpf_xdp_attach = λ ifindex fd flags log. if flags == 5 then minus 95 else zero_code;
  bpf_tc_hook_create = λ hook log. minus 17;
  bpf_tc_attach = λ hook fd log. zero_code;
  tc_opts = λ hook fd log. record { prog_fd = fd; handle = 1; priority = 1 };
  ring_buffer_new = λ fd log. true;
}

abbrev unused : Loader
unused = record {
  ctx_skel = false;
  tc_skel = false;
  tc_transparent_skel = false;
  xdp_skel = false;
  jsonl = false;
  rt = cleared;
  log = [];
}

unused-IsFresh : IsFresh lib unused
unfolding accepts
unused-IsFresh = record {
  calls = refl;
  no_ctx = refl;
  no_tc = refl;
  no_transparent = refl;
  no_xdp = refl;
}

-- On both hooks.
abbrev on_both : UserConfig
on_both = record parsed { hook = 3 }

started : (start lib on_both unused).0 ≡ zero_code
unfolding start conclude start_programs open_xdp open_tc make_context attach_all watch_events
    tc_program attach_point settle open_skel load_skel share update_config run_ctx attach_xdp
    create_hook attach_filter attach_tc make_ring set_skel
started = refl

-- bpf_tc_hook_destroy is called for a TC hook that was there before, when the program stops.
found_hook_destroyed :
    let hook : TcHook = record { ifindex = 3; attach_point = 2 } in
    let opts : TcOpts = record { prog_fd = 8; handle = 1; priority = 1 } in
    release_tc (start lib on_both unused).1.rt (finds_hook hook ∷ [])
    ≡ destroys_hook hook ∷ detaches_tc hook opts ∷ finds_hook hook ∷ []
unfolding start conclude start_programs open_xdp open_tc make_context attach_all watch_events
    tc_program attach_point settle open_skel load_skel share update_config run_ctx attach_xdp
    create_hook attach_filter attach_tc make_ring set_skel release_tc
found_hook_destroyed = refl

attach_tc_found_example :
    FoundHook (record { ifindex = 3; attach_point = 2 }) [] (attach_tc lib 3 8 2 unused)
attach_tc_found_example = attach_tc_found lib 3 8 2 unused refl

abbrev refusing_lib : Libbpf
refusing_lib = record lib {
  bpf_tc_hook_create = λ hook log. zero_code;
  bpf_tc_attach = λ hook fd log. minus 22;
}

attach_tc_created_example :
    CreatedHook (record { ifindex = 3; attach_point = 2 }) [] (attach_tc refusing_lib 3 8 2 unused)
attach_tc_created_example = attach_tc_created refusing_lib 3 8 2 unused refl

start-Returns_example : Returns lib on_both 3 (start lib on_both unused)
start-Returns_example = start-Returns lib on_both unused (λ log. omega arith) unused-IsFresh

stop-IsReleased_example :
    IsReleased lib (stop (start lib on_both unused).1)
    × ((stop (start lib on_both unused).1).rt ≡ cleared)
stop-IsReleased_example =
    stop-IsReleased lib on_both unused (λ log. omega arith) unused-IsFresh started

-- The clock ticks once a round; the signal comes before round 4.
abbrev rounds : ℕ → Round
rounds i = record { exiting = i == 4; now = 100 + i; later = 100 + i }

loop_ends_example : (loop on_both 100 rounds 9 0 0).1 ≡ true
loop_ends_example = loop_ends on_both 100 rounds 9 0 0 4 (inl refl) (omega arith)

loop-Spaced_example : Spaced 1 0 (loop on_both 100 rounds 9 0 0).0
loop-Spaced_example = loop-Spaced on_both 100 rounds 9 0 0

main-IsClean_example : IsClean lib (main lib argv true 100 rounds 9 unused)
main-IsClean_example =
    main-IsClean lib 100 rounds 9 4 (omega arith) argv true unused (λ log. omega arith)
      unused-IsFresh (λ cfg h. inl refl)
