-- ===== src/Loader/Filtering.antt =====
-- attach_tc of src/user/bpf_loader.c, which calls bpf_tc_hook_destroy on a hook that it created where
-- it fails.
use mathlib.Core.Path.{subst}
use e_ba_f_project.Base.{
  ℕ, ◌≡◌, refl, inl, inr, Bool, true, false, Option, none, some, List, ◌∷◌, arith, if◌then◌else◌,
}
use e_ba_f_project.CtxProgram.{Code, zero_code, minus}
use e_ba_f_project.Loader.{
  Skel, crypto_ctx, tc_crypto, tc_transparent, xdp_crypto, TcHook, TcOpts, Event, creates_hook,
  finds_hook, destroys_hook, attaches_tc, Libbpf, Loader, is_error, logged,
}
use e_ba_f_project.Loader.Steps.{goes_on, err_out, follow, is_fatal, create_hook, attach_filter}
use e_ba_f_project.Loader.Held.{loaded, Held, phase, accept, accepts}
use e_ba_f_project.Loader.Tracks.{FilterTracked, Tracks}
use e_ba_f_project.Loader.Progress.{Ends}
use e_ba_f_project.Loader.Opening.{IsTc}

fatal_is_error : (err : Code) → is_fatal err ≡ true → is_error err ≡ true
fatal_is_error zero_code h = cc
fatal_is_error (minus n) h = ground arith

-- Nothing is there for the TC hook, but the context and the program `k`.
pub record IsUnhooked (k : Skel) (h : Held) : Type 0 where
  pub context : h.context ≡ true
  pub program : phase k h ≡ loaded
  pub no_hook : h.hook ≡ none
  pub no_filter : h.filter ≡ none

-- The hook is there: created, or found.
abbrev pub there : Bool → TcHook → Held → Held
there true hook h = record h { hook = some hook }
there false hook h = record h { found = some hook }

abbrev came : Bool → TcHook → Event
came true hook = creates_hook hook
came false hook = finds_hook hook

-- The filter of the program `k` is on the hook.
abbrev pub filtered : Bool → TcHook → TcOpts → Held → Held
filtered created hook opts h = record (there created hook h) { filter = some (hook, opts) }

accept-attaches_tc :
    (lib : Libbpf) (hook : TcHook) (k : Skel) (created : Bool) (opts : TcOpts) (h : Held)
    → IsTc k
    → IsUnhooked k h
    → opts.prog_fd ≡ lib.prog_fd k
    → accept lib (attaches_tc hook opts) (there created hook h)
      ≡ some (filtered created hook opts h)
unfolding accept
accept-attaches_tc lib hook crypto_ctx created opts h tc u same = elim tc [ ]
accept-attaches_tc lib hook tc_crypto true opts h tc u same =
    ground (arith, u.context, u.program, u.no_filter, same)
accept-attaches_tc lib hook tc_crypto false opts h tc u same =
    ground (arith, u.context, u.program, u.no_filter, u.no_hook, same)
accept-attaches_tc lib hook tc_transparent true opts h tc u same =
    ground (arith, u.context, u.program, u.no_filter, same)
accept-attaches_tc lib hook tc_transparent false opts h tc u same =
    ground (arith, u.context, u.program, u.no_filter, u.no_hook, same)
accept-attaches_tc lib hook xdp_crypto created opts h tc u same = elim tc [ ]

module _ (lib : Libbpf) (ifindex : ℕ) (hook : TcHook) (k : Skel) (tc : IsTc k) (s : Loader)
    (h : Held) (u : IsUnhooked k h) (t : Tracks lib ifindex s h) where
  came_lem :
      (created : Bool) → accepts lib (came created hook ∷ s.log) ≡ some (there created hook h)
  unfolding accepts accept
  came_lem true = ground (arith, t.calls, u.no_hook)
  came_lem false = ground (arith, t.calls, u.no_hook)

  -- What of the tracked state is not about the TC hook stays.
  rehooked-Tracks :
      (log : List Event) (hook' found' : Option TcHook) (filter' : Option (TcHook × TcOpts))
      (attached : Bool) (tc_hook : TcHook) (tc_opts : TcOpts)
      → accepts lib log ≡ some (record h { hook = hook'; found = found'; filter = filter' })
      → FilterTracked filter' hook' found' attached tc_hook tc_opts
      → Tracks lib ifindex
          (record s {
            log = log;
            rt = record s.rt { tc_hook = tc_hook; tc_opts = tc_opts; tc_attached = attached };
          })
          (record h { hook = hook'; found = found'; filter = filter' })
  rehooked-Tracks log hook' found' filter' attached tc_hook tc_opts calls filter = record {
    index = t.index;
    calls = calls;
    ctx_open = t.ctx_open;
    ctx_pointer = t.ctx_pointer;
    tc_pointer = t.tc_pointer;
    transparent_pointer = t.transparent_pointer;
    xdp_pointer = t.xdp_pointer;
    link = t.link;
    filter = filter;
    ring = t.ring;
  }

  -- No filter was tracked.
  unfiltered : s.rt.tc_attached ≡ false
  unfiltered =
      subst (λ f. FilterTracked f h.hook h.found s.rt.tc_attached s.rt.tc_hook s.rt.tc_opts)
        u.no_filter t.filter

  filter_calls :
      (created : Bool) (opts : TcOpts)
      → opts.prog_fd ≡ lib.prog_fd k
      → accepts lib (attaches_tc hook opts ∷ came created hook ∷ s.log)
        ≡ some (filtered created hook opts h)
  unfolding accepts
  filter_calls created opts same =
      rw (came_lem created) (accept-attaches_tc lib hook k created opts h tc u same)

  taken_calls :
      accepts lib (destroys_hook hook ∷ creates_hook hook ∷ s.log)
      ≡ some (record h { hook = some hook; found = h.found; filter = none })
  unfolding accepts accept
  taken_calls = rw (came_lem true) (ground (arith, u.no_filter))

  found_calls :
      accepts lib (finds_hook hook ∷ s.log)
      ≡ some (record h { hook = none; found = some hook; filter = none })
  unfolding accepts accept
  found_calls = ground (arith, t.calls, u.no_hook, u.no_filter)

  abbrev pub FilteredBy : Held → Type 0
  FilteredBy h' =
      (opts : TcOpts) × (created : Bool) × (opts.prog_fd ≡ lib.prog_fd k)
      × (h' ≡ filtered created hook opts h)

  -- The state after the first half of attach_tc.
  abbrev hooked : Bool → Loader
  hooked created = logged (came created hook) s

  attached-Ends :
      (bad created : Bool) (err : Code) (opts : TcOpts)
      → (bad ≡ true → is_error err ≡ true)
      → opts.prog_fd ≡ lib.prog_fd k
      → Ends lib ifindex FilteredBy (
          if bad
          then (
            err_out err,
            if created then logged (destroys_hook hook) (hooked created) else hooked created,
          )
          else (
            goes_on tt,
            logged (attaches_tc hook opts) (record (hooked created) {
              rt = record s.rt { tc_hook = hook; tc_opts = opts; tc_attached = true };
            }),
          ))
  attached-Ends true true err opts is_bad same = (
    is_bad refl,
    (
      record h { hook = some hook; found = h.found; filter = none },
      rehooked-Tracks (destroys_hook hook ∷ creates_hook hook ∷ s.log) (some hook) h.found none
          s.rt.tc_attached s.rt.tc_hook s.rt.tc_opts taken_calls unfiltered,
    ),
  )
  attached-Ends true false err opts is_bad same = (
    is_bad refl,
    (
      record h { hook = none; found = some hook; filter = none },
      rehooked-Tracks (finds_hook hook ∷ s.log) none (some hook) none s.rt.tc_attached s.rt.tc_hook
          s.rt.tc_opts found_calls unfiltered,
    ),
  )
  attached-Ends false true err opts is_bad same = (
    filtered true hook opts h,
    rehooked-Tracks (attaches_tc hook opts ∷ creates_hook hook ∷ s.log) (some hook) h.found
        (some (hook, opts)) true hook opts (filter_calls true opts same)
        (inl refl, refl, refl, refl),
    (opts, true, same, refl),
  )
  attached-Ends false false err opts is_bad same = (
    filtered false hook opts h,
    rehooked-Tracks (attaches_tc hook opts ∷ finds_hook hook ∷ s.log) h.hook (some hook)
        (some (hook, opts)) true hook opts (filter_calls false opts same)
        (inr refl, refl, refl, refl),
    (opts, false, same, refl),
  )

  filter-Ends :
      (created : Bool)
      → Ends lib ifindex FilteredBy
          (attach_filter lib hook (lib.prog_fd k) created (hooked created))
  unfolding attach_filter
  filter-Ends created =
      let fd = lib.prog_fd k in
      attached-Ends (is_error (lib.bpf_tc_attach hook fd (hooked created).log)) created
        (lib.bpf_tc_attach hook fd (hooked created).log)
        (record (lib.tc_opts hook fd (hooked created).log) { prog_fd = fd }) (λ e. e) refl

  hooked-Ends :
      (fatal bad : Bool) (err : Code)
      → (fatal ≡ true → is_error err ≡ true)
      → Ends lib ifindex FilteredBy (
          follow
            (if fatal
              then (err_out err, s)
              else if bad
              then (goes_on false, hooked false)
              else (goes_on true, hooked true))
            (attach_filter lib hook (lib.prog_fd k)))
  hooked-Ends true bad err is_bad = (is_bad refl, (h, t))
  hooked-Ends false true err is_bad = filter-Ends false
  hooked-Ends false false err is_bad = filter-Ends true

  -- attach_tc attaches the program to the hook, or leaves no filter behind.
  pub attach_hook-Ends :
      Ends lib ifindex FilteredBy
        (follow (create_hook lib hook s) (attach_filter lib hook (lib.prog_fd k)))
  unfolding create_hook
  attach_hook-Ends =
      let err = lib.bpf_tc_hook_create hook s.log in
      hooked-Ends (is_fatal err) (is_error err) err (fatal_is_error err)
