-- ===== src/Loader/Released.antt =====
-- What becomes of ebaf_bpf_start of src/user/bpf_loader.c: all that the configuration asks for is
-- attached, or nothing is held but TC hooks; and what ebaf_bpf_stop makes of it.
use e_ba_f_project.Base.{
  ℕ, ◌<◌, ◌≡◌, refl, ◌⊎◌, inl, inr, Bool, true, false, Option, none, some, List, arith, ◌==◌,
  if◌then◌else◌,
}
use e_ba_f_project.Config.Args.{UserConfig}
use e_ba_f_project.CtxProgram.{Code, zero_code, minus}
use e_ba_f_project.Loader.{
  crypto_ctx, TcHook, Event, opens, Libbpf, Loader, is_error, cleared, set_skel, logged,
}
use e_ba_f_project.Loader.Steps.{Outcome, goes_on, err_out}
use e_ba_f_project.Loader.Start.{wants_tc, start_programs, conclude, start, stop}
use e_ba_f_project.Loader.Held.{Held, nothing, accept, accepts}
use e_ba_f_project.Loader.Tracks.{Tracks, stop-Tracks}
use e_ba_f_project.Loader.Progress.{Ends, follow-Ends, follow-EndsIn}
use e_ba_f_project.Loader.Opening.{held_ctx, held_xdp, open_xdp-EndsIn}
use e_ba_f_project.Loader.Context.{HasPrograms, HasContext, open_programs, make_context-Ends}
use e_ba_f_project.Loader.Watching.{IsWatched, watch_events-Ends}
use e_ba_f_project.Loader.Asked.{IsAsked, IsWatched-IsAsked}
use e_ba_f_project.Loader.Attached.{IsUnwatched, attach_all-Ends}

-- Nothing is held, and all pointers are NULL.
pub record IsFresh (lib : Libbpf) (s : Loader) : Type 0 where
  pub calls : accepts lib s.log ≡ some nothing
  pub no_ctx : s.ctx_skel ≡ false
  pub no_tc : s.tc_skel ≡ false
  pub no_transparent : s.tc_transparent_skel ≡ false
  pub no_xdp : s.xdp_skel ≡ false

-- All that was held is released but the TC hooks that were created or found, and all pointers are
-- NULL.
pub record IsReleased (lib : Libbpf) (s : Loader) : Type 0 where
  pub created : Option TcHook
  pub found : Option TcHook
  pub calls : accepts lib s.log ≡ some (record nothing { hook = created; found = found })
  pub no_ctx : s.ctx_skel ≡ false
  pub no_tc : s.tc_skel ≡ false
  pub no_transparent : s.tc_transparent_skel ≡ false
  pub no_xdp : s.xdp_skel ≡ false

module _ (lib : Libbpf) (cfg : UserConfig) where
  -- What a start returns and leaves behind.
  abbrev pub Returns : ℕ → Code × Loader → Type 0
  Returns ifindex (code, s) =
      ((code ≡ zero_code) × ((h : Held) × Tracks lib ifindex s h × IsAsked lib cfg ifindex h))
      ⊎ ((is_error code ≡ true)
          × ((created : Option TcHook) × (found : Option TcHook) × (accepts lib s.log
                ≡ some (record nothing { hook = created; found = found }))))

  module _ (ifindex : ℕ) (errno_set : (log : List Event) → 0 < lib.errno log)
      (named : 0 < ifindex) where
    start_programs-Ends :
        (s : Loader)
        → Tracks lib ifindex s held_ctx
        → Ends lib ifindex (IsWatched lib cfg ifindex) (start_programs lib cfg ifindex s)
    unfolding start_programs
    start_programs-Ends s t =
        follow-EndsIn lib ifindex held_xdp (IsWatched lib cfg ifindex) _ _
          (open_xdp-EndsIn lib ifindex errno_set cfg s t)
          λ s t.
            follow-Ends lib ifindex (HasPrograms cfg) (IsWatched lib cfg ifindex) _ _
              (open_programs lib ifindex errno_set cfg (wants_tc cfg) s refl t)
              λ s h t p.
                follow-Ends lib ifindex (HasContext cfg) (IsWatched lib cfg ifindex) _ _
                  (make_context-Ends lib ifindex errno_set cfg s h p t)
                  λ s h t made.
                    follow-Ends lib ifindex (IsUnwatched lib cfg ifindex)
                      (IsWatched lib cfg ifindex) _ _
                      (attach_all-Ends lib cfg ifindex errno_set named s h made t)
                      λ s h t unwatched. watch_events-Ends lib cfg ifindex errno_set s h unwatched t

    conclude-Returns :
        (r : Outcome (Unit {0}) × Loader)
        → Ends lib ifindex (IsWatched lib cfg ifindex) r
        → Returns ifindex (conclude lib cfg r)
    unfolding conclude
    conclude-Returns (goes_on a, s) (h, t, watched) =
        inl (refl, (h, t, IsWatched-IsAsked lib cfg ifindex h watched))
    conclude-Returns (err_out e, s) (bad, (h, t)) =
        inr (bad, (h.hook, h.found, stop-Tracks lib ifindex s h t))

  -- A loader that holds nothing, once the interface has an index and the context program is open.
  opened-Tracks :
      (s : Loader) (ifindex : ℕ)
      → IsFresh lib s
      → Tracks lib ifindex
          (set_skel crypto_ctx true
            (logged (opens crypto_ctx) (record s { rt = record cleared { ifindex = ifindex } })))
          held_ctx
  unfolding accepts accept set_skel
  opened-Tracks s ifindex fresh = record {
    index = refl;
    calls = rw fresh.calls refl;
    ctx_open = refl;
    ctx_pointer = refl;
    tc_pointer = fresh.no_tc;
    transparent_pointer = fresh.no_transparent;
    xdp_pointer = fresh.no_xdp;
    link = refl;
    filter = refl;
    ring = refl;
  }

  -- What is left of a loader that was started.
  pub stopped :
      (ifindex : ℕ) (r : Code × Loader)
      → Returns ifindex r
      → r.0 ≡ zero_code
      → IsReleased lib (stop r.1) × ((stop r.1).rt ≡ cleared)
  stopped ifindex (code, s) (inl (same, (h, t, asked))) good =
      let calls = stop-Tracks lib ifindex s h t in
      (
        record {
          created = h.hook;
          found = h.found;
          calls = calls;
          no_ctx = unfold stop in refl;
          no_tc = unfold stop in refl;
          no_transparent = unfold stop in refl;
          no_xdp = unfold stop in refl;
        },
        unfold stop in refl,
      )
  stopped ifindex (code, s) (inr (bad, left)) good = absurd (cc)

  if-Returns :
      (ifindex : ℕ) (c : Bool) (x y : Code × Loader)
      → (c ≡ true → Returns ifindex x)
      → (c ≡ false → Returns ifindex y)
      → Returns ifindex (if c then x else y)
  if-Returns ifindex true x y yes_case no_case = yes_case refl
  if-Returns ifindex false x y yes_case no_case = no_case refl

  -- An error before anything is held.
  early-Returns :
      (ifindex errno : ℕ) (s : Loader)
      → 0 < errno
      → accepts lib s.log ≡ some nothing
      → Returns ifindex (minus errno, s)
  early-Returns ifindex errno s pos calls = inr (ground arith, (none, none, calls))

  -- From a loader that holds nothing, ebaf_bpf_start makes only permitted calls. Either it returns
  -- 0: then the crypto context is made of the configuration, the XDP program is attached if the hook
  -- is `xdp` or `both`, and a filter if it is `tc` or `both`, of the program and in the direction that
  -- the configuration asks for; the events are watched, and the pointers and the runtime stand for all
  -- that is held. Or it returns an error, and holds nothing but TC hooks that were created or found.
  -- A call that fails sets errno, and a release succeeds, but for bpf_tc_detach.
  pub start-Returns :
      (s : Loader)
      → ((log : List Event) → 0 < lib.errno log)
      → IsFresh lib s
      → Returns (lib.if_nametoindex cfg.iface) (start lib cfg s)
  unfolding start set_skel
  start-Returns s errno_set fresh =
      let ifindex = lib.if_nametoindex cfg.iface in
      let errno = lib.errno s.log in
      if-Returns ifindex (ifindex == 0) _ _
        (λ unknown. early-Returns ifindex errno _ (errno_set s.log) fresh.calls)
        λ known.
          if-Returns ifindex (lib.open_skel crypto_ctx s.log) _ _
            (λ is_open. conclude-Returns ifindex errno_set (ground arith) _ (
              start_programs-Ends ifindex errno_set (ground arith) _
                (opened-Tracks s ifindex fresh)))
            λ not_open. early-Returns ifindex errno _ (errno_set s.log) fresh.calls

  -- After a start from a loader that holds nothing, which returned 0, ebaf_bpf_stop releases all
  -- that is held, in a permitted order, but the TC hooks that were created or found; it leaves all
  -- pointers NULL and the runtime cleared. A call that fails sets errno, and a release succeeds, but
  -- for bpf_tc_detach.
  pub stop-IsReleased :
      (s : Loader)
      → ((log : List Event) → 0 < lib.errno log)
      → IsFresh lib s
      → (start lib cfg s).0 ≡ zero_code
      → IsReleased lib (stop (start lib cfg s).1) × ((stop (start lib cfg s).1).rt ≡ cleared)
  stop-IsReleased s errno_set fresh good =
      stopped (lib.if_nametoindex cfg.iface) (start lib cfg s) (start-Returns s errno_set fresh)
        good
