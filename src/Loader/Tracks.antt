-- ===== src/Loader/Tracks.antt =====
-- ebaf_bpf_stop of src/user/bpf_loader.c on a loader whose pointers and runtime stand for what its
-- calls hold: it releases all of that but the TC hooks, in a permitted order.
use e_ba_f_project.Base.{
  ℕ, ◌<◌, ◌≡◌, refl, sym, ap, ◌∙◌, ◌⊎◌, inl, inr, Bool, true, false, Option, none, some, List,
  arith,
}
use e_ba_f_project.Loader.{
  Skel, crypto_ctx, tc_crypto, tc_transparent, xdp_crypto, TcHook, TcOpts, Event, Libbpf, Runtime,
  Loader,
}
use e_ba_f_project.Loader.Start.{release_xdp, release_tc, release_ring, destroy_skel, stop}
use e_ba_f_project.Loader.Held.{
  Phase, absent, opened, loaded, Held, nothing, phase, set_phase, present, idle, destroying, accept,
  accepts,
}

-- The attached XDP program, as the interface and the flags of the runtime have it.
abbrev pub LinkTracked : Option (ℕ × ℕ) → ℕ → ℕ → Type 0
LinkTracked none index flags = flags ≡ 0
LinkTracked (some (ifindex, mode)) index flags =
    (0 < ifindex) × (0 < mode) × (index ≡ ifindex) × (flags ≡ mode)

-- The attached filter and its hook, as the fields of the runtime for them have it.
abbrev pub FilterTracked :
    Option (TcHook × TcOpts) → Option TcHook → Option TcHook → Bool → TcHook → TcOpts → Type 0
FilterTracked none hook found attached tc_hook tc_opts = attached ≡ false
FilterTracked (some (hook', opts)) hook found attached tc_hook tc_opts =
    ((hook ≡ some hook') ⊎ (found ≡ some hook'))
    × (attached ≡ true)
    × (tc_hook ≡ hook')
    × (tc_opts ≡ opts)

present_absent : (p : Phase) → present p ≡ false → p ≡ absent
present_absent absent h = refl
present_absent (opened maps) h = cc
present_absent loaded h = cc

-- To mark what is not there as destroyed changes nothing.
set_absent : (k : Skel) (h : Held) → phase k h ≡ absent → set_phase k absent h ≡ h
set_absent crypto_ctx h p = ap (λ q. record h { ctx = q }) (sym p)
set_absent tc_crypto h p = ap (λ q. record h { tc = q }) (sym p)
set_absent tc_transparent h p = ap (λ q. record h { transparent = q }) (sym p)
set_absent xdp_crypto h p = ap (λ q. record h { xdp = q }) (sym p)

absent_same :
    (k : Skel) (pointer : Bool) (h : Held)
    → pointer ≡ present (phase k h)
    → pointer ≡ false
    → set_phase k absent h ≡ h
absent_same k pointer h e gone = set_absent k h (present_absent (phase k h) (sym e ∙ gone))

module _ (lib : Libbpf) where
  pub record Tracks (ifindex : ℕ) (s : Loader) (h : Held) : Type 0 where
    pub index : s.rt.ifindex ≡ ifindex
    pub calls : accepts lib s.log ≡ some h
    pub ctx_open : present h.ctx ≡ true
    pub ctx_pointer : s.ctx_skel ≡ present h.ctx
    pub tc_pointer : s.tc_skel ≡ present h.tc
    pub transparent_pointer : s.tc_transparent_skel ≡ present h.transparent
    pub xdp_pointer : s.xdp_skel ≡ present h.xdp
    pub link : LinkTracked h.xdp_link s.rt.ifindex s.rt.xdp_flags
    pub filter : FilterTracked h.filter h.hook h.found s.rt.tc_attached s.rt.tc_hook s.rt.tc_opts
    pub ring : s.rt.event_ring ≡ h.ring

  release_xdp_lem :
      (log : List Event) (h : Held) (link : Option (ℕ × ℕ)) (rt : Runtime)
      → h.xdp_link ≡ link
      → LinkTracked link rt.ifindex rt.xdp_flags
      → accepts lib log ≡ some h
      → accepts lib (release_xdp rt log) ≡ some (record h { xdp_link = none })
  unfolding accepts accept release_xdp
  release_xdp_lem log h none rt e tracked calls = ground (arith, e, tracked, calls)
  release_xdp_lem log h (some (ifindex, mode)) rt e (i, m, same_index, same_mode) calls =
      ground (arith, e, calls)

  release_tc_lem :
      (log : List Event) (h : Held) (filter : Option (TcHook × TcOpts)) (rt : Runtime)
      → h.filter ≡ filter
      → FilterTracked filter h.hook h.found rt.tc_attached rt.tc_hook rt.tc_opts
      → accepts lib log ≡ some h
      → accepts lib (release_tc rt log) ≡ some (record h { filter = none })
  unfolding accepts accept release_tc
  release_tc_lem log h none rt e unattached calls = ground (arith, e, calls)
  release_tc_lem log h (some (hook, opts)) rt e (inl there, attached, same_hook, same_opts) calls =
      ground (arith, e, calls)
  release_tc_lem log h (some (hook, opts)) rt e (inr there, attached, same_hook, same_opts) calls =
      ground (arith, e, calls)

  release_ring_lem :
      (log : List Event) (h : Held) (rt : Runtime)
      → rt.event_ring ≡ h.ring
      → accepts lib log ≡ some h
      → accepts lib (release_ring rt log) ≡ some (record h { ring = false })
  unfolding accepts accept release_ring
  release_ring_lem log h rt e calls = ground (arith, calls)

  -- An object file that is not there is as destroyed.
  destroy_skel_lem :
      (k : Skel) (pointer : Bool) (log : List Event) (h : Held)
      → pointer ≡ present (phase k h)
      → idle k h ≡ true
      → (pointer ≡ false → destroying lib k h ≡ h)
      → accepts lib log ≡ some h
      → accepts lib (destroy_skel k pointer log) ≡ some (destroying lib k h)
  unfolding accepts accept destroy_skel
  destroy_skel_lem k true log h e unused same calls = rw (calls, accept, ← e, unused) refl
  destroy_skel_lem k false log h e unused same calls = rw (same refl) calls

  -- On a loader whose pointers and runtime stand for what its calls hold, ebaf_bpf_stop makes only
  -- permitted calls, and after them nothing is held; the TC hooks stay that were created or found.
  pub stop-Tracks :
      (ifindex : ℕ) (s : Loader) (h : Held)
      → Tracks ifindex s h
      → accepts lib (stop s).log ≡ some (record nothing { hook = h.hook; found = h.found })
  unfolding stop
  stop-Tracks ifindex s h t =
      let unlinked = release_xdp_lem s.log h h.xdp_link s.rt refl t.link t.calls in
      let h1 : Held = record h { xdp_link = none } in
      let unfiltered =
        release_tc_lem (release_xdp s.rt s.log) h1 h.filter s.rt refl t.filter unlinked in
      let h2 : Held = record h1 { filter = none } in
      let unringed =
        release_ring_lem (release_tc s.rt (release_xdp s.rt s.log)) h2 s.rt t.ring unfiltered in
      let h3 : Held = record h2 { ring = false } in
      let no_tc =
        destroy_skel_lem tc_crypto s.tc_skel
          (release_ring s.rt (release_tc s.rt (release_xdp s.rt s.log))) h3 t.tc_pointer refl
          (absent_same tc_crypto s.tc_skel h3 t.tc_pointer) unringed in
      let h4 : Held = record h3 { tc = absent } in
      let no_transparent =
        destroy_skel_lem tc_transparent s.tc_transparent_skel _ h4 t.transparent_pointer refl
          (absent_same tc_transparent s.tc_transparent_skel h4 t.transparent_pointer) no_tc in
      let h5 : Held = record h4 { transparent = absent } in
      let no_xdp =
        destroy_skel_lem xdp_crypto s.xdp_skel _ h5 t.xdp_pointer refl
          (absent_same xdp_crypto s.xdp_skel h5 t.xdp_pointer) no_transparent in
      let h6 : Held = record h5 { xdp = absent } in
      destroy_skel_lem crypto_ctx s.ctx_skel _ h6 t.ctx_pointer refl (λ gone. cc) no_xdp
