-- ===== src/Loader/Progress.antt =====
-- How the steps of ebaf_bpf_start of src/user/bpf_loader.c move from one held state to the next.
use mathlib.Core.Path.{subst}
use e_ba_f_project.Base.{
  ℕ, ◌<◌, ◌≡◌, refl, sym, ap, ◌∙◌, Bool, true, false, not, Option, some, List, [], arith,
}
use e_ba_f_project.CtxProgram.{Code, minus}
use e_ba_f_project.Loader.{
  Skel, crypto_ctx, tc_crypto, tc_transparent, xdp_crypto, TcHook, TcOpts, Event, opens, Libbpf,
  Loader, is_error, set_skel, logged,
}
use e_ba_f_project.Loader.Steps.{Outcome, goes_on, err_out, Act, follow, settle, open_skel}
use e_ba_f_project.Loader.Held.{absent, opened, Held, phase, set_phase, present, accept, accepts}
use e_ba_f_project.Loader.Tracks.{LinkTracked, FilterTracked, Tracks}

-- What the pointers and the runtime show of what is held.
abbrev pub pointers : Held → Bool × Bool × Bool × Bool
pointers h = (present h.ctx, present h.tc, present h.transparent, present h.xdp)

abbrev pub links :
    Held → Option (ℕ × ℕ) × Option TcHook × Option TcHook × Option (TcHook × TcOpts) × Bool
links h = (h.xdp_link, h.hook, h.found, h.filter, h.ring)

module _ (lib : Libbpf) (ifindex : ℕ) where
  -- A run of steps that goes on in a held state with the property `Q`, or fails with an error in
  -- some held state.
  abbrev pub Ends : (Held → Type 0) → Outcome (Unit {0}) × Loader → Type 0
  Ends Q (goes_on a, s) = (h : Held) × Tracks lib ifindex s h × Q h
  Ends Q (err_out e, s) = (is_error e ≡ true) × ((h : Held) × Tracks lib ifindex s h)

  abbrev pub EndsIn : Held → Outcome (Unit {0}) × Loader → Type 0
  EndsIn h' r = Ends (λ h. h ≡ h') r

  pub follow-Ends :
      (Q Q' : Held → Type 0) (r : Outcome (Unit {0}) × Loader) (f : Unit {0} → Act (Unit {0}))
      → Ends Q r
      → ((s : Loader) (h : Held) → Tracks lib ifindex s h → Q h → Ends Q' (f tt s))
      → Ends Q' (follow r f)
  follow-Ends Q Q' (goes_on a, s) f (h, t, q) next = next s h t q
  follow-Ends Q Q' (err_out e, s) f failed next = failed

  pub follow-EndsIn :
      (h' : Held) (Q' : Held → Type 0) (r : Outcome (Unit {0}) × Loader)
      (f : Unit {0} → Act (Unit {0}))
      → EndsIn h' r
      → ((s : Loader) → Tracks lib ifindex s h' → Ends Q' (f tt s))
      → Ends Q' (follow r f)
  follow-EndsIn h' Q' r f ends next =
      follow-Ends (λ h. h ≡ h') Q' r f ends
        λ s h t e. next s (subst (λ x. Tracks lib ifindex s x) e t)

  pub Ends-weaken :
      (Q Q' : Held → Type 0) (r : Outcome (Unit {0}) × Loader)
      → Ends Q r
      → ((h : Held) → Q h → Q' h)
      → Ends Q' r
  Ends-weaken Q Q' (goes_on a, s) (h, t, q) weaker = (h, t, weaker h q)
  Ends-weaken Q Q' (err_out e, s) failed weaker = failed

  -- Assignments to what is not tracked.
  pub assigned-Tracks :
      (s : Loader) (h : Held) (prog stats config : Option ℕ) (jsonl : Bool)
      → Tracks lib ifindex s h
      → Tracks lib ifindex
          (record s {
            jsonl = jsonl;
            rt = record s.rt { xdp_prog_fd = prog; stats_map_fd = stats; config_map_fd = config };
          })
          h
  assigned-Tracks s h prog stats config jsonl t = record {
    index = t.index;
    calls = t.calls;
    ctx_open = t.ctx_open;
    ctx_pointer = t.ctx_pointer;
    tc_pointer = t.tc_pointer;
    transparent_pointer = t.transparent_pointer;
    xdp_pointer = t.xdp_pointer;
    link = t.link;
    filter = t.filter;
    ring = t.ring;
  }

  -- A call that changes neither the pointers nor the runtime.
  logged-Tracks :
      (e : Event) (s : Loader) (h h' : Held)
      → Tracks lib ifindex s h
      → accept lib e h ≡ some h'
      → pointers h ≡ pointers h'
      → links h ≡ links h'
      → Tracks lib ifindex (logged e s) h'
  logged-Tracks e s h h' t allowed same_pointers same_links = record {
    index = t.index;
    calls = unfold accepts in rw t.calls allowed;
    ctx_open = sym (ap (λ x. x.0) same_pointers) ∙ t.ctx_open;
    ctx_pointer = t.ctx_pointer ∙ ap (λ x. x.0) same_pointers;
    tc_pointer = t.tc_pointer ∙ ap (λ x. x.1) same_pointers;
    transparent_pointer = t.transparent_pointer ∙ ap (λ x. x.2) same_pointers;
    xdp_pointer = t.xdp_pointer ∙ ap (λ x. x.3) same_pointers;
    link = subst (λ x. LinkTracked x.0 s.rt.ifindex s.rt.xdp_flags) same_links t.link;
    filter =
        subst (λ x. FilterTracked x.3 x.1 x.2 s.rt.tc_attached s.rt.tc_hook s.rt.tc_opts) same_links
          t.filter;
    ring = t.ring ∙ ap (λ x. x.4) same_links;
  }

  pub settle-EndsIn :
      (bad : Bool) (code : Code) (e : Event) (s : Loader) (h h' : Held)
      → (bad ≡ true → is_error code ≡ true)
      → Tracks lib ifindex s h
      → accept lib e h ≡ some h'
      → pointers h ≡ pointers h'
      → links h ≡ links h'
      → EndsIn h' (settle bad code e s)
  unfolding settle
  settle-EndsIn true code e s h h' is_bad t allowed same_pointers same_links = (is_bad refl, (h, t))
  settle-EndsIn false code e s h h' is_bad t allowed same_pointers same_links =
      (h', logged-Tracks e s h h' t allowed same_pointers same_links, refl)

  -- The pointer of an object file that was not there, after the call that opens it.
  opens-Tracks :
      (k : Skel) (s : Loader) (h : Held)
      → phase k h ≡ absent
      → Tracks lib ifindex s h
      → Tracks lib ifindex (logged (opens k) (set_skel k true s)) (set_phase k (opened []) h)
  unfolding set_skel accepts accept
  opens-Tracks crypto_ctx s h gone t = absurd (cc)
  opens-Tracks tc_crypto s h gone t = record {
    index = t.index;
    calls = rw (t.calls, accept, gone) refl;
    ctx_open = t.ctx_open;
    ctx_pointer = t.ctx_pointer;
    tc_pointer = refl;
    transparent_pointer = t.transparent_pointer;
    xdp_pointer = t.xdp_pointer;
    link = t.link;
    filter = t.filter;
    ring = t.ring;
  }
  opens-Tracks tc_transparent s h gone t = record {
    index = t.index;
    calls = rw (t.calls, accept, gone) refl;
    ctx_open = t.ctx_open;
    ctx_pointer = t.ctx_pointer;
    tc_pointer = t.tc_pointer;
    transparent_pointer = refl;
    xdp_pointer = t.xdp_pointer;
    link = t.link;
    filter = t.filter;
    ring = t.ring;
  }
  opens-Tracks xdp_crypto s h gone t = record {
    index = t.index;
    calls = rw (t.calls, accept, gone) refl;
    ctx_open = t.ctx_open;
    ctx_pointer = t.ctx_pointer;
    tc_pointer = t.tc_pointer;
    transparent_pointer = t.transparent_pointer;
    xdp_pointer = refl;
    link = t.link;
    filter = t.filter;
    ring = t.ring;
  }

  fails-Tracks :
      (k : Skel) (s : Loader) (h : Held)
      → phase k h ≡ absent
      → Tracks lib ifindex s h
      → Tracks lib ifindex (set_skel k false s) h
  unfolding set_skel
  fails-Tracks crypto_ctx s h gone t = absurd (cc)
  fails-Tracks tc_crypto s h gone t = record {
    index = t.index;
    calls = t.calls;
    ctx_open = t.ctx_open;
    ctx_pointer = t.ctx_pointer;
    tc_pointer = rw gone refl;
    transparent_pointer = t.transparent_pointer;
    xdp_pointer = t.xdp_pointer;
    link = t.link;
    filter = t.filter;
    ring = t.ring;
  }
  fails-Tracks tc_transparent s h gone t = record {
    index = t.index;
    calls = t.calls;
    ctx_open = t.ctx_open;
    ctx_pointer = t.ctx_pointer;
    tc_pointer = t.tc_pointer;
    transparent_pointer = rw gone refl;
    xdp_pointer = t.xdp_pointer;
    link = t.link;
    filter = t.filter;
    ring = t.ring;
  }
  fails-Tracks xdp_crypto s h gone t = record {
    index = t.index;
    calls = t.calls;
    ctx_open = t.ctx_open;
    ctx_pointer = t.ctx_pointer;
    tc_pointer = t.tc_pointer;
    transparent_pointer = t.transparent_pointer;
    xdp_pointer = rw gone refl;
    link = t.link;
    filter = t.filter;
    ring = t.ring;
  }

  opened-EndsIn :
      (ok : Bool) (k : Skel) (s : Loader) (h : Held)
      → ((log : List Event) → 0 < lib.errno log)
      → phase k h ≡ absent
      → Tracks lib ifindex s h
      → EndsIn
          (set_phase k (opened []) h)
          (settle (not ok) (minus (lib.errno s.log)) (opens k) (set_skel k ok s))
  unfolding settle
  opened-EndsIn true k s h pos gone t = (set_phase k (opened []) h, opens-Tracks k s h gone t, refl)
  opened-EndsIn false k s h pos gone t = (ground (arith, pos s.log), (h, fails-Tracks k s h gone t))

  -- An object file that was not there is opened.
  pub open_skel-EndsIn :
      (k : Skel) (s : Loader) (h : Held)
      → ((log : List Event) → 0 < lib.errno log)
      → phase k h ≡ absent
      → Tracks lib ifindex s h
      → EndsIn (set_phase k (opened []) h) (open_skel lib k s)
  unfolding open_skel
  open_skel-EndsIn k s h pos gone t = opened-EndsIn (lib.open_skel k s.log) k s h pos gone t
