-- ===== src/Loader/Attached.antt =====
-- What ebaf_bpf_start of src/user/bpf_loader.c attaches, by the loader's own tests.
use mathlib.Core.Path.{subst}
use e_ba_f_project.Base.{
  ℕ, ◌<◌, ◌≡◌, refl, sym, ◌∙◌, ◌⊎◌, Bool, true, false, Option, none, some, List, ap,
}
use e_ba_f_project.Config.Args.{UserConfig}
use e_ba_f_project.Loader.{
  Skel, crypto_ctx, tc_crypto, tc_transparent, xdp_crypto, TcHook, TcOpts, Event, Libbpf, Loader,
}
use e_ba_f_project.Loader.Steps.{when, driver_mode, generic_mode, attach_xdp, attach_tc}
use e_ba_f_project.Loader.Start.{wants_xdp, wants_tc, tc_program, attach_point, attach_all}
use e_ba_f_project.Loader.Held.{loaded, Held, phase}
use e_ba_f_project.Loader.Tracks.{Tracks}
use e_ba_f_project.Loader.Progress.{Ends, Ends-weaken, follow-Ends, assigned-Tracks}
use e_ba_f_project.Loader.Context.{HasContext, tc_program-IsTc}
use e_ba_f_project.Loader.Attaching.{attach_xdp-Ends}
use e_ba_f_project.Loader.Filtering.{IsUnhooked, filtered, attach_hook-Ends}

-- The XDP program is attached if it is wanted, in one of the two modes.
abbrev pub IsLinked : Bool → ℕ → Option (ℕ × ℕ) → Type 0
IsLinked true ifindex link =
    (mode : ℕ) × ((mode ≡ driver_mode) ⊎ (mode ≡ generic_mode)) × (link ≡ some (ifindex, mode))
IsLinked false ifindex link = link ≡ none

-- The filter is attached if it is wanted: the program and the hook are those of the configuration.
abbrev pub IsFiltered : Bool → TcHook → ℕ → Option (TcHook × TcOpts) → Type 0
IsFiltered true hook fd filter =
    (opts : TcOpts) × (opts.prog_fd ≡ fd) × (filter ≡ some (hook, opts))
IsFiltered false hook fd filter = filter ≡ none

abbrev pub tc_hook_of : UserConfig → ℕ → TcHook
tc_hook_of cfg ifindex = record { ifindex = ifindex; attach_point = attach_point cfg }

-- The crypto context is made of the configuration, and what the loader's own tests ask for is
-- attached.
pub record IsAttached (lib : Libbpf) (cfg : UserConfig) (ifindex : ℕ) (h : Held) : Type 0 where
  pub configured : h.configured ≡ some cfg.crypto
  pub context : h.context ≡ true
  pub xdp : h.xdp ≡ loaded
  pub linked : IsLinked (wants_xdp cfg) ifindex h.xdp_link
  pub filtered :
      IsFiltered (wants_tc cfg) (tc_hook_of cfg ifindex) (lib.prog_fd (tc_program cfg)) h.filter

-- Before the ring buffer is opened.
abbrev pub IsUnwatched : Libbpf → UserConfig → ℕ → Held → Type 0
IsUnwatched lib cfg ifindex h = IsAttached lib cfg ifindex h × (h.ring ≡ false)

phase_linked :
    (k : Skel) (h : Held) (link : Option (ℕ × ℕ))
    → phase k (record h { xdp_link = link }) ≡ phase k h
phase_linked crypto_ctx h link = refl
phase_linked tc_crypto h link = refl
phase_linked tc_transparent h link = refl
phase_linked xdp_crypto h link = refl

module _ (lib : Libbpf) (cfg : UserConfig) (ifindex : ℕ)
    (errno_set : (log : List Event) → 0 < lib.errno log) (named : 0 < ifindex) where
  abbrev LinkedAs : Bool → Held → Held → Type 0
  LinkedAs wanted h h' =
      (link : Option (ℕ × ℕ)) × IsLinked wanted ifindex link × (h' ≡ record h { xdp_link = link })

  link_if :
      (wanted : Bool) (s : Loader) (h : Held)
      → HasContext cfg h
      → Tracks lib ifindex s h
      → Ends lib ifindex
          (LinkedAs wanted h)
          (when wanted (attach_xdp lib ifindex (lib.prog_fd xdp_crypto)) s)
  link_if true s h made t =
      Ends-weaken lib ifindex _ (LinkedAs true h) _
        (attach_xdp-Ends lib ifindex named s h made.context made.programs.xdp
          (ap (λ x. x.0) made.programs.unlinked) t)
        λ h' (mode, known, same). (some (ifindex, mode), (mode, known, refl), same)
  link_if false s h made t =
      (h, t, (none, refl, ap (λ x. record h { xdp_link = x.0 }) made.programs.unlinked))

  unhooked :
      (h : Held) (link : Option (ℕ × ℕ))
      → HasContext cfg h
      → wants_tc cfg ≡ true
      → IsUnhooked (tc_program cfg) (record h { xdp_link = link })
  unhooked h link made wanted = record {
    context = made.context;
    program = phase_linked (tc_program cfg) h link ∙ made.programs.tc wanted;
    no_hook = ap (λ x. x.1) made.programs.unlinked;
    no_filter = ap (λ x. x.3) made.programs.unlinked;
  }

  -- The attachments, once the context is there.
  attached_to :
      (h h' : Held) (link : Option (ℕ × ℕ)) (filter : Option (TcHook × TcOpts))
      → HasContext cfg h
      → IsLinked (wants_xdp cfg) ifindex link
      → IsFiltered (wants_tc cfg) (tc_hook_of cfg ifindex) (lib.prog_fd (tc_program cfg)) filter
      → (hook found : Option TcHook)
      → h' ≡ record h { xdp_link = link; hook = hook; found = found; filter = filter }
      → IsUnwatched lib cfg ifindex h'
  attached_to h h' link filter made linked on_hook hook found same =
      subst (λ x. IsUnwatched lib cfg ifindex x) (sym same)
        (
          record {
            configured = made.configured;
            context = made.context;
            xdp = made.programs.xdp;
            linked = linked;
            filtered = on_hook;
          },
          ap (λ x. x.4) made.programs.unlinked,
        )

  filter_done :
      (created : Bool) (opts : TcOpts) (h h' : Held) (link : Option (ℕ × ℕ))
      → wants_tc cfg ≡ true
      → HasContext cfg h
      → IsLinked (wants_xdp cfg) ifindex link
      → opts.prog_fd ≡ lib.prog_fd (tc_program cfg)
      → h' ≡ filtered created (tc_hook_of cfg ifindex) opts (record h { xdp_link = link })
      → IsUnwatched lib cfg ifindex h'
  filter_done true opts h h' link wanted made linked of_program same =
      attached_to h h' link (some (tc_hook_of cfg ifindex, opts)) made linked
        (rw wanted (opts, of_program, refl)) (some (tc_hook_of cfg ifindex)) h.found same
  filter_done false opts h h' link wanted made linked of_program same =
      attached_to h h' link (some (tc_hook_of cfg ifindex, opts)) made linked
        (rw wanted (opts, of_program, refl)) h.hook (some (tc_hook_of cfg ifindex)) same

  filter_if :
      (wanted : Bool) (s : Loader) (h : Held) (link : Option (ℕ × ℕ))
      → wants_tc cfg ≡ wanted
      → HasContext cfg h
      → IsLinked (wants_xdp cfg) ifindex link
      → Tracks lib ifindex s (record h { xdp_link = link })
      → Ends lib ifindex
          (IsUnwatched lib cfg ifindex)
          (when wanted (attach_tc lib ifindex (lib.prog_fd (tc_program cfg)) (attach_point cfg)) s)
  unfolding attach_tc
  filter_if true s h link wanted made linked t =
      Ends-weaken lib ifindex _ (IsUnwatched lib cfg ifindex) _
        (attach_hook-Ends lib ifindex (tc_hook_of cfg ifindex) (tc_program cfg)
          (tc_program-IsTc cfg) s (record h { xdp_link = link }) (unhooked h link made wanted) t)
        λ h' (opts, created, of_program, same).
          filter_done created opts h h' link wanted made linked of_program same
  filter_if false s h link wanted made linked t =
      let unhooked =
        ap (λ x. record h { xdp_link = link; hook = x.1; found = x.2; filter = x.3 })
          made.programs.unlinked in
      let same : record h { xdp_link = link }
          ≡ record h { xdp_link = link; hook = none; found = none; filter = none } =
        unhooked in
      (
        record h { xdp_link = link },
        t,
        attached_to h (record h { xdp_link = link }) link none made linked (rw wanted refl) none
            none same,
      )

  pub attach_all-Ends :
      (s : Loader) (h : Held)
      → HasContext cfg h
      → Tracks lib ifindex s h
      → Ends lib ifindex (IsUnwatched lib cfg ifindex) (attach_all lib cfg ifindex s)
  unfolding attach_all
  attach_all-Ends s h made t =
      let fd = some (lib.prog_fd xdp_crypto) in
      let named =
        assigned-Tracks lib ifindex s h fd s.rt.stats_map_fd s.rt.config_map_fd s.jsonl t in
      follow-Ends lib ifindex (LinkedAs (wants_xdp cfg) h) (IsUnwatched lib cfg ifindex) _ _
        (link_if (wants_xdp cfg) _ h made named)
        λ s' h' t' (link, linked, same).
          filter_if (wants_tc cfg) s' h link refl made linked
            (subst (λ x. Tracks lib ifindex s' x) same t')
