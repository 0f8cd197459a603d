-- ===== src/Loader/Context.antt =====
-- The crypto context that ebaf_bpf_start of src/user/bpf_loader.c lets the context program make.
use e_ba_f_project.Base.{
  ℕ, ◌<◌, ◌≡◌, refl, ◌∙◌, Bool, true, false, Option, none, some, List, arith, if◌then◌else◌,
}
use e_ba_f_project.Wire.{CryptoConfig}
use e_ba_f_project.Config.Args.{UserConfig}
use e_ba_f_project.CtxProgram.{minus}
use e_ba_f_project.Loader.{
  Skel, crypto_ctx, tc_crypto, tc_transparent, xdp_crypto, crypto_config, Event, updates_config,
  runs_ctx, Libbpf, Loader, is_error,
}
use e_ba_f_project.Loader.Steps.{err_out, when, settle, update_config, run_ctx}
use e_ba_f_project.Loader.Start.{wants_tc, wants_transparent, tc_program, open_tc, make_context}
use e_ba_f_project.Loader.Held.{loaded, Held, phase, set_phase, is_none, accept}
use e_ba_f_project.Loader.Tracks.{Tracks}
use e_ba_f_project.Loader.Progress.{
  links, Ends, EndsIn, Ends-weaken, follow-EndsIn, settle-EndsIn, assigned-Tracks,
}
use e_ba_f_project.Loader.Opening.{IsTc, held_xdp, open_tc-EndsIn}

either-IsTc : (b : Bool) → IsTc (if b then tc_transparent else tc_crypto)
either-IsTc true = tt
either-IsTc false = tt

pub tc_program-IsTc : (cfg : UserConfig) → IsTc (tc_program cfg)
unfolding tc_program
tc_program-IsTc cfg = either-IsTc (wants_transparent cfg)

-- The object files that the configuration asks for are loaded, and nothing is attached.
pub record HasPrograms (cfg : UserConfig) (h : Held) : Type 0 where
  pub ctx : h.ctx ≡ loaded
  pub xdp : h.xdp ≡ loaded
  pub tc : wants_tc cfg ≡ true → phase (tc_program cfg) h ≡ loaded
  pub unlinked : links h ≡ (none, none, none, none, false)

-- The configuration is in the map, and the crypto context is made of it.
pub record HasContext (cfg : UserConfig) (h : Held) : Type 0 where
  pub programs : HasPrograms cfg h
  pub configured : h.configured ≡ some cfg.crypto
  pub context : h.context ≡ true

phase_kept :
    (k : Skel) (h : Held) (config : Option CryptoConfig) (made : Bool)
    → phase k (record h { configured = config; context = made }) ≡ phase k h
phase_kept crypto_ctx h config made = refl
phase_kept tc_crypto h config made = refl
phase_kept tc_transparent h config made = refl
phase_kept xdp_crypto h config made = refl

module _ (lib : Libbpf) (ifindex : ℕ) (errno_set : (log : List Event) → 0 < lib.errno log)
    (cfg : UserConfig) where
  programs-tc :
      (k : Skel) → IsTc k → tc_program cfg ≡ k → HasPrograms cfg (set_phase k loaded held_xdp)
  programs-tc crypto_ctx tc same = elim tc [ ]
  programs-tc tc_crypto tc same = record {
    ctx = refl;
    xdp = refl;
    tc = λ wanted. rw same refl;
    unlinked = refl;
  }
  programs-tc tc_transparent tc same = record {
    ctx = refl;
    xdp = refl;
    tc = λ wanted. rw same refl;
    unlinked = refl;
  }
  programs-tc xdp_crypto tc same = elim tc [ ]

  pub open_programs :
      (wanted : Bool) (s : Loader)
      → wants_tc cfg ≡ wanted
      → Tracks lib ifindex s held_xdp
      → Ends lib ifindex (HasPrograms cfg) (when wanted (open_tc lib cfg (tc_program cfg)) s)
  open_programs true s same t =
      Ends-weaken lib ifindex _ (HasPrograms cfg) _
        (open_tc-EndsIn lib ifindex errno_set cfg (tc_program cfg) s (tc_program-IsTc cfg) t)
        λ h e. rw e (programs-tc (tc_program cfg) (tc_program-IsTc cfg) refl)
  open_programs false s same t =
      (held_xdp, t, record { ctx = refl; xdp = refl; tc = λ wanted. cc; unlinked = refl })

  abbrev configure : Held → Held
  configure h = record h { configured = some cfg.crypto }

  update_config-EndsIn :
      (s : Loader) (h : Held)
      → h.ctx ≡ loaded
      → Tracks lib ifindex s h
      → EndsIn lib ifindex
          (configure h)
          (update_config lib (lib.map_fd crypto_ctx crypto_config) cfg.crypto s)
  unfolding update_config accept
  update_config-EndsIn s h ctx t =
      let fd = lib.map_fd crypto_ctx crypto_config in
      settle-EndsIn lib ifindex _ (minus (lib.errno s.log)) (updates_config fd cfg.crypto) s h
        (configure h) (λ bad. ground (arith, errno_set s.log)) t (ground (arith, ctx)) refl refl

  ran-EndsIn :
      (bad : Bool) (s : Loader) (h : Held)
      → is_none h.configured ≡ false
      → Tracks lib ifindex s h
      → EndsIn lib ifindex
          (record h { context = true })
          (if bad
            then (err_out (minus (lib.errno s.log)), s)
            else let err = lib.retval (lib.prog_fd crypto_ctx) s.log in
              settle (is_error err) err (runs_ctx (lib.prog_fd crypto_ctx)) s)
  unfolding accept
  ran-EndsIn true s h given t = (ground (arith, errno_set s.log), (h, t))
  ran-EndsIn false s h given t =
      settle-EndsIn lib ifindex _ (lib.retval (lib.prog_fd crypto_ctx) s.log)
        (runs_ctx (lib.prog_fd crypto_ctx)) s h (record h { context = true }) (λ e. e) t
        (ground (arith, given)) refl refl

  run_ctx-EndsIn :
      (s : Loader) (h : Held)
      → is_none h.configured ≡ false
      → Tracks lib ifindex s h
      → EndsIn lib ifindex (record h { context = true }) (run_ctx lib (lib.prog_fd crypto_ctx) s)
  unfolding run_ctx
  run_ctx-EndsIn s h given t =
      ran-EndsIn (is_error (lib.bpf_prog_test_run_opts (lib.prog_fd crypto_ctx) s.log)) s h given t

  pub make_context-Ends :
      (s : Loader) (h : Held)
      → HasPrograms cfg h
      → Tracks lib ifindex s h
      → Ends lib ifindex (HasContext cfg) (make_context lib cfg s)
  unfolding make_context
  make_context-Ends s h p t =
      let config_fd = some (lib.map_fd crypto_ctx crypto_config) in
      let named =
        assigned-Tracks lib ifindex s h s.rt.xdp_prog_fd s.rt.stats_map_fd config_fd s.jsonl t in
      follow-EndsIn lib ifindex (configure h) (HasContext cfg) _ _
        (update_config-EndsIn _ h p.ctx named)
        λ s t.
          Ends-weaken lib ifindex _ (HasContext cfg) _ (run_ctx-EndsIn s (configure h) refl t)
            λ h' e. rw e (record {
              programs = record {
                ctx = p.ctx;
                xdp = p.xdp;
                tc = λ wanted. phase_kept (tc_program cfg) h (some cfg.crypto) true ∙ p.tc wanted;
                unlinked = p.unlinked;
              };
              configured = refl;
              context = refl;
            })
