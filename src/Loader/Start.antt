-- ===== src/Loader/Start.antt =====
-- ebaf_bpf_start and ebaf_bpf_stop of src/user/bpf_loader.c.
use Prim.Native.Nat.{bit_and}
use e_ba_f_project.Base.{
  ℕ, Bool, true, false, ◌||◌, ◌&&◌, some, ◌==◌, ◌!=◌, ltb, List, ◌∷◌, if◌then◌else◌,
}
use e_ba_f_project.Wire.{action_decrypt, crypto_f_transparent}
use e_ba_f_project.CtxProgram.{Code, zero_code, minus}
use e_ba_f_project.Config.Args.{
  UserConfig, hook_xdp, hook_tc, hook_both, tc_attach_ingress, tc_attach_egress,
}
use e_ba_f_project.Loader.{
  Skel, crypto_ctx, tc_crypto, tc_transparent, xdp_crypto, crypto_config, crypto_ctx_map,
  crypto_stats, crypto_events, Event, opens, destroys, detaches_xdp, destroys_hook, detaches_tc,
  frees_ring, Libbpf, Runtime, Loader, cleared, set_skel, logged,
}
use e_ba_f_project.Loader.Steps.{
  Outcome, goes_on, err_out, Act, ◌>>◌, assign, when, open_skel, load_skel, share, update_config,
  run_ctx, attach_xdp, attach_tc, make_ring,
}

abbrev pub ingress : ℕ
ingress = 1

abbrev pub egress : ℕ
egress = 2

abbrev pub wants_xdp : UserConfig → Bool
wants_xdp cfg = cfg.hook == hook_xdp || cfg.hook == hook_both

abbrev pub wants_tc : UserConfig → Bool
wants_tc cfg = cfg.hook == hook_tc || cfg.hook == hook_both

abbrev pub wants_transparent : UserConfig → Bool
wants_transparent cfg = bit_and cfg.crypto.flags crypto_f_transparent != 0

unfoldable pub attach_point : UserConfig → ℕ
attach_point cfg =
    if cfg.tc_attach == tc_attach_ingress
    then ingress
    else if cfg.tc_attach == tc_attach_egress
    then egress
    else if cfg.crypto.action == action_decrypt
    then ingress
    else egress

-- The program for the TC hook.
unfoldable pub tc_program : UserConfig → Skel
tc_program cfg = if wants_transparent cfg then tc_transparent else tc_crypto

-- The calls that release what the runtime and a pointer stand for; those on a pointer that is NULL
-- do nothing.
unfoldable pub release_xdp : Runtime → List Event → List Event
release_xdp rt log =
    if ltb 0 rt.ifindex && rt.xdp_flags != 0
    then detaches_xdp rt.ifindex rt.xdp_flags ∷ log
    else log

unfoldable pub release_tc : Runtime → List Event → List Event
release_tc rt log =
    if rt.tc_attached
    then destroys_hook rt.tc_hook ∷ detaches_tc rt.tc_hook rt.tc_opts ∷ log
    else log

unfoldable pub release_ring : Runtime → List Event → List Event
release_ring rt log = if rt.event_ring then frees_ring ∷ log else log

unfoldable pub destroy_skel : Skel → Bool → List Event → List Event
destroy_skel k pointer log = if pointer then destroys k ∷ log else log

unfoldable pub stop : Loader → Loader
unfolding destroy_skel release_xdp release_tc release_ring
stop s =
    let released = release_ring s.rt (release_tc s.rt (release_xdp s.rt s.log)) in
    let without_tc =
      destroy_skel tc_transparent s.tc_transparent_skel
        (destroy_skel tc_crypto s.tc_skel released) in
    let destroyed =
      destroy_skel crypto_ctx s.ctx_skel (destroy_skel xdp_crypto s.xdp_skel without_tc) in
    record {
      ctx_skel = false;
      tc_skel = false;
      tc_transparent_skel = false;
      xdp_skel = false;
      jsonl = s.jsonl;
      rt = cleared;
      log = destroyed;
    }

module _ (lib : Libbpf) (cfg : UserConfig) where
  -- The two branches of the TC hook differ in the skeleton only.
  unfoldable pub open_tc : Skel → Act (Unit {0})
  unfolding open_skel share load_skel
  open_tc k = do
    open_skel lib k
    share lib k crypto_ctx crypto_config
    share lib k crypto_ctx crypto_ctx_map
    share lib k xdp_crypto crypto_stats
    share lib k xdp_crypto crypto_events
    load_skel lib k

  -- Up to the load of the XDP program.
  unfoldable pub open_xdp : Act (Unit {0})
  unfolding open_skel share load_skel
  open_xdp = do
    load_skel lib crypto_ctx
    open_skel lib xdp_crypto
    share lib xdp_crypto crypto_ctx crypto_config
    share lib xdp_crypto crypto_ctx crypto_ctx_map
    load_skel lib xdp_crypto

  -- The configuration and the crypto context that the context program makes of it.
  unfoldable pub make_context : Act (Unit {0})
  unfolding update_config run_ctx
  make_context = do
    assign (λ s. record s {
      rt = record s.rt { config_map_fd = some (lib.map_fd crypto_ctx crypto_config) };
    })
    update_config lib (lib.map_fd crypto_ctx crypto_config) cfg.crypto
    run_ctx lib (lib.prog_fd crypto_ctx)

  unfoldable pub attach_all : ℕ → Act (Unit {0})
  unfolding attach_xdp attach_tc attach_point tc_program
  attach_all ifindex = do
    assign (λ s. record s { rt = record s.rt { xdp_prog_fd = some (lib.prog_fd xdp_crypto) } })
    when (wants_xdp cfg) (attach_xdp lib ifindex (lib.prog_fd xdp_crypto))
    when (wants_tc cfg) (attach_tc lib ifindex (lib.prog_fd (tc_program cfg)) (attach_point cfg))

  unfoldable pub watch_events : Act (Unit {0})
  unfolding make_ring
  watch_events = do
    assign (λ s. record s {
      rt = record s.rt { stats_map_fd = some (lib.map_fd xdp_crypto crypto_stats) };
      jsonl = cfg.output_jsonl;
    })
    make_ring lib (lib.map_fd xdp_crypto crypto_events)

  -- What can jump to `err_out`.
  unfoldable pub start_programs : ℕ → Act (Unit {0})
  unfolding open_xdp open_tc make_context attach_all watch_events tc_program
  start_programs ifindex = do
    open_xdp
    when (wants_tc cfg) (open_tc (tc_program cfg))
    make_context
    attach_all ifindex
    watch_events

  -- `err_out`, or the end of the function.
  unfoldable pub conclude : Outcome (Unit {0}) × Loader → Code × Loader
  unfolding stop
  conclude (goes_on a, s) = (zero_code, s)
  conclude (err_out e, s) = (e, stop s)

  -- The return value and the state that is left. Neither pointer is NULL.
  unfoldable pub start : Loader → Code × Loader
  unfolding conclude start_programs
  start s =
      let ifindex = lib.if_nametoindex cfg.iface in
      let named = record s { rt = record cleared { ifindex = ifindex } } in
      if ifindex == 0
      then (minus (lib.errno s.log), named)
      else if lib.open_skel crypto_ctx s.log
      then conclude
          (start_programs ifindex (set_skel crypto_ctx true (logged (opens crypto_ctx) named)))
      else (minus (lib.errno s.log), set_skel crypto_ctx false named)

-- ebaf_bpf_poll_events; 22 is EINVAL, and the poll itself is a call of libbpf.
unfoldable pub poll_events : Runtime → (ℕ → Code) → ℕ → Code
poll_events rt ring_buffer_poll timeout_ms =
    if rt.event_ring then ring_buffer_poll timeout_ms else minus 22
