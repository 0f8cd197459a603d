-- ===== src/Loader/Steps.antt =====
-- The steps of ebaf_bpf_start: each goes on with a value or jumps to `err_out` with a code, in the
-- state that the steps before it have left.
use Prim.Native.Nat.{bit_or}
use e_ba_f_project.Base.{ℕ, Bool, true, false, ◌&&◌, not, ◌!=◌, if◌then◌else◌}
use e_ba_f_project.Wire.{CryptoConfig}
use e_ba_f_project.CtxProgram.{Code, zero_code, minus}
use e_ba_f_project.Loader.{
  Skel, SharedMap, TcHook, Event, opens, loads, shares, updates_config, runs_ctx, attaches_xdp,
  creates_hook, finds_hook, destroys_hook, attaches_tc, makes_ring, Libbpf, Loader, is_error,
  set_skel, logged,
}

pub data Outcome {ℓ} (A : Type ℓ) : Type ℓ where
  goes_on : A → Outcome A
  err_out : Code → Outcome A

abbrev pub Act {ℓ} : Type ℓ → Type ℓ
Act A = Loader → Outcome A × Loader

infixl 5 ◌>>=◌ ◌>>◌
abbrev pub follow {ℓ κ} :
    {A : Type ℓ} {B : Type κ} → Outcome A × Loader → (A → Act B) → Outcome B × Loader
follow (goes_on a, s) f = f a s
follow (err_out e, s) f = (err_out e, s)

abbrev pub ◌>>=◌ {ℓ κ} : {A : Type ℓ} {B : Type κ} → Act A → (A → Act B) → Act B
(a >>= f) s = follow (a s) f

abbrev pub ◌>>◌ {ℓ} : {B : Type ℓ} → Act (Unit {0}) → Act B → Act B
a >> b = a >>= λ _. b

-- Assignments.
abbrev pub assign : (Loader → Loader) → Act (Unit {0})
assign f s = (goes_on tt, f s)

-- `if (cond) { ... }`
abbrev pub when : Bool → Act (Unit {0}) → Act (Unit {0})
when c a = if c then a else assign (λ s. s)

-- A call that fails with this code, or is logged.
unfoldable pub settle : Bool → Code → Event → Act (Unit {0})
settle bad code e s = if bad then (err_out code, s) else (goes_on tt, logged e s)

abbrev pub driver_mode : ℕ
driver_mode = 4

abbrev pub generic_mode : ℕ
generic_mode = 2

-- XDP_FLAGS_UPDATE_IF_NOEXIST
abbrev pub no_replace : ℕ
no_replace = 1

-- `err && err != -EEXIST`
abbrev pub is_fatal : Code → Bool
is_fatal zero_code = false
is_fatal (minus n) = n != 0 && n != 17

abbrev pub xdp_attached : ℕ → ℕ → ℕ → Loader → Loader
xdp_attached ifindex fd mode s =
    logged (attaches_xdp ifindex fd mode) (record s { rt = record s.rt { xdp_flags = mode } })

module _ (lib : Libbpf) where
  -- `skel = ...__open(); if (!skel) ...`
  unfoldable pub open_skel : Skel → Act (Unit {0})
  unfolding settle set_skel
  open_skel k s =
      let ok = lib.open_skel k s.log in
      settle (not ok) (minus (lib.errno s.log)) (opens k) (set_skel k ok s)

  unfoldable pub load_skel : Skel → Act (Unit {0})
  unfolding settle
  load_skel k s = let err = lib.load_skel k s.log in settle (is_error err) err (loads k) s

  -- `bpf_map__reuse_fd` of a map of `k`, with the descriptor of that map of `owner`.
  unfoldable pub share : Skel → Skel → SharedMap → Act (Unit {0})
  unfolding settle
  share k owner m s =
      let fd = lib.map_fd owner m in
      let err = lib.bpf_map_reuse_fd k m fd s.log in settle (is_error err) err (shares k m fd) s

  unfoldable pub update_config : ℕ → CryptoConfig → Act (Unit {0})
  unfolding settle
  update_config fd config s =
      settle (is_error (lib.bpf_map_update_elem fd config s.log)) (minus (lib.errno s.log))
        (updates_config fd config) s

  -- The run of the context program, and the code that it returned.
  unfoldable pub run_ctx : ℕ → Act (Unit {0})
  unfolding settle
  run_ctx fd s =
      if is_error (lib.bpf_prog_test_run_opts fd s.log)
      then (err_out (minus (lib.errno s.log)), s)
      else let err = lib.retval fd s.log in settle (is_error err) err (runs_ctx fd) s

  unfoldable pub attach_xdp : ℕ → ℕ → Act (Unit {0})
  attach_xdp ifindex fd s =
      let in_driver = lib.bpf_xdp_attach ifindex fd (bit_or driver_mode no_replace) s.log in
      let err = lib.bpf_xdp_attach ifindex fd (bit_or generic_mode no_replace) s.log in
      if not (is_error in_driver)
      then (goes_on tt, xdp_attached ifindex fd driver_mode s)
      else if not (is_error err)
      then (goes_on tt, xdp_attached ifindex fd generic_mode s)
      else (err_out err, s)

  -- The first half of attach_tc: whether the hook was created.
  unfoldable pub create_hook : TcHook → Act Bool
  create_hook hook s =
      let err = lib.bpf_tc_hook_create hook s.log in
      if is_fatal err
      then (err_out err, s)
      else if is_error err
      then (goes_on false, logged (finds_hook hook) s)
      else (goes_on true, logged (creates_hook hook) s)

  -- Its second half.
  unfoldable pub attach_filter : TcHook → ℕ → Bool → Act (Unit {0})
  attach_filter hook fd hook_created s =
      let err = lib.bpf_tc_attach hook fd s.log in
      let opts = record (lib.tc_opts hook fd s.log) { prog_fd = fd } in
      if is_error err
      then (err_out err, if hook_created then logged (destroys_hook hook) s else s)
      else (
        goes_on tt,
        logged (attaches_tc hook opts)
            (record s { rt = record s.rt { tc_hook = hook; tc_opts = opts; tc_attached = true } }),
      )

  unfoldable pub attach_tc : ℕ → ℕ → ℕ → Act (Unit {0})
  unfolding create_hook attach_filter
  attach_tc ifindex fd point =
      let hook : TcHook = record { ifindex = ifindex; attach_point = point } in
      create_hook hook >>= attach_filter hook fd

  unfoldable pub make_ring : ℕ → Act (Unit {0})
  unfolding settle
  make_ring fd s =
      let ok = lib.ring_buffer_new fd s.log in
      settle (not ok) (minus (lib.errno s.log)) (makes_ring fd)
        (record s { rt = record s.rt { event_ring = ok } })
