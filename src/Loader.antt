-- ===== src/Loader.antt =====
-- src/user/bpf_loader.c and src/user/bpf_loader.h: how ebaf-crypto brings its programs into the
-- kernel and takes them out again. libbpf, the generated skeletons and the kernel behind them are
-- parameters; a run keeps the log of the calls that succeeded.
pub mod Asked
pub mod Steps
pub mod Start
pub mod Held
pub mod Tracks
pub mod Progress
pub mod Opening
pub mod Context
pub mod Attaching
pub mod Filtering
pub mod Found
pub mod Attached
pub mod Watching
pub mod Released
use e_ba_f_project.Base.{ℕ, zero, Bool, true, false, Option, none, some, List, [], ◌∷◌, ◌!=◌}
use e_ba_f_project.Wire.{CryptoConfig}
use e_ba_f_project.CtxProgram.{Code, zero_code, minus}

-- The static skeleton pointers, by the programs they hold.
pub data Skel : Type 0 where
  crypto_ctx tc_crypto tc_transparent xdp_crypto : Skel

-- The maps that the programs share.
pub data SharedMap : Type 0 where
  crypto_config crypto_ctx_map crypto_stats crypto_events : SharedMap

pub record TcHook : Type 0 where
  pub ifindex : ℕ
  pub attach_point : ℕ

-- The handle and the priority are those that bpf_tc_attach fills in.
pub record TcOpts : Type 0 where
  pub prog_fd : ℕ
  pub handle : ℕ
  pub priority : ℕ

-- A call that succeeded or that cannot fail, with what it was called on.
pub data Event : Type 0 where
  opens loads destroys : Skel → Event
  shares : Skel → SharedMap → ℕ → Event
  updates_config : ℕ → CryptoConfig → Event
  runs_ctx : ℕ → Event
  attaches_xdp : ℕ → ℕ → ℕ → Event
  detaches_xdp : ℕ → ℕ → Event
  creates_hook finds_hook destroys_hook : TcHook → Event
  attaches_tc detaches_tc : TcHook → TcOpts → Event
  makes_ring : ℕ → Event
  frees_ring : Event

-- What the calls give, given the calls before them. An `int` that is 0 or negative is a `Code`,
-- a pointer is whether it is not NULL.
pub record Libbpf : Type 0 where
  pub errno : List Event → ℕ
  pub if_nametoindex : List ℕ → ℕ
  pub open_skel : Skel → List Event → Bool
  pub load_skel : Skel → List Event → Code
  pub map_fd : Skel → SharedMap → ℕ
  pub prog_fd : Skel → ℕ
  pub bpf_map_reuse_fd : Skel → SharedMap → ℕ → List Event → Code
  pub bpf_map_update_elem : ℕ → CryptoConfig → List Event → Code
  pub bpf_prog_test_run_opts : ℕ → List Event → Code
  pub retval : ℕ → List Event → Code
  pub bpf_xdp_attach : ℕ → ℕ → ℕ → List Event → Code
  pub bpf_tc_hook_create : TcHook → List Event → Code
  pub bpf_tc_attach : TcHook → ℕ → List Event → Code
  pub tc_opts : TcHook → ℕ → List Event → TcOpts
  pub ring_buffer_new : ℕ → List Event → Bool

-- struct ebaf_bpf_runtime: `none` is the descriptor -1, `event_ring` whether it is not NULL.
pub record Runtime : Type 0 where
  pub ifindex : ℕ
  pub xdp_prog_fd : Option ℕ
  pub xdp_flags : ℕ
  pub stats_map_fd : Option ℕ
  pub config_map_fd : Option ℕ
  pub event_ring : Bool
  pub tc_hook : TcHook
  pub tc_opts : TcOpts
  pub tc_attached : Bool

-- The static variables, each pointer as whether it is not NULL, the runtime, and the calls so far,
-- the last one first.
pub record Loader : Type 0 where
  pub ctx_skel : Bool
  pub tc_skel : Bool
  pub tc_transparent_skel : Bool
  pub xdp_skel : Bool
  pub jsonl : Bool
  pub rt : Runtime
  pub log : List Event

abbrev pub no_hook : TcHook
no_hook = record { ifindex = 0; attach_point = 0 }

abbrev pub no_opts : TcOpts
no_opts = record { prog_fd = 0; handle = 0; priority = 0 }

-- The runtime after memset and the assignments that follow it, and as ebaf_bpf_stop leaves it.
abbrev pub cleared : Runtime
cleared = record {
  ifindex = 0;
  xdp_prog_fd = none;
  xdp_flags = 0;
  stats_map_fd = none;
  config_map_fd = none;
  event_ring = false;
  tc_hook = no_hook;
  tc_opts = no_opts;
  tc_attached = false;
}

-- `err != 0`
abbrev pub is_error : Code → Bool
is_error zero_code = false
is_error (minus n) = n != 0

unfoldable pub set_skel : Skel → Bool → Loader → Loader
set_skel crypto_ctx b s = record s { ctx_skel = b }
set_skel tc_crypto b s = record s { tc_skel = b }
set_skel tc_transparent b s = record s { tc_transparent_skel = b }
set_skel xdp_crypto b s = record s { xdp_skel = b }

abbrev pub logged : Event → Loader → Loader
logged e s = record s { log = e ∷ s.log }
