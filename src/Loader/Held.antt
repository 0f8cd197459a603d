-- ===== src/Loader/Held.antt =====
-- What the calls of the loader hold, and in which order they may come: an automaton over the calls,
-- which knows nothing of how the loader keeps its state.
use e_ba_f_project.Base.{
  ℕ, Bool, true, false, ◌&&◌, ◌||◌, not, Option, none, some, List, [], ◌∷◌, ◌==◌, if◌then◌else◌,
}
use e_ba_f_project.Wire.{CryptoConfig}
use e_ba_f_project.Loader.{
  Skel, crypto_ctx, tc_crypto, tc_transparent, xdp_crypto, SharedMap, crypto_config, crypto_ctx_map,
  crypto_stats, crypto_events, TcHook, TcOpts, Event, opens, loads, destroys, shares,
  updates_config, runs_ctx, attaches_xdp, detaches_xdp, creates_hook, finds_hook, destroys_hook,
  attaches_tc, detaches_tc, makes_ring, frees_ring, Libbpf,
}

-- An object file: not there, opened with these maps given to it, or loaded.
pub data Phase : Type 0 where
  absent : Phase
  opened : List SharedMap → Phase
  loaded : Phase

-- `xdp_link` is the interface and the mode of the attached XDP program, `hook` the TC hook that was
-- created, `found` the one that was there before. A hook is a direction of the qdisc `clsact`, which
-- stays once it is created: only a call of bpf_tc_hook_destroy for both directions would remove it.
pub record Held : Type 0 where
  pub ctx : Phase
  pub tc : Phase
  pub transparent : Phase
  pub xdp : Phase
  pub configured : Option CryptoConfig
  pub context : Bool
  pub xdp_link : Option (ℕ × ℕ)
  pub hook : Option TcHook
  pub found : Option TcHook
  pub filter : Option (TcHook × TcOpts)
  pub ring : Bool

abbrev pub nothing : Held
nothing = record {
  ctx = absent;
  tc = absent;
  transparent = absent;
  xdp = absent;
  configured = none;
  context = false;
  xdp_link = none;
  hook = none;
  found = none;
  filter = none;
  ring = false;
}

abbrev pub phase : Skel → Held → Phase
phase crypto_ctx h = h.ctx
phase tc_crypto h = h.tc
phase tc_transparent h = h.transparent
phase xdp_crypto h = h.xdp

abbrev pub set_phase : Skel → Phase → Held → Held
set_phase crypto_ctx p h = record h { ctx = p }
set_phase tc_crypto p h = record h { tc = p }
set_phase tc_transparent p h = record h { transparent = p }
set_phase xdp_crypto p h = record h { xdp = p }

abbrev pub present : Phase → Bool
present absent = false
present (opened maps) = true
present loaded = true

abbrev pub is_loaded : Phase → Bool
is_loaded absent = false
is_loaded (opened maps) = false
is_loaded loaded = true

abbrev pub is_none {ℓ} : {A : Type ℓ} → Option A → Bool
is_none none = true
is_none (some a) = false

-- The object file that a map comes from.
abbrev pub owner : SharedMap → Skel
owner crypto_config = crypto_ctx
owner crypto_ctx_map = crypto_ctx
owner crypto_stats = xdp_crypto
owner crypto_events = xdp_crypto

abbrev pub map_code : SharedMap → ℕ
map_code crypto_config = 0
map_code crypto_ctx_map = 1
map_code crypto_stats = 2
map_code crypto_events = 3

abbrev pub has : SharedMap → List SharedMap → Bool
has m [] = false
has m (x ∷ maps) = map_code m == map_code x || has m maps

-- The maps that a program must be given before it is loaded.
abbrev pub covers : Skel → List SharedMap → Bool
covers crypto_ctx maps = true
covers xdp_crypto maps = has crypto_config maps && has crypto_ctx_map maps
covers k maps =
    has crypto_config maps
    && has crypto_ctx_map maps
    && has crypto_stats maps
    && has crypto_events maps

-- An object file whose program is attached, or whose map is read, is not destroyed.
abbrev pub idle : Skel → Held → Bool
idle crypto_ctx h = true
idle xdp_crypto h = is_none h.xdp_link && not h.ring
idle k h = is_none h.filter

abbrev pub same_hook : TcHook → TcHook → Bool
same_hook a b = a.ifindex == b.ifindex && a.attach_point == b.attach_point

abbrev pub is_hook : TcHook → Option TcHook → Bool
is_hook hook none = false
is_hook hook (some there) = same_hook hook there

abbrev pub same_opts : TcOpts → TcOpts → Bool
same_opts a b = a.prog_fd == b.prog_fd && a.handle == b.handle && a.priority == b.priority

abbrev pub permit : Bool → Held → Option Held
permit true h = some h
permit false h = none

module _ (lib : Libbpf) where
  abbrev pub opening : Skel → Phase → Held → Option Held
  opening k absent h = some (set_phase k (opened []) h)
  opening k other h = none

  abbrev pub sharing : Skel → SharedMap → ℕ → Phase → Held → Option Held
  sharing k m fd (opened maps) h =
      permit (is_loaded (phase (owner m) h) && fd == lib.map_fd (owner m) m)
        (set_phase k (opened (m ∷ maps)) h)
  sharing k m fd other h = none

  abbrev pub loading : Skel → Phase → Held → Option Held
  loading k (opened maps) h = permit (covers k maps) (set_phase k loaded h)
  loading k other h = none

  -- With the context program its maps go, and what is in them.
  abbrev pub destroying : Skel → Held → Held
  destroying crypto_ctx h = record h { ctx = absent; configured = none; context = false }
  destroying k h = set_phase k absent h

  -- A filter can be attached where its hook is there and its program is loaded.
  abbrev pub filtering : TcHook → TcOpts → Held → Option Held
  filtering hook opts h =
      permit
        (h.context
          && is_none h.filter
          && (is_hook hook h.hook || is_hook hook h.found)
          && (is_loaded h.tc && opts.prog_fd == lib.prog_fd tc_crypto
              || is_loaded h.transparent && opts.prog_fd == lib.prog_fd tc_transparent))
        (record h { filter = some (hook, opts) })

  -- bpf_tc_detach refuses options that name a program, as those do that bpf_tc_attach was given and
  -- filled in: the filter stays.
  abbrev pub unfiltering : TcHook → TcOpts → Option (TcHook × TcOpts) → Held → Option Held
  unfiltering hook opts none h = none
  unfiltering hook opts (some (hook', opts')) h =
      permit (same_hook hook hook' && same_opts opts opts') h

  -- The filter, unless it is on the hook that is flushed.
  abbrev pub flushed : TcHook → Option (TcHook × TcOpts) → Option (TcHook × TcOpts)
  flushed hook none = none
  flushed hook (some (hook', opts)) = if same_hook hook hook' then none else some (hook', opts)

  abbrev pub unlinking : ℕ → ℕ → Option (ℕ × ℕ) → Held → Option Held
  unlinking ifindex mode none h = none
  unlinking ifindex mode (some (ifindex', mode')) h =
      permit (ifindex == ifindex' && mode == mode') (record h { xdp_link = none })

  -- What is held after a call, `none` where the call may not come. The releases of the XDP program,
  -- of the ring and of the object files succeed, and so does bpf_tc_hook_destroy, which for one
  -- direction flushes the filters on it and leaves the qdisc.
  unfoldable pub accept : Event → Held → Option Held
  accept (opens k) h = opening k (phase k h) h
  accept (shares k m fd) h = sharing k m fd (phase k h) h
  accept (loads k) h = loading k (phase k h) h
  accept (destroys k) h = permit (present (phase k h) && idle k h) (destroying k h)
  accept (updates_config fd config) h =
      permit (is_loaded h.ctx && fd == lib.map_fd crypto_ctx crypto_config)
        (record h { configured = some config })
  accept (runs_ctx fd) h =
      permit (not (is_none h.configured) && fd == lib.prog_fd crypto_ctx)
        (record h { context = true })
  accept (attaches_xdp ifindex fd mode) h =
      permit (h.context && is_loaded h.xdp && fd == lib.prog_fd xdp_crypto && is_none h.xdp_link)
        (record h { xdp_link = some (ifindex, mode) })
  accept (detaches_xdp ifindex mode) h = unlinking ifindex mode h.xdp_link h
  accept (creates_hook hook) h = permit (is_none h.hook) (record h { hook = some hook })
  accept (finds_hook hook) h = permit (is_none h.hook) (record h { found = some hook })
  accept (destroys_hook hook) h =
      permit (is_hook hook h.hook || is_hook hook h.found)
        (record h { filter = flushed hook h.filter })
  accept (attaches_tc hook opts) h = filtering hook opts h
  accept (detaches_tc hook opts) h = unfiltering hook opts h.filter h
  accept (makes_ring fd) h =
      permit (is_loaded h.xdp && fd == lib.map_fd xdp_crypto crypto_events && not h.ring)
        (record h { ring = true })
  accept frees_ring h = permit h.ring (record h { ring = false })

  abbrev pub after : Event → Option Held → Option Held
  after e none = none
  after e (some h) = accept e h

  -- What is held after the calls of a log, the last call first.
  unfoldable pub accepts : List Event → Option Held
  unfolding accept
  accepts [] = some nothing
  accepts (e ∷ log) = after e (accepts log)
