-- ===== src/Loader/Watching.antt =====
-- The last steps of ebaf_bpf_start of src/user/bpf_loader.c: the ring buffer of the events.
use e_ba_f_project.Base.{ℕ, ◌<◌, ◌≡◌, refl, sym, Bool, true, false, not, some, List, arith}
use e_ba_f_project.Config.Args.{UserConfig}
use e_ba_f_project.CtxProgram.{minus}
use e_ba_f_project.Loader.{
  xdp_crypto, crypto_stats, crypto_events, Event, makes_ring, Libbpf, Loader,
}
use e_ba_f_project.Loader.Steps.{settle, make_ring}
use e_ba_f_project.Loader.Start.{watch_events}
use e_ba_f_project.Loader.Held.{Held, accept, accepts}
use e_ba_f_project.Loader.Tracks.{Tracks}
use e_ba_f_project.Loader.Progress.{Ends, assigned-Tracks}
use e_ba_f_project.Loader.Attached.{IsAttached, IsUnwatched}

-- What a start that succeeds brings about.
abbrev pub IsWatched : Libbpf → UserConfig → ℕ → Held → Type 0
IsWatched lib cfg ifindex h = IsAttached lib cfg ifindex h × (h.ring ≡ true)

module _ (lib : Libbpf) (cfg : UserConfig) (ifindex : ℕ)
    (errno_set : (log : List Event) → 0 < lib.errno log) where
  ring-Ends :
      (ok : Bool) (s : Loader) (h : Held)
      → IsUnwatched lib cfg ifindex h
      → Tracks lib ifindex s h
      → Ends lib ifindex (IsWatched lib cfg ifindex) (
          settle
            (not ok)
            (minus (lib.errno s.log))
            (makes_ring (lib.map_fd xdp_crypto crypto_events))
            (record s { rt = record s.rt { event_ring = ok } }))
  unfolding settle accepts accept
  ring-Ends true s h (attached, unwatched) t = (
    record h { ring = true },
    record {
      index = t.index;
      calls = ground (arith, t.calls, attached.xdp, unwatched);
      ctx_open = t.ctx_open;
      ctx_pointer = t.ctx_pointer;
      tc_pointer = t.tc_pointer;
      transparent_pointer = t.transparent_pointer;
      xdp_pointer = t.xdp_pointer;
      link = t.link;
      filter = t.filter;
      ring = refl;
    },
    (
      record {
        configured = attached.configured;
        context = attached.context;
        xdp = attached.xdp;
        linked = attached.linked;
        filtered = attached.filtered;
      },
      refl,
    ),
  )
  ring-Ends false s h (attached, unwatched) t = (
    ground (arith, errno_set s.log),
    (
      h,
      record {
        index = t.index;
        calls = t.calls;
        ctx_open = t.ctx_open;
        ctx_pointer = t.ctx_pointer;
        tc_pointer = t.tc_pointer;
        transparent_pointer = t.transparent_pointer;
        xdp_pointer = t.xdp_pointer;
        link = t.link;
        filter = t.filter;
        ring = sym unwatched;
      },
    ),
  )

  pub watch_events-Ends :
      (s : Loader) (h : Held)
      → IsUnwatched lib cfg ifindex h
      → Tracks lib ifindex s h
      → Ends lib ifindex (IsWatched lib cfg ifindex) (watch_events lib cfg s)
  unfolding watch_events make_ring
  watch_events-Ends s h unwatched t =
      let fd = some (lib.map_fd xdp_crypto crypto_stats) in
      let told =
        assigned-Tracks lib ifindex s h s.rt.xdp_prog_fd fd s.rt.config_map_fd cfg.output_jsonl t in
      ring-Ends (lib.ring_buffer_new (lib.map_fd xdp_crypto crypto_events) s.log) _ h unwatched told
