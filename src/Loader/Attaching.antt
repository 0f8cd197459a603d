-- ===== src/Loader/Attaching.antt =====
-- attach_xdp of src/user/bpf_loader.c, which falls back to the generic mode.
use Prim.Native.Nat.{bit_or}
use e_ba_f_project.Base.{
  ℕ, ◌<◌, ◌≡◌, refl, ◌⊎◌, inl, inr, Bool, true, false, not, Option, none, some, arith,
  if◌then◌else◌,
}
use e_ba_f_project.CtxProgram.{Code}
use e_ba_f_project.Loader.{xdp_crypto, Libbpf, Loader, is_error}
use e_ba_f_project.Loader.Steps.{
  goes_on, err_out, xdp_attached, driver_mode, generic_mode, no_replace, attach_xdp,
}
use e_ba_f_project.Loader.Held.{loaded, Held, accept, accepts}
use e_ba_f_project.Loader.Tracks.{Tracks}
use e_ba_f_project.Loader.Progress.{Ends}

-- The XDP program is attached if it is wanted, in one of the two modes.
abbrev pub IsLinked : Bool → ℕ → Option (ℕ × ℕ) → Type 0
IsLinked true ifindex link =
    (mode : ℕ) × ((mode ≡ driver_mode) ⊎ (mode ≡ generic_mode)) × (link ≡ some (ifindex, mode))
IsLinked false ifindex link = link ≡ none

module _ (lib : Libbpf) (ifindex : ℕ) (named : 0 < ifindex) where
  xdp_attached-Tracks :
      (mode : ℕ) (s : Loader) (h : Held)
      → 0 < mode
      → h.context ≡ true
      → h.xdp ≡ loaded
      → h.xdp_link ≡ none
      → Tracks lib ifindex s h
      → Tracks lib ifindex
          (xdp_attached ifindex (lib.prog_fd xdp_crypto) mode s)
          (record h { xdp_link = some (ifindex, mode) })
  unfolding accepts accept
  xdp_attached-Tracks mode s h some_mode context xdp unlinked t = record {
    index = t.index;
    calls = ground (arith, t.calls, context, xdp, unlinked);
    ctx_open = t.ctx_open;
    ctx_pointer = t.ctx_pointer;
    tc_pointer = t.tc_pointer;
    transparent_pointer = t.transparent_pointer;
    xdp_pointer = t.xdp_pointer;
    link = (named, some_mode, t.index, refl);
    filter = t.filter;
    ring = t.ring;
  }

  -- A held state, but for the XDP link.
  abbrev pub LinkedTo : Held → Held → Type 0
  LinkedTo h h' =
      (mode : ℕ) × ((mode ≡ driver_mode) ⊎ (mode ≡ generic_mode))
      × (h' ≡ record h { xdp_link = some (ifindex, mode) })

  attached_xdp-Ends :
      (bad_driver bad_generic : Bool) (err : Code) (s : Loader) (h : Held)
      → (bad_generic ≡ true → is_error err ≡ true)
      → h.context ≡ true
      → h.xdp ≡ loaded
      → h.xdp_link ≡ none
      → Tracks lib ifindex s h
      → Ends lib ifindex (LinkedTo h) (
          if not bad_driver
          then (goes_on tt, xdp_attached ifindex (lib.prog_fd xdp_crypto) driver_mode s)
          else if not bad_generic
          then (goes_on tt, xdp_attached ifindex (lib.prog_fd xdp_crypto) generic_mode s)
          else (err_out err, s))
  attached_xdp-Ends false b err s h bad context xdp unlinked t = (
    record h { xdp_link = some (ifindex, driver_mode) },
    xdp_attached-Tracks driver_mode s h (omega arith) context xdp unlinked t,
    (driver_mode, inl refl, refl),
  )
  attached_xdp-Ends true false err s h bad context xdp unlinked t = (
    record h { xdp_link = some (ifindex, generic_mode) },
    xdp_attached-Tracks generic_mode s h (omega arith) context xdp unlinked t,
    (generic_mode, inr refl, refl),
  )
  attached_xdp-Ends true true err s h bad context xdp unlinked t = (bad refl, (h, t))

  pub attach_xdp-Ends :
      (s : Loader) (h : Held)
      → h.context ≡ true
      → h.xdp ≡ loaded
      → h.xdp_link ≡ none
      → Tracks lib ifindex s h
      → Ends lib ifindex (LinkedTo h) (attach_xdp lib ifindex (lib.prog_fd xdp_crypto) s)
  unfolding attach_xdp
  attach_xdp-Ends s h context xdp unlinked t =
      let fd = lib.prog_fd xdp_crypto in
      attached_xdp-Ends
        (is_error (lib.bpf_xdp_attach ifindex fd (bit_or driver_mode no_replace) s.log)) _
        (lib.bpf_xdp_attach ifindex fd (bit_or generic_mode no_replace) s.log) s h (λ e. e) context
        xdp unlinked t
