-- ===== src/Loader/Asked.antt =====
-- What a configuration asks the loader of src/user/bpf_loader.c to attach, in the words of the options
-- and without the loader's own tests; and that the loader's tests ask for no more and no less.
use Prim.Native.Nat.{bit_and}
use e_ba_f_project.Base.{
  ℕ, ◌≡◌, ◌≢◌, ◌⊎◌, refl, inl, inr, Bool, true, false, Option, none, some, arith,
}
use e_ba_f_project.Config.Args.{UserConfig}
use e_ba_f_project.Loader.{Skel, tc_crypto, tc_transparent, TcHook, TcOpts, Libbpf}
use e_ba_f_project.Loader.Start.{wants_xdp, wants_tc, tc_program, attach_point}
use e_ba_f_project.Loader.Held.{Held, loaded}
use e_ba_f_project.Loader.Attached.{IsLinked, IsFiltered, tc_hook_of}
use e_ba_f_project.Loader.Watching.{IsWatched}

-- `--hook xdp` is 1, `--hook tc` is 2, `--hook both` is 3.
abbrev pub AsksXdp : UserConfig → Type 0
AsksXdp cfg = (cfg.hook ≡ 1) ⊎ (cfg.hook ≡ 3)

abbrev pub AsksTc : UserConfig → Type 0
AsksTc cfg = (cfg.hook ≡ 2) ⊎ (cfg.hook ≡ 3)

-- The lowest bit of the flags asks for the transparent program.
abbrev pub IsProgram : UserConfig → Skel → Type 0
IsProgram cfg k =
    ((bit_and cfg.crypto.flags 1 ≡ 0) × (k ≡ tc_crypto))
    ⊎ ((bit_and cfg.crypto.flags 1 ≢ 0) × (k ≡ tc_transparent))

-- The direction: BPF_TC_INGRESS is 1 and BPF_TC_EGRESS is 2, and so are the options that name one;
-- without such an option, what comes in is deciphered (action 2), and what goes out enciphered.
abbrev pub IsDirection : UserConfig → ℕ → Type 0
IsDirection cfg point =
    ((cfg.tc_attach ≡ 1) × (point ≡ 1))
    ⊎ ((cfg.tc_attach ≡ 2) × (point ≡ 2))
    ⊎ ((cfg.tc_attach ≢ 1)
        × (cfg.tc_attach ≢ 2)
        × (((cfg.crypto.action ≡ 2) × (point ≡ 1)) ⊎ ((cfg.crypto.action ≢ 2) × (point ≡ 2))))

-- The XDP program is attached, in the driver's mode (4) or the generic one (2).
abbrev pub HasXdp : ℕ → Option (ℕ × ℕ) → Type 0
HasXdp ifindex link = (mode : ℕ) × ((mode ≡ 4) ⊎ (mode ≡ 2)) × (link ≡ some (ifindex, mode))

-- The filter is attached.
abbrev pub HasFilter : Libbpf → UserConfig → ℕ → Option (TcHook × TcOpts) → Type 0
HasFilter lib cfg ifindex filter =
    (k : Skel) × (point : ℕ) × (opts : TcOpts) × IsProgram cfg k
    × IsDirection cfg point
    × (opts.prog_fd ≡ lib.prog_fd k)
    × (filter ≡ some (record { ifindex = ifindex; attach_point = point }, opts))

-- What is held is what the configuration asks for, and the events are watched.
pub record IsAsked (lib : Libbpf) (cfg : UserConfig) (ifindex : ℕ) (h : Held) : Type 0 where
  pub configured : h.configured ≡ some cfg.crypto
  pub context : h.context ≡ true
  pub xdp : h.xdp ≡ loaded
  pub linked : (AsksXdp cfg × HasXdp ifindex h.xdp_link) ⊎ ((¬ AsksXdp cfg) × (h.xdp_link ≡ none))
  pub filtered :
      (AsksTc cfg × HasFilter lib cfg ifindex h.filter) ⊎ ((¬ AsksTc cfg) × (h.filter ≡ none))
  pub ring : h.ring ≡ true

tc_program-IsProgram : (cfg : UserConfig) → IsProgram cfg (tc_program cfg)
unfolding tc_program
tc_program-IsProgram cfg = ground arith

attach_point-IsDirection : (cfg : UserConfig) → IsDirection cfg (attach_point cfg)
unfolding attach_point
attach_point-IsDirection cfg = ground arith

linked_as_asked :
    (cfg : UserConfig) (ifindex : ℕ) (link : Option (ℕ × ℕ)) (wanted : Bool)
    → wants_xdp cfg ≡ wanted
    → IsLinked wanted ifindex link
    → (AsksXdp cfg × HasXdp ifindex link) ⊎ ((¬ AsksXdp cfg) × (link ≡ none))
linked_as_asked cfg ifindex link true wanted linked = inl (ground arith, linked)
linked_as_asked cfg ifindex link false wanted linked = inr (ground arith, linked)

filtered_as_asked :
    (lib : Libbpf) (cfg : UserConfig) (ifindex : ℕ) (filter : Option (TcHook × TcOpts))
    (wanted : Bool)
    → wants_tc cfg ≡ wanted
    → IsFiltered wanted (tc_hook_of cfg ifindex) (lib.prog_fd (tc_program cfg)) filter
    → (AsksTc cfg × HasFilter lib cfg ifindex filter) ⊎ ((¬ AsksTc cfg) × (filter ≡ none))
filtered_as_asked lib cfg ifindex filter true wanted (opts, of_program, attached) = inl (
  ground arith,
  (
    tc_program cfg,
    attach_point cfg,
    opts,
    tc_program-IsProgram cfg,
    attach_point-IsDirection cfg,
    of_program,
    attached,
  ),
)
filtered_as_asked lib cfg ifindex filter false wanted unfiltered = inr (ground arith, unfiltered)

pub IsWatched-IsAsked :
    (lib : Libbpf) (cfg : UserConfig) (ifindex : ℕ) (h : Held)
    → IsWatched lib cfg ifindex h
    → IsAsked lib cfg ifindex h
IsWatched-IsAsked lib cfg ifindex h (attached, watched) = record {
  configured = attached.configured;
  context = attached.context;
  xdp = attached.xdp;
  linked = linked_as_asked cfg ifindex h.xdp_link (wants_xdp cfg) refl attached.linked;
  filtered = filtered_as_asked lib cfg ifindex h.filter (wants_tc cfg) refl attached.filtered;
  ring = watched;
}
