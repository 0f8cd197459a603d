-- ===== src/CtxProgram/Contexts.antt =====
-- The contexts that src/bpf/crypto_ctx.bpf.c creates: none is lost, and a configuration from the
-- command line of src/user/config.c is one that it accepts.
use e_ba_f_project.Base.{
  ℕ, ◌≡◌, ◌⊎◌, refl, true, false, Option, none, some, List, [], ◌∷◌, ◌++◌, arith, length,
  length-take, Bool-cases, ◌∙◌, sym, inl, inr,
}
use e_ba_f_project.Wire.{CryptoConfig}
use e_ba_f_project.Config.Args.{UserConfig, parse_args}
use e_ba_f_project.Config.Accepted.{IsUsable, parse_args-IsUsable}
use e_ba_f_project.CtxProgram.{
  CryptoParams, zero_code, CtxState, Created, context, failure, check_config, params_of, install,
  create_crypto_ctx,
}

-- The context that the slot holds.
abbrev pub held : Option (Option ℕ) → List ℕ
held none = []
held (some none) = []
held (some (some ctx)) = ctx ∷ []

-- Every context that the state accounts for: the one in the slot, and those released.
abbrev pub contexts : CtxState → List ℕ
contexts s = held s.slot ++ s.released

install-contexts : (ctx : ℕ) (s : CtxState) → contexts (install ctx s).1 ≡ ctx ∷ contexts s
unfolding install
install-contexts ctx s = ground arith

Created-cases : (r : Created) → ((err : ℕ) × (r ≡ failure err)) ⊎ ((ctx : ℕ) × (r ≡ context ctx))
Created-cases (failure err) = inl (err, refl)
Created-cases (context ctx) = inr (ctx, refl)

-- The run ends before a context is created: no configuration is found, it is refused, or the kernel
-- gives no context.
abbrev pub CreatesNone : (CryptoParams → Created) → Option CryptoConfig → Type 0
CreatesNone create none = Unit {0}
CreatesNone create (some config) =
    (check_config config ≡ false) ⊎ ((err : ℕ) × (create (params_of config) ≡ failure err))

-- The kernel gives this context for the configuration that is found and not refused.
abbrev pub Creates : (CryptoParams → Created) → Option CryptoConfig → ℕ → Type 0
Creates create none ctx = ⊥
Creates create (some config) ctx =
    (check_config config ≡ true) × (create (params_of config) ≡ context ctx)

of_config :
    (create : CryptoParams → Created) (found : Option CryptoConfig) (s : CtxState)
    → s.config ≡ found
    → (CreatesNone create found × (contexts (create_crypto_ctx create s).1 ≡ contexts s))
      ⊎ ((ctx : ℕ) × Creates create found ctx
          × (contexts (create_crypto_ctx create s).1 ≡ ctx ∷ contexts s))
unfolding create_crypto_ctx
of_config create none s missing = inl (tt, ground (arith, missing))
of_config create (some config) s found = elim (Bool-cases (check_config config)) [
  | inr bad ↦ inl (inl bad, ground (arith, found, bad))
  | inl good ↦ elim (Created-cases (create (params_of config))) [
    | inl (err, failed) ↦ inl (inr (err, failed), ground (arith, found, good, failed))
    | inr (ctx, made) ↦
        inr (ctx, (good, made), ground (arith, found, good, made, install-contexts ctx s))
  ]
]

-- No context is lost or released twice. Either the run creates none, and accounts for the contexts
-- that were accounted for before it; or it creates one, and accounts for that one and for those.
pub create_crypto_ctx-contexts :
    (create : CryptoParams → Created) (s : CtxState)
    → (CreatesNone create s.config × (contexts (create_crypto_ctx create s).1 ≡ contexts s))
      ⊎ ((ctx : ℕ) × Creates create s.config ctx
          × (contexts (create_crypto_ctx create s).1 ≡ ctx ∷ contexts s))
create_crypto_ctx-contexts create s = of_config create s.config s refl

IsUsable-check : (c : UserConfig) → IsUsable c → check_config c.crypto ≡ true
unfolding check_config
IsUsable-check c usable = ground arith

-- The key that the kernel gets is as long as it is said to be.
IsUsable-key : (c : UserConfig) → IsUsable c → length (params_of c.crypto).key ≡ c.crypto.key_len
unfolding params_of
IsUsable-key c usable = ground (arith, length-take 32 c.crypto.key, length-take 16 c.crypto.key)

params_length : (config : CryptoConfig) → (params_of config).key_len ≡ config.key_len
unfolding params_of
params_length config = ground arith

install_done :
    (ctx : ℕ) (s : CtxState) (old : Option ℕ)
    → s.slot ≡ some old
    → ((install ctx s).0 ≡ zero_code) × ((install ctx s).1.slot ≡ some (some ctx))
unfolding install
install_done ctx s old h = ground arith

-- With a configuration from the command line in the map and an empty or full slot, the program
-- asks for a context with a key of the stated length; if the kernel creates it, the program
-- returns 0 with that context in the slot.
pub create_crypto_ctx_accepts :
    (create : CryptoParams → Created) (s : CtxState) (argv : List (List ℕ)) (c : UserConfig)
    (old : Option ℕ) (ctx : ℕ)
    → parse_args argv ≡ some c
    → s.config ≡ some c.crypto
    → s.slot ≡ some old
    → create (params_of c.crypto) ≡ context ctx
    → (length (params_of c.crypto).key ≡ (params_of c.crypto).key_len)
      × ((create_crypto_ctx create s).0 ≡ zero_code)
      × ((create_crypto_ctx create s).1.slot ≡ some (some ctx))
unfolding create_crypto_ctx
create_crypto_ctx_accepts create s argv c old ctx parsed configured slotted made =
    let usable = parse_args-IsUsable argv c parsed in
    let good = IsUsable-check c usable in
    let (returned, loaded) = install_done ctx s old slotted in
    (
      IsUsable-key c usable ∙ sym (params_length c.crypto),
      ground (arith, configured, good, made, returned),
      ground (arith, configured, good, made, loaded),
    )
