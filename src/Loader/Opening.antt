-- ===== src/Loader/Opening.antt =====
-- How far ebaf_bpf_start of src/user/bpf_loader.c comes with its object files and the crypto
-- context: it shares the maps with each program before it loads that.
use e_ba_f_project.Base.{ℕ, ◌<◌, ◌≡◌, refl, some, List, [], ◌∷◌, arith}
use e_ba_f_project.Config.Args.{UserConfig}
use e_ba_f_project.Loader.{
  Skel, crypto_ctx, tc_crypto, tc_transparent, xdp_crypto, SharedMap, crypto_config, crypto_ctx_map,
  crypto_stats, crypto_events, Event, loads, shares, Libbpf, Loader,
}
use e_ba_f_project.Loader.Steps.{load_skel, share}
use e_ba_f_project.Loader.Start.{open_tc, open_xdp}
use e_ba_f_project.Loader.Held.{
  Phase, absent, opened, loaded, Held, nothing, phase, set_phase, present, owner, accept,
}
use e_ba_f_project.Loader.Tracks.{Tracks}
use e_ba_f_project.Loader.Progress.{
  pointers, links, EndsIn, follow-EndsIn, settle-EndsIn, open_skel-EndsIn,
}

abbrev pub held_ctx : Held
held_ctx = record nothing { ctx = opened [] }

abbrev pub held_xdp : Held
held_xdp = record nothing { ctx = loaded; xdp = loaded }

abbrev xdp_with : List SharedMap → Held
xdp_with maps = record nothing { ctx = loaded; xdp = opened maps }

-- The programs of the TC hook.
abbrev pub IsTc : Skel → Type 0
IsTc crypto_ctx = ⊥
IsTc tc_crypto = Unit
IsTc tc_transparent = Unit
IsTc xdp_crypto = ⊥

module _ (lib : Libbpf) (ifindex : ℕ) (errno_set : (log : List Event) → 0 < lib.errno log) where
  load_skel-EndsIn :
      (k : Skel) (s : Loader) (h h' : Held)
      → Tracks lib ifindex s h
      → accept lib (loads k) h ≡ some h'
      → pointers h ≡ pointers h'
      → links h ≡ links h'
      → EndsIn lib ifindex h' (load_skel lib k s)
  unfolding load_skel
  load_skel-EndsIn k s h h' t allowed same_pointers same_links =
      settle-EndsIn lib ifindex _ (lib.load_skel k s.log) (loads k) s h h' (λ e. e) t allowed
        same_pointers same_links

  share-EndsIn :
      (k from : Skel) (m : SharedMap) (s : Loader) (h h' : Held)
      → Tracks lib ifindex s h
      → accept lib (shares k m (lib.map_fd from m)) h ≡ some h'
      → pointers h ≡ pointers h'
      → links h ≡ links h'
      → EndsIn lib ifindex h' (share lib k from m s)
  unfolding share
  share-EndsIn k from m s h h' t allowed same_pointers same_links =
      settle-EndsIn lib ifindex _ (lib.bpf_map_reuse_fd k m (lib.map_fd from m) s.log)
        (shares k m (lib.map_fd from m)) s h h' (λ e. e) t allowed same_pointers same_links

  pub open_xdp-EndsIn :
      (cfg : UserConfig) (s : Loader)
      → Tracks lib ifindex s held_ctx
      → EndsIn lib ifindex held_xdp (open_xdp lib cfg s)
  unfolding open_xdp accept
  open_xdp-EndsIn cfg s t =
      follow-EndsIn lib ifindex (record nothing { ctx = loaded }) _ _ _
        (load_skel-EndsIn crypto_ctx s held_ctx _ t refl refl refl)
        λ s t.
          follow-EndsIn lib ifindex (xdp_with []) _ _ _
            (open_skel-EndsIn lib ifindex xdp_crypto s _ errno_set refl t)
            λ s t.
              follow-EndsIn lib ifindex (xdp_with (crypto_config ∷ [])) _ _ _
                (share-EndsIn xdp_crypto crypto_ctx crypto_config s _ _ t (ground arith) refl refl)
                λ s t.
                  follow-EndsIn lib ifindex (xdp_with (crypto_ctx_map ∷ crypto_config ∷ [])) _ _ _
                    (share-EndsIn xdp_crypto crypto_ctx crypto_ctx_map s _ _ t (ground arith) refl
                      refl)
                    λ s t. load_skel-EndsIn xdp_crypto s _ held_xdp t refl refl refl

  tc_pointers :
      (k : Skel) (p q : Phase)
      → IsTc k
      → present p ≡ present q
      → pointers (set_phase k p held_xdp) ≡ pointers (set_phase k q held_xdp)
  tc_pointers crypto_ctx p q tc same = elim tc [ ]
  tc_pointers tc_crypto p q tc same = rw same refl
  tc_pointers tc_transparent p q tc same = rw same refl
  tc_pointers xdp_crypto p q tc same = elim tc [ ]

  tc_links :
      (k : Skel) (p q : Phase) → links (set_phase k p held_xdp) ≡ links (set_phase k q held_xdp)
  tc_links crypto_ctx p q = refl
  tc_links tc_crypto p q = refl
  tc_links tc_transparent p q = refl
  tc_links xdp_crypto p q = refl

  accept-tc_shares :
      (k : Skel) (m : SharedMap) (maps : List SharedMap)
      → IsTc k
      → accept lib (shares k m (lib.map_fd (owner m) m)) (set_phase k (opened maps) held_xdp)
        ≡ some (set_phase k (opened (m ∷ maps)) held_xdp)
  unfolding accept
  accept-tc_shares crypto_ctx m maps tc = elim tc [ ]
  accept-tc_shares xdp_crypto m maps tc = elim tc [ ]
  accept-tc_shares tc_crypto crypto_config maps tc = ground arith
  accept-tc_shares tc_crypto crypto_ctx_map maps tc = ground arith
  accept-tc_shares tc_crypto crypto_stats maps tc = ground arith
  accept-tc_shares tc_crypto crypto_events maps tc = ground arith
  accept-tc_shares tc_transparent crypto_config maps tc = ground arith
  accept-tc_shares tc_transparent crypto_ctx_map maps tc = ground arith
  accept-tc_shares tc_transparent crypto_stats maps tc = ground arith
  accept-tc_shares tc_transparent crypto_events maps tc = ground arith

  share_tc-EndsIn :
      (k : Skel) (m : SharedMap) (maps : List SharedMap) (s : Loader)
      → IsTc k
      → Tracks lib ifindex s (set_phase k (opened maps) held_xdp)
      → EndsIn lib ifindex (set_phase k (opened (m ∷ maps)) held_xdp) (share lib k (owner m) m s)
  share_tc-EndsIn k m maps s tc t =
      share-EndsIn k (owner m) m s _ _ t (accept-tc_shares k m maps tc)
        (tc_pointers k (opened maps) (opened (m ∷ maps)) tc refl) (tc_links k _ _)

  abbrev all_maps : List SharedMap
  all_maps = crypto_events ∷ crypto_stats ∷ crypto_ctx_map ∷ crypto_config ∷ []

  absent_tc : (k : Skel) → IsTc k → phase k held_xdp ≡ absent
  absent_tc crypto_ctx tc = elim tc [ ]
  absent_tc tc_crypto tc = refl
  absent_tc tc_transparent tc = refl
  absent_tc xdp_crypto tc = elim tc [ ]

  accept-tc_loads :
      (k : Skel)
      → IsTc k
      → accept lib (loads k) (set_phase k (opened all_maps) held_xdp)
        ≡ some (set_phase k loaded held_xdp)
  unfolding accept
  accept-tc_loads crypto_ctx tc = elim tc [ ]
  accept-tc_loads tc_crypto tc = refl
  accept-tc_loads tc_transparent tc = refl
  accept-tc_loads xdp_crypto tc = elim tc [ ]

  pub open_tc-EndsIn :
      (cfg : UserConfig) (k : Skel) (s : Loader)
      → IsTc k
      → Tracks lib ifindex s held_xdp
      → EndsIn lib ifindex (set_phase k loaded held_xdp) (open_tc lib cfg k s)
  unfolding open_tc
  open_tc-EndsIn cfg k s tc t =
      follow-EndsIn lib ifindex (set_phase k (opened []) held_xdp) _ _ _
        (open_skel-EndsIn lib ifindex k s held_xdp errno_set (absent_tc k tc) t)
        λ s t.
          follow-EndsIn lib ifindex (set_phase k (opened (crypto_config ∷ [])) held_xdp) _ _ _
            (share_tc-EndsIn k crypto_config [] s tc t)
            λ s t.
              follow-EndsIn lib ifindex
                (set_phase k (opened (crypto_ctx_map ∷ crypto_config ∷ [])) held_xdp) _ _ _
                (share_tc-EndsIn k crypto_ctx_map _ s tc t)
                λ s t.
                  follow-EndsIn lib ifindex
                    (set_phase k (opened (crypto_stats ∷ crypto_ctx_map ∷ crypto_config ∷ []))
                      held_xdp)
                    _ _ _ (share_tc-EndsIn k crypto_stats _ s tc t)
                    λ s t.
                      follow-EndsIn lib ifindex (set_phase k (opened all_maps) held_xdp) _ _ _
                        (share_tc-EndsIn k crypto_events _ s tc t)
                        λ s t.
                          load_skel-EndsIn k s _ _ t (accept-tc_loads k tc)
                            (tc_pointers k _ _ tc refl) (tc_links k _ _)
