-- ===== src/Loader/Found.antt =====
-- The calls on a TC hook that was there before ebaf-crypto, which attach_tc and ebaf_bpf_stop of
-- src/user/bpf_loader.c treat differently, and on one that attach_tc created.
use mathlib.Core.Path.{subst, sym}
use e_ba_f_project.Base.{ℕ, ◌≡◌, refl, Bool, true, false, List, ◌∷◌, if◌then◌else◌}
use e_ba_f_project.CtxProgram.{Code, zero_code, minus}
use e_ba_f_project.Loader.{
  TcHook, TcOpts, Event, creates_hook, finds_hook, destroys_hook, attaches_tc, detaches_tc, Libbpf,
  Loader, is_error, logged,
}
use e_ba_f_project.Loader.Steps.{
  Outcome, goes_on, err_out, follow, create_hook, attach_filter, attach_tc,
}
use e_ba_f_project.Loader.Start.{release_tc}

-- What attach_tc returns, and the calls by the time that ebaf_bpf_stop has released the TC hook.
abbrev pub FoundHook : TcHook → List Event → Outcome (Unit {0}) × Loader → Type 0
FoundHook hook log (goes_on a, s) =
    (opts : TcOpts) × (release_tc s.rt s.log
      ≡ destroys_hook hook ∷ detaches_tc hook opts ∷ attaches_tc hook opts ∷ finds_hook hook ∷ log)
FoundHook hook log (err_out e, s) = (is_error e ≡ true) × (s.log ≡ finds_hook hook ∷ log)

found_hook :
    (lib : Libbpf) (hook : TcHook) (s : Loader)
    → lib.bpf_tc_hook_create hook s.log ≡ minus 17
    → create_hook lib hook s ≡ (goes_on false, logged (finds_hook hook) s)
unfolding create_hook
found_hook lib hook s exists = rw exists refl

filter_found_cases :
    (bad : Bool) (err : Code) (hook : TcHook) (opts : TcOpts) (s : Loader)
    → (bad ≡ true → is_error err ≡ true)
    → FoundHook hook s.log (
        if bad then (err_out err, logged (finds_hook hook) s) else (
          goes_on tt,
          logged (attaches_tc hook opts) (record s {
            log = finds_hook hook ∷ s.log;
            rt = record s.rt { tc_hook = hook; tc_opts = opts; tc_attached = true };
          }),
        ))
filter_found_cases true err hook opts s is_bad = (is_bad refl, refl)
filter_found_cases false err hook opts s is_bad = (opts, unfold release_tc in refl)

filter_found :
    (lib : Libbpf) (hook : TcHook) (fd : ℕ) (s : Loader)
    → FoundHook hook s.log (attach_filter lib hook fd false (logged (finds_hook hook) s))
unfolding attach_filter
filter_found lib hook fd s =
    let log = finds_hook hook ∷ s.log in
    filter_found_cases (is_error (lib.bpf_tc_attach hook fd log)) (lib.bpf_tc_attach hook fd log)
      hook (record (lib.tc_opts hook fd log) { prog_fd = fd }) s (λ e. e)

-- If the hook was there before, bpf_tc_hook_create having given -EEXIST, attach_tc leaves it in place
-- where it fails. But where it succeeds, the release of the filter in ebaf_bpf_stop calls
-- bpf_tc_hook_destroy on the hook, although attach_tc did not create it.
pub attach_tc_found :
    (lib : Libbpf) (ifindex fd point : ℕ) (s : Loader)
    → lib.bpf_tc_hook_create (record { ifindex = ifindex; attach_point = point }) s.log ≡ minus 17
    → FoundHook
        (record { ifindex = ifindex; attach_point = point })
        s.log
        (attach_tc lib ifindex fd point s)
unfolding attach_tc
attach_tc_found lib ifindex fd point s exists =
    let hook : TcHook = record { ifindex = ifindex; attach_point = point } in
    subst (λ r. FoundHook hook s.log (follow r (attach_filter lib hook fd)))
      (sym (found_hook lib hook s exists)) (filter_found lib hook fd s)

-- What attach_tc returns after it created the hook, and the calls by the time that ebaf_bpf_stop has
-- released it.
abbrev pub CreatedHook : TcHook → List Event → Outcome (Unit {0}) × Loader → Type 0
CreatedHook hook log (goes_on a, s) =
    (opts : TcOpts) × (release_tc s.rt s.log
      ≡ destroys_hook hook
        ∷ detaches_tc hook opts
        ∷ attaches_tc hook opts
        ∷ creates_hook hook
        ∷ log)
CreatedHook hook log (err_out e, s) =
    (is_error e ≡ true) × (s.log ≡ destroys_hook hook ∷ creates_hook hook ∷ log)

created_hook :
    (lib : Libbpf) (hook : TcHook) (s : Loader)
    → lib.bpf_tc_hook_create hook s.log ≡ zero_code
    → create_hook lib hook s ≡ (goes_on true, logged (creates_hook hook) s)
unfolding create_hook
created_hook lib hook s created = rw created refl

filter_created_cases :
    (bad : Bool) (err : Code) (hook : TcHook) (opts : TcOpts) (s : Loader)
    → (bad ≡ true → is_error err ≡ true)
    → CreatedHook hook s.log (
        if bad then (err_out err, logged (destroys_hook hook) (logged (creates_hook hook) s)) else (
          goes_on tt,
          logged (attaches_tc hook opts) (record s {
            log = creates_hook hook ∷ s.log;
            rt = record s.rt { tc_hook = hook; tc_opts = opts; tc_attached = true };
          }),
        ))
filter_created_cases true err hook opts s is_bad = (is_bad refl, refl)
filter_created_cases false err hook opts s is_bad = (opts, unfold release_tc in refl)

filter_created :
    (lib : Libbpf) (hook : TcHook) (fd : ℕ) (s : Loader)
    → CreatedHook hook s.log (attach_filter lib hook fd true (logged (creates_hook hook) s))
unfolding attach_filter
filter_created lib hook fd s =
    let log = creates_hook hook ∷ s.log in
    filter_created_cases (is_error (lib.bpf_tc_attach hook fd log)) (lib.bpf_tc_attach hook fd log)
      hook (record (lib.tc_opts hook fd log) { prog_fd = fd }) s (λ e. e)

-- If bpf_tc_hook_create created the hook, bpf_tc_hook_destroy is called on it: by attach_tc itself
-- where it fails, and otherwise by the release of the filter in ebaf_bpf_stop.
pub attach_tc_created :
    (lib : Libbpf) (ifindex fd point : ℕ) (s : Loader)
    → lib.bpf_tc_hook_create (record { ifindex = ifindex; attach_point = point }) s.log ≡ zero_code
    → CreatedHook
        (record { ifindex = ifindex; attach_point = point })
        s.log
        (attach_tc lib ifindex fd point s)
unfolding attach_tc
attach_tc_created lib ifindex fd point s created =
    let hook : TcHook = record { ifindex = ifindex; attach_point = point } in
    subst (λ r. CreatedHook hook s.log (follow r (attach_filter lib hook fd)))
      (sym (created_hook lib hook s created)) (filter_created lib hook fd s)
