-- ===== src/Config/Accepted.antt =====
-- What a configuration that `ebaf_parse_args` of src/user/config.c accepts looks like.
use mathlib.Core.Bool.{not}
use e_ba_f_project.Base.{
  ℕ, zero, suc, ◌+◌, ◌≤◌, ◌<◌, ◌≡◌, ◌⊎◌, refl, Bool, true, false, Option, none, some, List, [], ◌∷◌,
  arith, length, inl, inr, Option-cases, ◌∙◌, sym, leb, replicate,
}
use e_ba_f_project.Base.Bytes.{length-overwrite}
use e_ba_f_project.Wire.{
  aes128_key_bytes, chacha20_key_bytes, action_encrypt, action_decrypt, algo_cbc_aes, algo_chacha20,
}
use e_ba_f_project.Config.HexKey.{hex_loop, parse_hex_key}
use e_ba_f_project.Config.Uint.{parse_uint_bounds}
use e_ba_f_project.Config.Args.{
  Options, UserConfig, Valued, iface_opt, mode_opt, key_opt, algo_opt, port_opt, stats_interval_opt,
  duration_opt, hook_opt, Switch, events_opt, jsonl_opt, transparent_opt, tc_ingress_opt,
  tc_egress_opt, valued, switch, set_valued, set_switch, apply_switch, parse_opts, mode_action,
  algo_value, finish, filled, guard, parse_args, defaults, >>=-eq-some, parse_opts-valued,
  parse_opts-switch, iface_name_max, uint_max,
}

-- What holds of the options at each round of the loop.
pub record IsSane (o : Options) : Type 0 where
  pub port_low : 1 ≤ o.port
  pub port_high : o.port ≤ 65535
  pub interval_low : 1 ≤ o.stats_interval_sec
  pub interval_high : o.stats_interval_sec ≤ uint_max
  pub duration_high : o.duration_sec ≤ uint_max
  pub hook_low : 1 ≤ o.hook
  pub hook_high : o.hook ≤ 3
  pub attach_high : o.tc_attach ≤ 2
  pub jsonl_events : (o.output_jsonl ≡ false) ⊎ (o.print_events ≡ true)

set_valued-IsSane :
    (v : Valued) (arg : List ℕ) (o o' : Options)
    → IsSane o
    → set_valued v arg o ≡ some o'
    → IsSane o'
unfolding set_valued
set_valued-IsSane iface_opt arg o o' sane h = ground arith
set_valued-IsSane mode_opt arg o o' sane h = ground arith
set_valued-IsSane key_opt arg o o' sane h = ground arith
set_valued-IsSane algo_opt arg o o' sane h = ground arith
set_valued-IsSane port_opt arg o o' sane h = grind (arith, parse_uint_bounds arg 1 65535)
set_valued-IsSane stats_interval_opt arg o o' sane h =
    grind (arith, parse_uint_bounds arg 1 uint_max)
set_valued-IsSane duration_opt arg o o' sane h = grind (arith, parse_uint_bounds arg 1 uint_max)
set_valued-IsSane hook_opt arg o o' sane h = ground arith

set_switch-IsSane : (s : Switch) (o : Options) → IsSane o → IsSane (set_switch s o)
unfolding set_switch
set_switch-IsSane events_opt o sane = ground arith
set_switch-IsSane jsonl_opt o sane = ground arith
set_switch-IsSane transparent_opt o sane = ground arith
set_switch-IsSane tc_ingress_opt o sane = ground arith
set_switch-IsSane tc_egress_opt o sane = ground arith

apply_switch-IsSane :
    (s : Option Switch) (o o' : Options) → IsSane o → apply_switch s o ≡ some o' → IsSane o'
apply_switch-IsSane none o o' sane h = cc h
apply_switch-IsSane (some s) o o' sane h = grind (arith, set_switch-IsSane s o sane)

parse_opts-IsSane :
    (argv : List (List ℕ)) (o o' : Options) → IsSane o → parse_opts argv o ≡ some o' → IsSane o'
parse_opts-IsSane [] o o' sane h = unfold parse_opts in ground arith
parse_opts-IsSane (arg ∷ []) o o' sane h =
    apply_switch-IsSane (switch arg) o o' sane (unfold parse_opts in h)
parse_opts-IsSane (arg ∷ value ∷ rest) o o' sane h = elim (Option-cases (valued arg)) [
  | inl other ↦
      let (mid, set, more) =
        >>=-eq-some (apply_switch (switch arg) o) _
          (sym (parse_opts-switch arg value rest o other) ∙ h) in
      parse_opts-IsSane (value ∷ rest) mid o' (apply_switch-IsSane (switch arg) o mid sane set) more
  | inr (v, found) ↦
      let (mid, set, more) =
        >>=-eq-some (set_valued v value o) _
          (sym (parse_opts-valued arg value rest o v found) ∙ h) in
      parse_opts-IsSane rest mid o' (set_valued-IsSane v value o mid sane set) more
]

length-hex_loop :
    (hex : List ℕ) (left i : ℕ) (out : List ℕ) → length (hex_loop hex left i out).1 ≡ length out
unfolding hex_loop
length-hex_loop hex zero i out = refl
length-hex_loop hex (suc left) i out =
    grind (arith, length-hex_loop hex left (i + 1), length-overwrite)

length-parse_hex_key : (hex out : List ℕ) (n : ℕ) → length (parse_hex_key hex out n).1 ≡ length out
unfolding parse_hex_key
length-parse_hex_key hex out n = ground (arith, length-hex_loop hex n 0 out)

-- A configuration that the rest of the program can work with.
pub record IsUsable (c : UserConfig) : Type 0 where
  pub action : (c.crypto.action ≡ action_encrypt) ⊎ (c.crypto.action ≡ action_decrypt)
  pub algo :
      (c.crypto.algo ≡ algo_cbc_aes) × (c.crypto.key_len ≡ aes128_key_bytes)
      ⊎ (c.crypto.algo ≡ algo_chacha20) × (c.crypto.key_len ≡ chacha20_key_bytes)
  pub key : length c.crypto.key ≡ chacha20_key_bytes
  pub port_low : 1 ≤ c.crypto.udp_port
  pub port_high : c.crypto.udp_port ≤ 65535
  pub iface : length c.iface < iface_name_max
  pub hook_low : 1 ≤ c.hook
  pub hook_high : c.hook ≤ 3
  pub attach_high : c.tc_attach ≤ 2
  pub interval_low : 1 ≤ c.stats_interval_sec
  pub interval_high : c.stats_interval_sec ≤ uint_max
  pub duration_high : c.duration_sec ≤ uint_max
  pub jsonl_events : (c.output_jsonl ≡ false) ⊎ (c.print_events ≡ true)

mode_action-value :
    (mode : List ℕ) (a : ℕ)
    → mode_action mode ≡ some a
    → (a ≡ action_encrypt) ⊎ (a ≡ action_decrypt)
unfolding mode_action
mode_action-value mode a h = ground arith

algo_value-value :
    (algo : List ℕ) (v : ℕ × ℕ)
    → algo_value algo ≡ some v
    → (v.0 ≡ algo_cbc_aes) × (v.1 ≡ aes128_key_bytes)
      ⊎ (v.0 ≡ algo_chacha20) × (v.1 ≡ chacha20_key_bytes)
unfolding algo_value
algo_value-value algo v h = ground arith

filled-length :
    (r : Bool × List ℕ) (key : List ℕ) (n : ℕ)
    → length r.1 ≡ n
    → filled r ≡ some key
    → length key ≡ n
filled-length (true, out) key n size h = ground arith
filled-length (false, out) key n size h = cc

finish-IsUsable : (o : Options) (c : UserConfig) → IsSane o → finish o ≡ some c → IsUsable c
unfolding finish
finish-IsUsable o c sane h =
    let (iface, _, h₁) = >>=-eq-some o.iface _ h in
    let (mode, _, h₂) = >>=-eq-some o.mode _ h₁ in
    let (hex, _, h₃) = >>=-eq-some o.key _ h₂ in
    let (_, short, h₄) = >>=-eq-some (guard (not (leb iface_name_max (length iface)))) _ h₃ in
    let (action, known, h₅) = >>=-eq-some (mode_action mode) _ h₄ in
    let (algo, found, h₆) = >>=-eq-some (algo_value o.algo) _ h₅ in
    let empty = replicate chacha20_key_bytes 0 in
    let (key, read, h₇) = >>=-eq-some (filled (parse_hex_key hex empty algo.1)) _ h₆ in
    ground (
      arith,
      h₇,
      short,
      mode_action-value mode action known,
      algo_value-value o.algo algo found,
      filled-length (parse_hex_key hex empty algo.1) key chacha20_key_bytes
          (length-parse_hex_key hex empty algo.1) read,
    )

defaults-IsSane : IsSane defaults
defaults-IsSane = ground arith

-- Whatever the arguments, a configuration that the parser accepts is usable: a known action, a
-- key of the length that the algorithm takes in a full key array, a port other than 0, an
-- interface name that fits its array, and settings in their ranges.
pub parse_args-IsUsable :
    (argv : List (List ℕ)) (c : UserConfig) → parse_args argv ≡ some c → IsUsable c
unfolding parse_args
parse_args-IsUsable argv c h =
    let (o, parsed, finished) = >>=-eq-some (parse_opts argv defaults) _ h in
    finish-IsUsable o c (parse_opts-IsSane argv defaults o defaults-IsSane parsed) finished
