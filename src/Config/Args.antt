-- ===== src/Config/Args.antt =====
-- `ebaf_parse_args` of src/user/config.c. The arguments are C strings; `argv[0]` is left out of
-- the list, since the loop starts at 1.
use Prim.Native.Nat.{bit_or, ◌-◌, ◌^◌}
use mathlib.Core.Bool.{not}
use e_ba_f_project.Base.{
  ℕ, ◌≡◌, refl, arith, Bool, true, false, Option, none, some, List, [], ◌∷◌, leb, u16,
  if◌then◌else◌, length, replicate,
}
use e_ba_f_project.Base.Text.{codes, str_eq}
use e_ba_f_project.Wire.{
  CryptoConfig, aes128_key_bytes, chacha20_key_bytes, default_udp_port, action_encrypt,
  action_decrypt, algo_cbc_aes, algo_chacha20, crypto_f_transparent,
}
use e_ba_f_project.Config.HexKey.{parse_hex_key}
use e_ba_f_project.Config.Strtoul.{parse_uint}

abbrev pub iface_name_max : ℕ
iface_name_max = 64

abbrev pub hook_xdp : ℕ
hook_xdp = 1

abbrev pub hook_tc : ℕ
hook_tc = 2

abbrev pub hook_both : ℕ
hook_both = 3

abbrev pub tc_attach_auto : ℕ
tc_attach_auto = 0

abbrev pub tc_attach_ingress : ℕ
tc_attach_ingress = 1

abbrev pub tc_attach_egress : ℕ
tc_attach_egress = 2

abbrev pub uint_max : ℕ
uint_max = 2 ^ 32 - 1

-- struct ebaf_user_config
pub record UserConfig : Type 0 where
  pub iface : List ℕ
  pub crypto : CryptoConfig
  pub hook : ℕ
  pub tc_attach : ℕ
  pub stats_interval_sec : ℕ
  pub duration_sec : ℕ
  pub print_events : Bool
  pub output_jsonl : Bool

-- The local variables of the parser and the fields of `cfg` that its loop sets.
pub record Options : Type 0 where
  pub iface : Option (List ℕ)
  pub mode : Option (List ℕ)
  pub key : Option (List ℕ)
  pub algo : List ℕ
  pub port : ℕ
  pub stats_interval_sec : ℕ
  pub duration_sec : ℕ
  pub hook : ℕ
  pub tc_attach : ℕ
  pub flags : ℕ
  pub print_events : Bool
  pub output_jsonl : Bool

abbrev pub defaults : Options
defaults = record {
  iface = none;
  mode = none;
  key = none;
  algo = codes "cbc-aes";
  port = default_udp_port;
  stats_interval_sec = 1;
  duration_sec = 0;
  hook = hook_xdp;
  tc_attach = tc_attach_auto;
  flags = 0;
  print_events = false;
  output_jsonl = false;
}

-- The options that take the next argument, and those that stand alone.
pub data Valued : Type 0 where
  iface_opt mode_opt key_opt algo_opt port_opt stats_interval_opt duration_opt hook_opt : Valued

pub data Switch : Type 0 where
  events_opt jsonl_opt transparent_opt tc_ingress_opt tc_egress_opt : Switch

unfoldable pub valued : List ℕ → Option Valued
unfolding str_eq
valued arg =
    if str_eq arg (codes "--iface")
    then some iface_opt
    else if str_eq arg (codes "--mode")
    then some mode_opt
    else if str_eq arg (codes "--key")
    then some key_opt
    else if str_eq arg (codes "--algo")
    then some algo_opt
    else if str_eq arg (codes "--port")
    then some port_opt
    else if str_eq arg (codes "--stats-interval")
    then some stats_interval_opt
    else if str_eq arg (codes "--duration")
    then some duration_opt
    else if str_eq arg (codes "--hook")
    then some hook_opt
    else none

unfoldable pub switch : List ℕ → Option Switch
unfolding str_eq
switch arg =
    if str_eq arg (codes "--events")
    then some events_opt
    else if str_eq arg (codes "--jsonl")
    then some jsonl_opt
    else if str_eq arg (codes "--transparent")
    then some transparent_opt
    else if str_eq arg (codes "--tc-ingress")
    then some tc_ingress_opt
    else if str_eq arg (codes "--tc-egress")
    then some tc_egress_opt
    else none

unfoldable pub hook_value : List ℕ → Option ℕ
unfolding str_eq
hook_value arg =
    if str_eq arg (codes "xdp")
    then some hook_xdp
    else if str_eq arg (codes "tc")
    then some hook_tc
    else if str_eq arg (codes "both")
    then some hook_both
    else none

infixl 5 ◌>>=◌ ◌>>◌
abbrev pub ◌>>=◌ {ℓ κ} : {A : Type ℓ} {B : Type κ} → Option A → (A → Option B) → Option B
none >>= f = none
some a >>= f = f a

abbrev pub ◌>>◌ {ℓ} : {B : Type ℓ} → Option (Unit {0}) → Option B → Option B
m >> k = m >>= λ _. k

unfoldable pub set_valued : Valued → List ℕ → Options → Option Options
unfolding hook_value
set_valued iface_opt arg o = some (record o { iface = some arg })
set_valued mode_opt arg o = some (record o { mode = some arg })
set_valued key_opt arg o = some (record o { key = some arg })
set_valued algo_opt arg o = some (record o { algo = arg })
set_valued port_opt arg o = do port ← parse_uint arg 1 65535; some (record o { port = port })
set_valued stats_interval_opt arg o = do
  seconds ← parse_uint arg 1 uint_max
  some (record o { stats_interval_sec = seconds })
set_valued duration_opt arg o = do
  seconds ← parse_uint arg 1 uint_max
  some (record o { duration_sec = seconds })
set_valued hook_opt arg o = do hook ← hook_value arg; some (record o { hook = hook })

unfoldable pub set_switch : Switch → Options → Options
set_switch events_opt o = record o { print_events = true }
set_switch jsonl_opt o = record o { output_jsonl = true; print_events = true }
set_switch transparent_opt o = record o { flags = bit_or o.flags crypto_f_transparent }
set_switch tc_ingress_opt o = record o { tc_attach = tc_attach_ingress }
set_switch tc_egress_opt o = record o { tc_attach = tc_attach_egress }

abbrev pub apply_switch : Option Switch → Options → Option Options
apply_switch none o = none
apply_switch (some s) o = some (set_switch s o)

-- The loop over the arguments. An option that wants a value is none of the switches, so at the
-- end of the list it is refused.
unfoldable pub parse_opts : List (List ℕ) → Options → Option Options
unfolding valued switch set_valued set_switch
parse_opts [] o = some o
parse_opts (arg ∷ []) o = apply_switch (switch arg) o
parse_opts (arg ∷ value ∷ rest) o = elim (valued arg) [
  | some v ↦ set_valued v value o >>= λ o'. parse_opts rest o'
  | none ↦ apply_switch (switch arg) o >>= λ o'. parse_opts (value ∷ rest) o'
]

unfoldable pub mode_action : List ℕ → Option ℕ
unfolding str_eq
mode_action mode =
    if str_eq mode (codes "encrypt")
    then some action_encrypt
    else if str_eq mode (codes "decrypt")
    then some action_decrypt
    else none

-- The algorithm's number and the length of its key.
unfoldable pub algo_value : List ℕ → Option (ℕ × ℕ)
unfolding str_eq
algo_value algo =
    if str_eq algo (codes "cbc-aes")
    then some (algo_cbc_aes, aes128_key_bytes)
    else if str_eq algo (codes "chacha20")
    then some (algo_chacha20, chacha20_key_bytes)
    else none

abbrev pub guard : Bool → Option (Unit {0})
guard true = some tt
guard false = none

-- `ebaf_parse_hex_key(...) != 0` is an error; else the key array as it was filled in.
abbrev pub filled : Bool × List ℕ → Option (List ℕ)
filled (true, key) = some key
filled (false, key) = none

-- What follows the loop.
unfoldable pub finish : Options → Option UserConfig
finish o = do
  iface ← o.iface
  mode ← o.mode
  hex ← o.key
  guard (not (leb iface_name_max (length iface)))
  action ← mode_action mode
  (algo, key_len) ← algo_value o.algo
  key ← filled (parse_hex_key hex (replicate chacha20_key_bytes 0) key_len)
  some (record {
    iface = iface;
    crypto = record {
      key = key;
      key_len = key_len;
      action = action;
      algo = algo;
      flags = o.flags;
      udp_port = u16 o.port;
    };
    hook = o.hook;
    tc_attach = o.tc_attach;
    stats_interval_sec = o.stats_interval_sec;
    duration_sec = o.duration_sec;
    print_events = o.print_events;
    output_jsonl = o.output_jsonl;
  })

-- `none` is the -1 of the code.
unfoldable pub parse_args : List (List ℕ) → Option UserConfig
unfolding parse_opts finish
parse_args argv = parse_opts argv defaults >>= finish

-- Inversion of a chain that gave a result.
pub >>=-eq-some {ℓ κ} :
    {A : Type ℓ} {B : Type κ} (m : Option A) (f : A → Option B) {b : B}
    → (m >>= f) ≡ some b
    → (a : A) × (m ≡ some a) × (f a ≡ some b)
>>=-eq-some none f h = cc
>>=-eq-some (some a) f h = (a, refl, h)

-- The two ways in which a round of the loop goes on.
pub parse_opts-valued :
    (arg value : List ℕ) (rest : List (List ℕ)) (o : Options) (v : Valued)
    → valued arg ≡ some v
    → parse_opts (arg ∷ value ∷ rest) o ≡ (set_valued v value o >>= λ o'. parse_opts rest o')
unfolding parse_opts
parse_opts-valued arg value rest o v found = ground (arith, found)

pub parse_opts-switch :
    (arg value : List ℕ) (rest : List (List ℕ)) (o : Options)
    → valued arg ≡ none
    → parse_opts (arg ∷ value ∷ rest) o
      ≡ (apply_switch (switch arg) o >>= λ o'. parse_opts (value ∷ rest) o')
unfolding parse_opts
parse_opts-switch arg value rest o other = ground (arith, other)
