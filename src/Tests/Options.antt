-- ===== src/Tests/Options.antt =====
-- The command line and the program that creates the crypto context, on concrete arguments.
use e_ba_f_project.Base.{
  ℕ, ◌+◌, ◌-◌, ◌^◌, ◌≡◌, ◌≢◌, ◌⊎◌, refl, true, false, some, none, List, [], ◌∷◌, length, replicate,
  arith,
}
use e_ba_f_project.Base.Text.{codes, str_eq}
use e_ba_f_project.Base.Bytes.{overwrite}
use e_ba_f_project.Wire.{action_encrypt}
use e_ba_f_project.Formats.Decimal.{decimal}
use e_ba_f_project.Config.HexKey.{hex_value, hex_loop, parse_hex_key}
use e_ba_f_project.Config.Decoding.{decode, parse_hex_key_lem}
use e_ba_f_project.Config.Strtoul.{
  parse_uint, strtoul, scan, skip_spaces, read_sign, is_digit, is_space, is_empty,
}
use e_ba_f_project.Config.Uint.{parse_uint-decimal, parse_uint_negative}
use e_ba_f_project.Config.Args
use e_ba_f_project.Config.Args.{UserConfig, parse_args}
use e_ba_f_project.Config.Accepted.{IsUsable, parse_args-IsUsable}
use e_ba_f_project.CtxProgram.{
  CryptoParams, zero_code, CtxState, Created, context, params_of, create_crypto_ctx,
}
use e_ba_f_project.CtxProgram.Contexts.{
  contexts, CreatesNone, Creates, create_crypto_ctx-contexts, create_crypto_ctx_accepts,
}

abbrev hex_key : List ℕ
hex_key = codes "000102030405060708090A0b0c0d0e0f"

abbrev pub argv : List (List ℕ)
argv =
    codes "--iface"
    ∷ codes "eth0"
    ∷ codes "--mode"
    ∷ codes "encrypt"
    ∷ codes "--key"
    ∷ hex_key
    ∷ codes "--port"
    ∷ codes "9000"
    ∷ codes "--jsonl"
    ∷ []

abbrev pub parsed : UserConfig
parsed = record {
  iface = codes "eth0";
  crypto = record {
    key = 0 ∷ 1 ∷ 2 ∷ 3 ∷ 4 ∷ 5 ∷ 6 ∷ 7 ∷ 8 ∷ 9 ∷ 10 ∷ 11 ∷ 12 ∷ 13 ∷ 14 ∷ 15 ∷ replicate 16 0;
    key_len = 16;
    action = action_encrypt;
    algo = 1;
    flags = 0;
    udp_port = 9000;
  };
  hook = 1;
  tc_attach = 0;
  stats_interval_sec = 1;
  duration_sec = 0;
  print_events = true;
  output_jsonl = true;
}

argv-parsed : parse_args argv ≡ some parsed
unfolding parse_args Args.parse_opts Args.finish Args.mode_action Args.algo_value Args.valued
    Args.switch Args.set_valued Args.set_switch Args.hook_value parse_hex_key hex_loop hex_value
    str_eq overwrite parse_uint strtoul scan skip_spaces read_sign is_digit is_space is_empty
argv-parsed = refl

-- The same arguments without the key are refused.
missing_key :
    parse_args (codes "--iface" ∷ codes "eth0" ∷ codes "--mode" ∷ codes "decrypt" ∷ []) ≡ none
unfolding parse_args Args.parse_opts Args.finish Args.valued Args.switch Args.set_valued
    Args.set_switch str_eq
missing_key = refl

-- An option that wants a value is refused at the end of the list.
missing_value : parse_args (codes "--jsonl" ∷ codes "--port" ∷ []) ≡ none
unfolding parse_args Args.parse_opts Args.valued Args.switch Args.set_switch str_eq
missing_value = refl

parse_args-IsUsable_example : IsUsable parsed
parse_args-IsUsable_example = parse_args-IsUsable argv parsed argv-parsed

parse_hex_key_lem_example :
    ((length (codes "7fC0") ≡ 4)
      × ((bytes : List ℕ) × (decode (codes "7fC0") ≡ some bytes)
          × (parse_hex_key (codes "7fC0") (0 ∷ 0 ∷ 9 ∷ []) 2
              ≡ (true, overwrite (0 ∷ 0 ∷ 9 ∷ []) 0 bytes))))
    ⊎ (((length (codes "7fC0") ≢ 4) ⊎ (decode (codes "7fC0") ≡ none))
        × ((parse_hex_key (codes "7fC0") (0 ∷ 0 ∷ 9 ∷ []) 2).0 ≡ false))
parse_hex_key_lem_example = parse_hex_key_lem (codes "7fC0") (0 ∷ 0 ∷ 9 ∷ []) 2

parse_uint-decimal_example : parse_uint (decimal 7777) 1 65535 ≡ some 7777
parse_uint-decimal_example =
    parse_uint-decimal 7777 1 65535 (omega arith) (omega arith) (omega arith)

parse_uint_negative_example : parse_uint (b'-' ∷ decimal (2 ^ 64 - 7777)) 1 65535 ≡ some 7777
parse_uint_negative_example =
    parse_uint_negative 7777 1 65535 (omega arith) (omega arith) (omega arith) (omega arith)

abbrev create : CryptoParams → Created
create params = context (params.key_len + 1)

abbrev loaded : CtxState
loaded = record { config = some parsed.crypto; slot = some (some 3); released = [] }

create_crypto_ctx-contexts_example :
    (CreatesNone create (some parsed.crypto)
      × (contexts (create_crypto_ctx create loaded).1 ≡ 3 ∷ []))
    ⊎ ((ctx : ℕ) × Creates create (some parsed.crypto) ctx
        × (contexts (create_crypto_ctx create loaded).1 ≡ ctx ∷ 3 ∷ []))
create_crypto_ctx-contexts_example = create_crypto_ctx-contexts create loaded

create_crypto_ctx_accepts_example :
    (length (params_of parsed.crypto).key ≡ (params_of parsed.crypto).key_len)
    × ((create_crypto_ctx create loaded).0 ≡ zero_code)
    × ((create_crypto_ctx create loaded).1.slot ≡ some (some 17))
unfolding params_of
create_crypto_ctx_accepts_example =
    create_crypto_ctx_accepts create loaded argv parsed (some 3) 17 argv-parsed refl refl refl
