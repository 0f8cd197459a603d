-- ===== src/CtxProgram.antt =====
-- src/bpf/crypto_ctx.bpf.c: the program that the loader runs once to put a crypto context, made
-- of the configured key, into the map that the packet programs read it from.
pub mod Contexts
use e_ba_f_project.Base.{
  ℕ, Bool, true, false, Option, none, some, List, [], ◌∷◌, ◌==◌, ◌!=◌, ◌&&◌, if◌then◌else◌, take,
}
use e_ba_f_project.Base.Text.{codes}
use e_ba_f_project.Wire.{
  CryptoConfig, aes128_key_bytes, chacha20_key_bytes, algo_cbc_aes, algo_chacha20,
}

-- The fields of struct bpf_crypto_params that the program sets.
pub record CryptoParams : Type 0 where
  pub type_name : List ℕ
  pub algo_name : List ℕ
  pub key : List ℕ
  pub key_len : ℕ

-- An int of the program: a value, or minus a value.
pub data Code : Type 0 where
  zero_code : Code
  minus : ℕ → Code

-- The map entries, `none` being NULL, and the crypto contexts that were released.
pub record CtxState : Type 0 where
  pub config : Option CryptoConfig
  pub slot : Option (Option ℕ)
  pub released : List ℕ

-- What bpf_crypto_ctx_create gives: a context, or NULL with an error code, 0 if it set none.
pub data Created : Type 0 where
  context : ℕ → Created
  failure : ℕ → Created

unfoldable pub check_config : CryptoConfig → Bool
check_config config =
    if config.algo == algo_cbc_aes && config.key_len != aes128_key_bytes
    then false
    else if config.algo == algo_chacha20 && config.key_len != chacha20_key_bytes
    then false
    else if config.algo != algo_cbc_aes && config.algo != algo_chacha20
    then false
    else true

unfoldable pub params_of : CryptoConfig → CryptoParams
params_of config =
    if config.algo == algo_chacha20
    then record {
      type_name = codes "skcipher";
      algo_name = codes "chacha20";
      key = take chacha20_key_bytes config.key;
      key_len = config.key_len;
    }
    else record {
      type_name = codes "skcipher";
      algo_name = codes "cbc(aes)";
      key = take aes128_key_bytes config.key;
      key_len = config.key_len;
    }

-- The exchange of the slot's context for the new one; the old one is released.
unfoldable pub install : ℕ → CtxState → Code × CtxState
install ctx s = elim s.slot [
  | none ↦ (minus 4, record s { released = ctx ∷ s.released })
  | some none ↦ (zero_code, record s { slot = some (some ctx) })
  | some (some old) ↦ (zero_code, record s { slot = some (some ctx); released = old ∷ s.released })
]

module _ (bpf_crypto_ctx_create : CryptoParams → Created) where
  unfoldable pub create_crypto_ctx : CtxState → Code × CtxState
  create_crypto_ctx s = elim s.config [
    | none ↦ (minus 1, s)
    | some config ↦ elim (check_config config) [
      | false ↦ (minus 2, s)
      | true ↦ elim (bpf_crypto_ctx_create (params_of config)) [
        | failure err ↦ (if err == 0 then minus 3 else minus err, s)
        | context ctx ↦ install ctx s
      ]
    ]
  ]
