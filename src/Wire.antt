-- ===== src/Wire.antt =====
-- include/crypto_common.h: the constants and structures that the packet programs, the loader
-- and the formatters share. Sizes are those of the packed layouts that the code relies on.
use e_ba_f_project.Base.{ℕ, ◌+◌, ◌*◌, List, byte_at}

abbrev pub aes128_key_bytes : ℕ
aes128_key_bytes = 16

abbrev pub chacha20_key_bytes : ℕ
chacha20_key_bytes = 32

abbrev pub crypto_iv_bytes : ℕ
crypto_iv_bytes = 16

abbrev pub crypto_block_bytes : ℕ
crypto_block_bytes = 16

abbrev pub crypto_iv_offset : ℕ
crypto_iv_offset = 8

abbrev pub crypto_magic : ℕ
crypto_magic = 0x4542_4146

abbrev pub crypto_version : ℕ
crypto_version = 1

abbrev pub default_udp_port : ℕ
default_udp_port = 7777

abbrev pub action_encrypt : ℕ
action_encrypt = 1

abbrev pub action_decrypt : ℕ
action_decrypt = 2

abbrev pub algo_cbc_aes : ℕ
algo_cbc_aes = 1

abbrev pub algo_chacha20 : ℕ
algo_chacha20 = 2

abbrev pub event_sample_bytes : ℕ
event_sample_bytes = 32

abbrev pub crypto_f_transparent : ℕ
crypto_f_transparent = 1

abbrev pub max_transparent_payload : ℕ
max_transparent_payload = 1408

-- sizeof(struct ethhdr), sizeof(struct iphdr), sizeof(struct udphdr) and
-- sizeof(struct ebaf_crypto_header).
abbrev pub eth_bytes : ℕ
eth_bytes = 14

abbrev pub ip_bytes : ℕ
ip_bytes = 20

abbrev pub udp_bytes : ℕ
udp_bytes = 8

abbrev pub header_bytes : ℕ
header_bytes = 24

abbrev pub eth_p_ip : ℕ
eth_p_ip = 0x0800

abbrev pub ipproto_udp : ℕ
ipproto_udp = 17

abbrev pub xdp_pass : ℕ
xdp_pass = 2

abbrev pub tc_act_ok : ℕ
tc_act_ok = 0

-- struct ebaf_crypto_config; `key` holds the bytes of the key array.
pub record CryptoConfig : Type 0 where
  pub key : List ℕ
  pub key_len : ℕ
  pub action : ℕ
  pub algo : ℕ
  pub flags : ℕ
  pub udp_port : ℕ

-- struct ebaf_crypto_stats
pub record CryptoStats : Type 0 where
  pub packets_seen : ℕ
  pub packets_passed : ℕ
  pub packets_crypto_ok : ℕ
  pub packets_crypto_fail : ℕ
  pub packets_malformed : ℕ
  pub packets_bad_eth : ℕ
  pub packets_bad_ip : ℕ
  pub packets_bad_udp : ℕ
  pub packets_bad_magic : ℕ
  pub packets_bad_length : ℕ
  pub packets_bad_alignment : ℕ
  pub packets_no_crypto_ctx : ℕ

-- struct ebaf_crypto_event. An address is the number that its four bytes in network order
-- stand for; `sample` holds the bytes of the array that the program has written.
pub record CryptoEvent : Type 0 where
  pub timestamp_ns : ℕ
  pub src_ip : ℕ
  pub dst_ip : ℕ
  pub src_port : ℕ
  pub dst_port : ℕ
  pub payload_len : ℕ
  pub data_len : ℕ
  pub action : ℕ
  pub algo : ℕ
  pub result : ℕ
  pub sample_len : ℕ
  pub sample : List ℕ

-- A packet: all its bytes, and the number of them between `data` and `data_end`, which the
-- program may access directly. Offsets are from `data`.
pub record Packet : Type 0 where
  pub bytes : List ℕ
  pub data_end : ℕ

-- A big-endian 16-bit field (bpf_ntohs of it) and 32-bit field (bpf_ntohl).
abbrev pub be16 : List ℕ → ℕ → ℕ
be16 b off = byte_at b off * 256 + byte_at b (off + 1)

abbrev pub be32 : List ℕ → ℕ → ℕ
be32 b off = be16 b off * 65536 + be16 b (off + 2)
