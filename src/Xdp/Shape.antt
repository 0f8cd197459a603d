-- ===== src/Xdp/Shape.antt =====
-- What the checks of src/bpf/xdp_crypto.bpf.c accept: a description of eBaF frames, and the proof
-- that `parse` decides it.
use e_ba_f_project.Base.{
  ℕ, ◌+◌, ◌*◌, ◌≤◌, ◌<◌, ◌≡◌, ◌≢◌, ◌⊎◌, ◌↔◌, Option, some, arith, low_bits, byte_at,
}
use e_ba_f_project.Flow.{next, exit, fault, >>=-eq-next}
use e_ba_f_project.Wire.{
  CryptoConfig, Packet, be16, be32, eth_bytes, udp_bytes, header_bytes, eth_p_ip, ipproto_udp,
  crypto_magic, crypto_version, algo_cbc_aes,
}
use e_ba_f_project.Framed.{Frame, payload_of}
use e_ba_f_project.Xdp.{parse_ip, parse_udp, parse_header, parse}

-- An IPv4 header with at least five words that carries UDP, the UDP header behind its options.
pub record IsIp (p : Packet) (udp : ℕ) : Type 0 where
  pub ethernet : be16 p.bytes 12 ≡ eth_p_ip
  pub words : 5 ≤ low_bits (byte_at p.bytes 14) 4
  pub udp_at : udp ≡ eth_bytes + low_bits (byte_at p.bytes 14) 4 * 4
  pub protocol : byte_at p.bytes 23 ≡ ipproto_udp
  pub ip_fits : udp ≤ p.data_end

-- A UDP datagram to the configured port that lies in the packet.
pub record IsUdp (p : Packet) (lookup : Option CryptoConfig) (udp : ℕ) (config : CryptoConfig)
    (payload_len : ℕ) : Type 0 where
  pub configured : lookup ≡ some config
  pub port : be16 p.bytes (udp + 2) ≡ config.udp_port
  pub udp_len : be16 p.bytes (udp + 4) ≡ payload_len + udp_bytes
  pub udp_fits : udp + udp_bytes + payload_len ≤ p.data_end

-- An eBaF header followed by a body of the length that it states; AES-CBC wants whole blocks.
pub record IsHeader (p : Packet) (config : CryptoConfig) (payload payload_len data_len : ℕ)
    : Type 0 where
  pub magic : be32 p.bytes payload ≡ crypto_magic
  pub version : byte_at p.bytes (payload + 4) ≡ crypto_version
  pub stated : be16 p.bytes (payload + 6) ≡ data_len
  pub split : payload_len ≡ header_bytes + data_len
  pub nonempty : 0 < data_len
  pub aligned : (config.algo ≢ algo_cbc_aes) ⊎ (low_bits data_len 4 ≡ 0)

pub record IsFrame (p : Packet) (lookup : Option CryptoConfig) (f : Frame) : Type 0 where
  pub ip : IsIp p f.udp
  pub udp : IsUdp p lookup f.udp f.config f.payload_len
  pub header : IsHeader p f.config (payload_of f.udp) f.payload_len f.data_len

pub parse_ip_sound : (p : Packet) (udp : ℕ) → parse_ip p ≡ next udp → IsIp p udp
unfolding parse_ip
parse_ip_sound p udp h = ground arith

pub parse_ip_complete : (p : Packet) (udp : ℕ) → IsIp p udp → parse_ip p ≡ next udp
unfolding parse_ip
parse_ip_complete p udp h = ground arith

pub parse_udp_sound :
    (p : Packet) (lookup : Option CryptoConfig) (udp : ℕ) (config : CryptoConfig) (payload_len : ℕ)
    → parse_udp p lookup udp ≡ next (config, payload_len)
    → IsUdp p lookup udp config payload_len
unfolding parse_udp
parse_udp_sound p lookup udp config payload_len h = ground arith

pub parse_udp_complete :
    (p : Packet) (lookup : Option CryptoConfig) (udp : ℕ) (config : CryptoConfig) (payload_len : ℕ)
    → IsUdp p lookup udp config payload_len
    → parse_udp p lookup udp ≡ next (config, payload_len)
unfolding parse_udp
parse_udp_complete p lookup udp config payload_len h = ground arith

pub parse_header_sound :
    (p : Packet) (config : CryptoConfig) (payload payload_len data_len : ℕ)
    → parse_header p config payload payload_len ≡ next data_len
    → IsHeader p config payload payload_len data_len
unfolding parse_header
parse_header_sound p config payload payload_len data_len h = ground arith

pub parse_header_complete :
    (p : Packet) (config : CryptoConfig) (payload payload_len data_len : ℕ)
    → payload + payload_len ≤ p.data_end
    → IsHeader p config payload payload_len data_len
    → parse_header p config payload payload_len ≡ next data_len
unfolding parse_header
parse_header_complete p config payload payload_len data_len fits h = ground arith

parse_sound :
    (p : Packet) (lookup : Option CryptoConfig) (f : Frame)
    → parse p lookup ≡ next f
    → IsFrame p lookup f
unfolding parse
parse_sound p lookup f h =
    let (udp, ip_ok, h₁) = >>=-eq-next (parse_ip p) _ h in
    let (datagram, udp_ok, h₂) = >>=-eq-next (parse_udp p lookup udp) _ h₁ in
    let (data_len, header_ok, h₃) =
      >>=-eq-next (parse_header p datagram.0 (payload_of udp) datagram.1) _ h₂ in
    ground (
      arith,
      h₃,
      parse_ip_sound p udp ip_ok,
      parse_udp_sound p lookup udp datagram.0 datagram.1 udp_ok,
      parse_header_sound p datagram.0 (payload_of udp) datagram.1 data_len header_ok,
    )

parse_complete :
    (p : Packet) (lookup : Option CryptoConfig) (f : Frame)
    → IsFrame p lookup f
    → parse p lookup ≡ next f
unfolding parse
parse_complete p lookup f h = ground (
  arith,
  parse_ip_complete p f.udp h.ip,
  parse_udp_complete p lookup f.udp f.config f.payload_len h.udp,
  parse_header_complete p f.config (payload_of f.udp) f.payload_len f.data_len,
)

-- The program's checks accept a packet as the frame `f` exactly if it is one.
pub parse_xdp_iff :
    (p : Packet) (lookup : Option CryptoConfig) (f : Frame)
    → (parse p lookup ≡ next f) ↔ IsFrame p lookup f
parse_xdp_iff p lookup f = (parse_sound p lookup f, parse_complete p lookup f)

parse_ip_safe : (p : Packet) → parse_ip p ≢ exit fault
unfolding parse_ip
parse_ip_safe p h = ground arith

parse_udp_safe :
    (p : Packet) (lookup : Option CryptoConfig) (udp : ℕ) → parse_udp p lookup udp ≢ exit fault
unfolding parse_udp
parse_udp_safe p lookup udp h = ground arith

parse_header_safe :
    (p : Packet) (config : CryptoConfig) (payload payload_len : ℕ)
    → parse_header p config payload payload_len ≢ exit fault
unfolding parse_header
parse_header_safe p config payload payload_len h = ground arith

-- No check reads behind `data_end`, on any packet.
pub parse_safe : (p : Packet) (lookup : Option CryptoConfig) → parse p lookup ≢ exit fault
unfolding parse
parse_safe p lookup h = grind (arith, parse_ip_safe, parse_udp_safe, parse_header_safe)
