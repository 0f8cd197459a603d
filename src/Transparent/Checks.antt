-- ===== src/Transparent/Checks.antt =====
-- The checks of src/bpf/tc_transparent.bpf.c up to the choice between its two paths.
use e_ba_f_project.Base.{
  ℕ, ◌+◌, ◌-◌, ◌*◌, ◌≤◌, ◌≡◌, ◌≢◌, ◌⊎◌, ◌↔◌, Option, some, ltb, ◌!=◌, ◌&&◌, ◌||◌, low_bits, byte_at,
  arith,
}
use e_ba_f_project.Flow.{
  bad_eth, bad_ip, bad_udp, passed, failed, rejected, fault, Flow, next, exit, ◌>>=◌, ◌>>◌, exit_if,
  or_exit, >>=-eq-next,
}
use e_ba_f_project.Wire.{
  CryptoConfig, Packet, eth_bytes, ip_bytes, udp_bytes, eth_p_ip, ipproto_udp, algo_cbc_aes,
  action_encrypt, action_decrypt, be16,
}
use e_ba_f_project.Machine.{load8, load16}

-- A datagram that passes the checks.
pub record Datagram : Type 0 where
  pub config : CryptoConfig
  pub udp : ℕ
  pub payload_len : ℕ

-- The Ethernet and IPv4 checks: an IPv4 header without options, and no fragment.
unfoldable pub parse_ip : Packet → Flow ℕ
parse_ip p = do
  exit_if (ltb p.data_end eth_bytes) (rejected bad_eth)
  h_proto ← load16 p 12
  exit_if (h_proto != eth_p_ip) passed
  let ip = eth_bytes
  exit_if (ltb p.data_end (ip + ip_bytes)) (rejected bad_ip)
  version_ihl ← load8 p ip
  let ihl = low_bits version_ihl 4
  exit_if (ihl != 5) (rejected bad_ip)
  exit_if (ltb p.data_end (ip + ihl * 4)) (rejected bad_ip)
  frag_off ← load16 p (ip + 6)
  exit_if (low_bits frag_off 14 != 0) (rejected bad_ip)
  protocol ← load8 p (ip + 9)
  exit_if (protocol != ipproto_udp) passed
  next (ip + ihl * 4)

unfoldable pub parse_udp : Packet → Option CryptoConfig → ℕ → Flow Datagram
parse_udp p lookup udp = do
  exit_if (ltb p.data_end (udp + udp_bytes)) (rejected bad_udp)
  config ← or_exit lookup failed
  exit_if
      (config.algo != algo_cbc_aes
        || (config.action != action_encrypt && config.action != action_decrypt))
      passed
  dest ← load16 p (udp + 2)
  exit_if (dest != config.udp_port) passed
  len ← load16 p (udp + 4)
  exit_if (ltb len udp_bytes) (rejected bad_udp)
  let payload_len = len - udp_bytes
  exit_if (ltb p.data_end (udp + udp_bytes + payload_len)) (rejected bad_udp)
  next (record { config = config; udp = udp; payload_len = payload_len })

unfoldable pub parse : Packet → Option CryptoConfig → Flow Datagram
unfolding parse_ip parse_udp
parse p lookup = parse_ip p >>= parse_udp p lookup

-- A plain UDP datagram to the configured port, under a configuration for AES-CBC with a known
-- action; it lies in the packet, its IPv4 header has no options, and it is no fragment.
pub record IsDatagram (p : Packet) (lookup : Option CryptoConfig) (d : Datagram) : Type 0 where
  pub ethernet : be16 p.bytes 12 ≡ eth_p_ip
  pub words : low_bits (byte_at p.bytes 14) 4 ≡ 5
  pub whole : low_bits (be16 p.bytes 20) 14 ≡ 0
  pub protocol : byte_at p.bytes 23 ≡ ipproto_udp
  pub udp_at : d.udp ≡ 34
  pub configured : lookup ≡ some d.config
  pub known : (d.config.action ≡ action_encrypt) ⊎ (d.config.action ≡ action_decrypt)
  pub cbc : d.config.algo ≡ algo_cbc_aes
  pub port : be16 p.bytes 36 ≡ d.config.udp_port
  pub udp_len : be16 p.bytes 38 ≡ d.payload_len + udp_bytes
  pub udp_fits : 42 + d.payload_len ≤ p.data_end

parse_ip_iff :
    (p : Packet) (udp : ℕ)
    → (parse_ip p ≡ next udp) ↔ (
        (be16 p.bytes 12 ≡ eth_p_ip)
        × (low_bits (byte_at p.bytes 14) 4 ≡ 5)
        × (low_bits (be16 p.bytes 20) 14 ≡ 0)
        × (byte_at p.bytes 23 ≡ ipproto_udp)
        × (udp ≡ 34)
        × (34 ≤ p.data_end))
unfolding parse_ip
parse_ip_iff p udp = (λ h. ground arith, λ h. ground arith)

parse_udp_iff :
    (p : Packet) (lookup : Option CryptoConfig) (d : Datagram)
    → (parse_udp p lookup 34 ≡ next d) ↔ (
        (d.udp ≡ 34)
        × (lookup ≡ some d.config)
        × ((d.config.action ≡ action_encrypt) ⊎ (d.config.action ≡ action_decrypt))
        × (d.config.algo ≡ algo_cbc_aes)
        × (be16 p.bytes 36 ≡ d.config.udp_port)
        × (be16 p.bytes 38 ≡ d.payload_len + udp_bytes)
        × (42 + d.payload_len ≤ p.data_end))
unfolding parse_udp
parse_udp_iff p lookup d = (λ h. ground arith, λ h. ground arith)

parse_sound :
    (p : Packet) (lookup : Option CryptoConfig) (d : Datagram)
    → parse p lookup ≡ next d
    → IsDatagram p lookup d
unfolding parse
parse_sound p lookup d h =
    let (udp, ip_ok, udp_ok) = >>=-eq-next (parse_ip p) _ h in
    let ip = (parse_ip_iff p udp).0 ip_ok in
    let at_34 : parse_udp p lookup 34 ≡ next d = ground (arith, ip, udp_ok) in
    let datagram = (parse_udp_iff p lookup d).0 at_34 in ground (arith, ip, datagram)

parse_complete :
    (p : Packet) (lookup : Option CryptoConfig) (d : Datagram)
    → IsDatagram p lookup d
    → parse p lookup ≡ next d
unfolding parse
parse_complete p lookup d h =
    let ip : parse_ip p ≡ next 34 = (parse_ip_iff p 34).1 (ground arith) in
    rw ip ((parse_udp_iff p lookup d).1 (ground arith))

-- The program's checks accept a packet as the datagram `d` exactly if it is one.
pub parse_transparent_iff :
    (p : Packet) (lookup : Option CryptoConfig) (d : Datagram)
    → (parse p lookup ≡ next d) ↔ IsDatagram p lookup d
parse_transparent_iff p lookup d = (parse_sound p lookup d, parse_complete p lookup d)

parse_ip_safe : (p : Packet) → parse_ip p ≢ exit fault
unfolding parse_ip
parse_ip_safe p h = ground arith

parse_udp_safe :
    (p : Packet) (lookup : Option CryptoConfig) (udp : ℕ) → parse_udp p lookup udp ≢ exit fault
unfolding parse_udp
parse_udp_safe p lookup udp h = ground arith

-- No check reads behind `data_end`, on any packet.
pub parse_safe : (p : Packet) (lookup : Option CryptoConfig) → parse p lookup ≢ exit fault
unfolding parse
parse_safe p lookup h = grind (arith, parse_ip_safe, parse_udp_safe)
