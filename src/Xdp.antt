-- ===== src/Xdp.antt =====
-- src/bpf/xdp_crypto.bpf.c: the XDP program, which enciphers or deciphers the body of an eBaF
-- frame in place. `parse` is its checks up to the saving of the IV, `prepare` the lookups and
-- dynptr calls before the cipher; what follows them is `Framed.apply`.
pub mod Shape
pub mod Program
pub mod Laws
pub mod RoundTrip
use e_ba_f_project.Base.{
  ℕ, zero, suc, ◌+◌, ◌-◌, ◌*◌, Bool, false, Option, some, List, [], ◌∷◌, ◌++◌, ltb, leb, ◌==◌, ◌!=◌,
  ◌&&◌, ◌||◌, if◌then◌else◌, low_bits, u8, u16, length, byte_at,
}
use e_ba_f_project.Base.Bytes.{slice, overwrite}
use e_ba_f_project.Flow.{
  bad_eth, bad_ip, bad_udp, bad_magic, bad_length, bad_alignment, no_crypto_ctx, passed, failed,
  fault, rejected, Flow, next, exit, ◌>>=◌, ◌>>◌, exit_if, or_exit,
}
use e_ba_f_project.Wire.{
  CryptoConfig, CryptoEvent, Packet, eth_bytes, ip_bytes, udp_bytes, header_bytes, eth_p_ip,
  ipproto_udp, crypto_magic, crypto_version, algo_cbc_aes, crypto_iv_offset, crypto_iv_bytes,
  action_encrypt, action_decrypt, event_sample_bytes, xdp_pass,
}
use e_ba_f_project.Kernel.{Dynptr, Kernel}
use e_ba_f_project.Framed.{Frame, payload_of, Job, Framed, run}
use e_ba_f_project.Machine.{
  Machine, packets_seen, packets_crypto_ok, packets_crypto_fail, count, leave, load8, load16,
  load32,
}

-- The Ethernet and IPv4 checks; the offset of the UDP header.
unfoldable pub parse_ip : Packet → Flow ℕ
parse_ip p = do
  exit_if (ltb p.data_end eth_bytes) (rejected bad_eth)
  h_proto ← load16 p 12
  exit_if (h_proto != eth_p_ip) passed
  let ip = eth_bytes
  exit_if (ltb p.data_end (ip + ip_bytes)) (rejected bad_ip)
  version_ihl ← load8 p ip
  let ihl = low_bits version_ihl 4
  exit_if (ltb ihl 5) (rejected bad_ip)
  exit_if (ltb p.data_end (ip + ihl * 4)) (rejected bad_ip)
  protocol ← load8 p (ip + 9)
  exit_if (protocol != ipproto_udp) passed
  next (ip + ihl * 4)

-- The UDP checks, for a header at `udp`; the configuration and the payload's length.
unfoldable pub parse_udp : Packet → Option CryptoConfig → ℕ → Flow (CryptoConfig × ℕ)
parse_udp p lookup udp = do
  exit_if (ltb p.data_end (udp + udp_bytes)) (rejected bad_udp)
  config ← or_exit lookup failed
  dest ← load16 p (udp + 2)
  exit_if (dest != config.udp_port) passed
  len ← load16 p (udp + 4)
  exit_if (ltb len udp_bytes) (rejected bad_udp)
  let payload_len = len - udp_bytes
  exit_if (ltb p.data_end (udp + udp_bytes + payload_len)) (rejected bad_udp)
  next (config, payload_len)

-- The checks of the eBaF header at `payload`; the length of the body.
unfoldable pub parse_header : Packet → CryptoConfig → ℕ → ℕ → Flow ℕ
parse_header p config payload payload_len = do
  exit_if (ltb payload_len header_bytes) (rejected bad_length)
  exit_if (ltb p.data_end (payload + header_bytes)) (rejected bad_length)
  magic ← load32 p payload
  exit_if (magic != crypto_magic) (rejected bad_magic)
  version ← load8 p (payload + 4)
  exit_if (version != crypto_version) (rejected bad_magic)
  let data_len = payload_len - header_bytes
  hdr_payload_len ← load16 p (payload + 6)
  exit_if (hdr_payload_len != data_len) (rejected bad_length)
  exit_if (data_len == 0) (rejected bad_length)
  exit_if (config.algo == algo_cbc_aes && low_bits data_len 4 != 0) (rejected bad_alignment)
  next data_len

unfoldable pub parse : Packet → Option CryptoConfig → Flow Frame
parse p lookup = do
  udp ← parse_ip p
  (config, payload_len) ← parse_udp p lookup udp
  data_len ← parse_header p config (payload_of udp) payload_len
  next (record { config = config; udp = udp; payload_len = payload_len; data_len = data_len })

module _ (k : Kernel) where
  unfoldable pub prepare : Machine → Frame → Flow Job
  prepare m f = do
    slot ← or_exit m.slot (rejected no_crypto_ctx)
    crypto_ctx ← or_exit slot (rejected no_crypto_ctx)
    pkt ← or_exit (k.bpf_dynptr_from_xdp m.packet) failed
    let payload_off = payload_of f.udp
    let data_off = payload_off + header_bytes
    let iv_off = payload_off + crypto_iv_offset
    data_clone ← or_exit (k.bpf_dynptr_clone pkt) failed
    data_ptr ← or_exit (k.bpf_dynptr_adjust data_clone data_off (data_off + f.data_len)) failed
    iv_clone ← or_exit (k.bpf_dynptr_clone pkt) failed
    iv_ptr ← or_exit (k.bpf_dynptr_adjust iv_clone iv_off (iv_off + crypto_iv_bytes)) failed
    next (record { ctx = crypto_ctx; data_ptr = data_ptr; iv_ptr = iv_ptr })

  -- The call that the configured action selects; any other action is an error.
  unfoldable pub run_cipher : CryptoConfig → Job → Packet → Bool × Packet
  run_cipher config j p =
      if config.action == action_encrypt
      then k.bpf_crypto_encrypt j.ctx j.data_ptr j.data_ptr j.iv_ptr p
      else if config.action == action_decrypt
      then k.bpf_crypto_decrypt j.ctx j.data_ptr j.data_ptr j.iv_ptr p
      else (false, p)

-- The program, by its parts.
unfoldable pub xdp : Kernel → Framed
unfolding parse prepare run_cipher
xdp k = record { code = xdp_pass; parse = parse; prepare = prepare k; call = run_cipher k }

unfoldable pub xdp_crypto : Kernel → Machine → Option ℕ × Machine
unfolding xdp
xdp_crypto k = run k (xdp k)
