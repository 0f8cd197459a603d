-- ===== src/TcCrypto.antt =====
-- src/bpf/tc_crypto.bpf.c: the TC program for eBaF frames. Its checks differ from those of the
-- XDP program: it refuses fragments, wants a configuration for AES-CBC with a known action before
-- it looks at the port, wants the action in the header to be 1, and whole blocks always.
pub mod Shape
pub mod Program
pub mod Laws
pub mod RoundTrip
use e_ba_f_project.Base.{
  ℕ, ◌+◌, ◌-◌, ◌*◌, Bool, Option, ltb, ◌==◌, ◌!=◌, ◌&&◌, ◌||◌, if◌then◌else◌, low_bits,
}
use e_ba_f_project.Flow.{
  bad_eth, bad_ip, bad_udp, bad_magic, bad_length, bad_alignment, no_crypto_ctx, passed, failed,
  rejected, Flow, next, ◌>>=◌, ◌>>◌, exit_if, or_exit,
}
use e_ba_f_project.Wire.{
  CryptoConfig, Packet, eth_bytes, ip_bytes, udp_bytes, header_bytes, eth_p_ip, ipproto_udp,
  crypto_magic, crypto_version, algo_cbc_aes, crypto_iv_offset, crypto_iv_bytes, action_encrypt,
  action_decrypt, tc_act_ok,
}
use e_ba_f_project.Kernel.{Kernel}
use e_ba_f_project.Framed.{Frame, payload_of, Job, Framed, run}
use e_ba_f_project.Machine.{Machine, load8, load16, load32}

-- The Ethernet and IPv4 checks; the offset of the UDP header. The low 14 bits of the fragment
-- field are IP_MF and IP_OFFSET.
unfoldable pub parse_ip : Packet → Flow ℕ
parse_ip p = do
  exit_if (ltb p.data_end eth_bytes) (rejected bad_eth)
  h_proto ← load16 p 12
  exit_if (h_proto != eth_p_ip) passed
  let ip = eth_bytes
  exit_if (ltb p.data_end (ip + ip_bytes)) (rejected bad_ip)
  version_ihl ← load8 p ip
  let ihl = low_bits version_ihl 4
  exit_if (ltb ihl 5) (rejected bad_ip)
  exit_if (ltb p.data_end (ip + ihl * 4)) (rejected bad_ip)
  frag_off ← load16 p (ip + 6)
  exit_if (low_bits frag_off 14 != 0) (rejected bad_ip)
  protocol ← load8 p (ip + 9)
  exit_if (protocol != ipproto_udp) passed
  next (ip + ihl * 4)

-- The UDP checks, for a header at `udp`; the configuration and the payload's length.
unfoldable pub parse_udp : Packet → Option CryptoConfig → ℕ → Flow (CryptoConfig × ℕ)
parse_udp p lookup udp = do
  exit_if (ltb p.data_end (udp + udp_bytes)) (rejected bad_udp)
  config ← or_exit lookup failed
  exit_if
      ((config.action != action_encrypt && config.action != action_decrypt)
        || config.algo != algo_cbc_aes)
      passed
  dest ← load16 p (udp + 2)
  exit_if (dest != config.udp_port) passed
  len ← load16 p (udp + 4)
  exit_if (ltb len udp_bytes) (rejected bad_udp)
  let payload_len = len - udp_bytes
  exit_if (ltb p.data_end (udp + udp_bytes + payload_len)) (rejected bad_udp)
  next (config, payload_len)

-- The checks of the eBaF header at `payload`; the length of the body.
unfoldable pub parse_header : Packet → ℕ → ℕ → Flow ℕ
parse_header p payload payload_len = do
  exit_if (ltb payload_len header_bytes) (rejected bad_length)
  exit_if (ltb p.data_end (payload + header_bytes)) (rejected bad_length)
  magic ← load32 p payload
  exit_if (magic != crypto_magic) (rejected bad_magic)
  version ← load8 p (payload + 4)
  exit_if (version != crypto_version) (rejected bad_magic)
  action ← load8 p (payload + 5)
  exit_if (action != action_encrypt) (rejected bad_magic)
  let body_len = payload_len - header_bytes
  hdr_payload_len ← load16 p (payload + 6)
  exit_if (hdr_payload_len != body_len) (rejected bad_length)
  exit_if (body_len == 0) (rejected bad_length)
  exit_if (low_bits body_len 4 != 0) (rejected bad_alignment)
  next body_len

unfoldable pub parse : Packet → Option CryptoConfig → Flow Frame
parse p lookup = do
  udp ← parse_ip p
  (config, payload_len) ← parse_udp p lookup udp
  body_len ← parse_header p (payload_of udp) payload_len
  next (record { config = config; udp = udp; payload_len = payload_len; data_len = body_len })

module _ (k : Kernel) where
  unfoldable pub prepare : Machine → Frame → Flow Job
  prepare m f = do
    slot ← or_exit m.slot (rejected no_crypto_ctx)
    crypto_ctx ← or_exit slot (rejected no_crypto_ctx)
    pkt ← or_exit (k.bpf_dynptr_from_skb m.packet) failed
    let payload_off = payload_of f.udp
    let body_off = payload_off + header_bytes
    let iv_off = payload_off + crypto_iv_offset
    body_clone ← or_exit (k.bpf_dynptr_clone pkt) failed
    body_ptr ← or_exit (k.bpf_dynptr_adjust body_clone body_off (body_off + f.data_len)) failed
    iv_clone ← or_exit (k.bpf_dynptr_clone pkt) failed
    iv_ptr ← or_exit (k.bpf_dynptr_adjust iv_clone iv_off (iv_off + crypto_iv_bytes)) failed
    next (record { ctx = crypto_ctx; data_ptr = body_ptr; iv_ptr = iv_ptr })

  -- Any action other than enciphering deciphers.
  unfoldable pub run_cipher : CryptoConfig → Job → Packet → Bool × Packet
  run_cipher config j p =
      if config.action == action_encrypt
      then k.bpf_crypto_encrypt j.ctx j.data_ptr j.data_ptr j.iv_ptr p
      else k.bpf_crypto_decrypt j.ctx j.data_ptr j.data_ptr j.iv_ptr p

-- The program, by its parts.
unfoldable pub tc : Kernel → Framed
unfolding parse prepare run_cipher
tc k = record { code = tc_act_ok; parse = parse; prepare = prepare k; call = run_cipher k }

unfoldable pub tc_crypto : Kernel → Machine → Option ℕ × Machine
unfolding tc
tc_crypto k = run k (tc k)
