-- ===== src/Transparent/Event.antt =====
-- The second look at the headers, and emit_event, of src/bpf/tc_transparent.bpf.c.
use e_ba_f_project.Base.{
  ℕ, zero, suc, ◌+◌, ◌*◌, none, some, List, [], ◌∷◌, ◌++◌, ltb, leb, if◌then◌else◌, low_bits, u8,
  u16, length, byte_at,
}
use e_ba_f_project.Flow.{Exit, Flow, next, exit_if, ◌>>=◌, ◌>>◌}
use e_ba_f_project.Wire.{
  CryptoConfig, CryptoEvent, Packet, eth_bytes, ip_bytes, udp_bytes, event_sample_bytes,
}
use e_ba_f_project.Kernel.{Kernel}
use e_ba_f_project.Machine.{Machine, load8, load16, load32}

-- The pointers are taken anew after a call that may move the packet; the exits are those of the
-- Ethernet, IPv4 and UDP checks. The offset of the UDP header.
unfoldable pub reopen : Exit → Exit → Exit → Packet → Flow ℕ
reopen no_eth no_ip no_udp p = do
  exit_if (ltb p.data_end eth_bytes) no_eth
  exit_if (ltb p.data_end (eth_bytes + ip_bytes)) no_ip
  version_ihl ← load8 p eth_bytes
  let udp = eth_bytes + low_bits version_ihl 4 * 4
  exit_if (ltb p.data_end (udp + udp_bytes)) no_udp
  next udp

-- The same where `need` bytes of payload are wanted as well.
unfoldable pub reopen_payload : Exit → Exit → Exit → Exit → ℕ → Packet → Flow ℕ
unfolding reopen
reopen_payload no_eth no_ip no_udp short need p = do
  udp ← reopen no_eth no_ip no_udp p
  exit_if (ltb p.data_end (udp + udp_bytes + need)) short
  next udp

-- The sampling loop, which loads byte by byte through the kernel.
unfoldable pub load_sample : Kernel → Packet → ℕ → ℕ → ℕ → ℕ → List ℕ
load_sample k p body_off data_len zero i = []
load_sample k p body_off data_len (suc left) i =
    let rest = load_sample k p body_off data_len left (i + 1) in
    if leb data_len i then [] else elim (k.bpf_skb_load_bytes p (body_off + i) 1) [
      | none ↦ []
      | some bytes ↦ byte_at bytes 0 ∷ rest
    ]

unfoldable pub emit_event : Kernel → ℕ → ℕ → ℕ → ℕ → CryptoConfig → Machine → Flow Machine
unfolding load_sample
emit_event k udp payload_len data_len body_off config m =
    if k.bpf_ringbuf_reserve m.events
    then (do
      src_ip ← load32 m.packet (eth_bytes + 12)
      dst_ip ← load32 m.packet (eth_bytes + 16)
      src_port ← load16 m.packet udp
      dst_port ← load16 m.packet (udp + 2)
      let sample = load_sample k m.packet body_off data_len event_sample_bytes 0
      let event : CryptoEvent = record {
        timestamp_ns = k.bpf_ktime_get_ns m.ticks;
        src_ip = src_ip;
        dst_ip = dst_ip;
        src_port = src_port;
        dst_port = dst_port;
        payload_len = u16 payload_len;
        data_len = u16 data_len;
        action = u8 config.action;
        algo = u8 config.algo;
        result = 0;
        sample_len = length sample;
        sample = sample;
      }
      next (record m { events = m.events ++ event ∷ []; ticks = m.ticks + 1 }))
    else next m
