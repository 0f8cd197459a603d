-- ===== src/Framed.antt =====
-- What src/bpf/xdp_crypto.bpf.c and src/bpf/tc_crypto.bpf.c do alike on an eBaF frame, whose header
-- stands in front of its body: once the checks of the one or the other have accepted a packet and
-- its dynptrs are prepared, the text of the two programs is the same. Each fills the record
-- `Framed` with its own checks and calls.
pub mod Steps
pub mod Run
pub mod RoundTrip
pub mod Sample
pub mod Trace
use e_ba_f_project.Base.{
  ℕ, zero, suc, ◌+◌, Bool, Option, some, List, [], ◌∷◌, ◌++◌, ltb, leb, ◌||◌, if◌then◌else◌, u8,
  u16, length, byte_at,
}
use e_ba_f_project.Base.Bytes.{slice, overwrite}
use e_ba_f_project.Flow.{fault, Flow, next, exit, ◌>>=◌}
use e_ba_f_project.Wire.{
  CryptoConfig, CryptoEvent, Packet, eth_bytes, udp_bytes, header_bytes, crypto_iv_offset,
  crypto_iv_bytes, event_sample_bytes,
}
use e_ba_f_project.Kernel.{Dynptr, Kernel}
use e_ba_f_project.Machine.{
  Machine, packets_seen, packets_crypto_ok, packets_crypto_fail, count, leave, load8, load16,
  load32, load_bytes,
}

-- Where a packet that passes all checks has its parts.
pub record Frame : Type 0 where
  pub config : CryptoConfig
  pub udp : ℕ
  pub payload_len : ℕ
  pub data_len : ℕ

abbrev pub payload_of : ℕ → ℕ
payload_of udp = udp + udp_bytes

-- The crypto context and the two dynptrs that the cipher is called with.
pub record Job : Type 0 where
  pub ctx : ℕ
  pub data_ptr : Dynptr
  pub iv_ptr : Dynptr

-- One of the two programs: the code that it returns, its checks, its lookup of the context and
-- its dynptr calls, and its call of the cipher, which may fail.
pub record Framed : Type 0 where
  pub code : ℕ
  pub parse : Packet → Option CryptoConfig → Flow Frame
  pub prepare : Machine → Frame → Flow Job
  pub call : CryptoConfig → Job → Packet → Bool × Packet

-- The sampling loop of emit_crypto_event, from index `i` with `left` rounds to go.
unfoldable pub sample_from : Packet → ℕ → ℕ → ℕ → ℕ → Flow (List ℕ)
sample_from p base data_len zero i = next []
sample_from p base data_len (suc left) i =
    let rest = sample_from p base data_len left (i + 1) in
    if leb data_len i || ltb p.data_end (base + i + 1)
    then next []
    else (do byte ← load8 p (base + i); sample ← rest; next (byte ∷ sample))

-- The fields that emit_crypto_event fills in.
unfoldable pub fill_event : Kernel → Frame → Machine → Flow CryptoEvent
fill_event k f m = do
  src_ip ← load32 m.packet (eth_bytes + 12)
  dst_ip ← load32 m.packet (eth_bytes + 16)
  src_port ← load16 m.packet f.udp
  dst_port ← load16 m.packet (f.udp + 2)
  sample ← sample_from m.packet (payload_of f.udp + header_bytes) f.data_len event_sample_bytes 0
  next (record {
    timestamp_ns = k.bpf_ktime_get_ns m.ticks;
    src_ip = src_ip;
    dst_ip = dst_ip;
    src_port = src_port;
    dst_port = dst_port;
    payload_len = u16 f.payload_len;
    data_len = u16 f.data_len;
    action = u8 f.config.action;
    algo = u8 f.config.algo;
    result = 0;
    sample_len = length sample;
    sample = sample;
  })

unfoldable pub emit_crypto_event : Kernel → Frame → Machine → Flow Machine
unfolding fill_event
emit_crypto_event k f m =
    if k.bpf_ringbuf_reserve m.events
    then (do
      event ← fill_event k f m
      next (record m { events = m.events ++ event ∷ []; ticks = m.ticks + 1 }))
    else next m

-- `udp->check = 0` and the IV put back, through the packet's pointers.
unfoldable pub restore : Frame → List ℕ → Packet → Flow Packet
restore f saved_iv p =
    if leb (payload_of f.udp + header_bytes) p.data_end
    then next (record p {
      bytes =
          overwrite (overwrite p.bytes (f.udp + 6) (0 ∷ 0 ∷ []))
            (payload_of f.udp + crypto_iv_offset) saved_iv;
    })
    else exit fault

-- `memcpy(saved_iv, hdr->iv, ...)`, in front of the lookup of the context.
unfoldable pub save_iv : Frame → Packet → Flow (List ℕ)
save_iv f p = load_bytes p (payload_of f.udp + crypto_iv_offset) crypto_iv_bytes

-- The cipher and what follows it.
unfoldable pub apply : Kernel → Framed → Frame → List ℕ → Job → Machine → Flow Machine
apply k program f saved_iv j m =
    let (ok, p) = program.call f.config j m.packet in
    if ok
    then (do
      p' ← restore f saved_iv p
      emit_crypto_event k f (count packets_crypto_ok (record m { packet = p' })))
    else next (count packets_crypto_fail (record m { packet = p }))

-- A fault after the cipher ends the run at `m`; it cannot happen.
abbrev pub finish : ℕ → Flow Machine → Machine → Option ℕ × Machine
finish code (next m') m = (some code, m')
finish code (exit e) m = leave code e m

-- A run of a program on a packet.
unfoldable pub run : Kernel → Framed → Machine → Option ℕ × Machine
unfolding save_iv
run k program before =
    let m = count packets_seen before in
    finish program.code
      (program.parse m.packet m.config >>= λ f. save_iv f m.packet >>= λ saved_iv.
        program.prepare m f >>= λ j. apply k program f saved_iv j m)
      m
