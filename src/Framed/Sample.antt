-- ===== src/Framed/Sample.antt =====
-- The sample that src/bpf/xdp_crypto.bpf.c and src/bpf/tc_crypto.bpf.c put into an event.
use e_ba_f_project.Base.{
  ℕ, Bool-cases, zero, suc, ◌+◌, ◌-◌, ◌≤◌, ◌≡◌, refl, ◌++◌, ◌⊎◌, true, false, [], ◌∷◌, u16, arith,
  length, min, leb, inl, inr,
}
use e_ba_f_project.Base.Bytes.{slice, length-slice, slice_step, slice_none}
use e_ba_f_project.Flow.{next, ◌>>=◌, >>=-eq-next}
use e_ba_f_project.Kernel.{Kernel}
use e_ba_f_project.Machine.{Machine}
use e_ba_f_project.Wire.{CryptoEvent, Packet, header_bytes, event_sample_bytes, be16, be32}
use e_ba_f_project.Framed.Steps.{Kept, emit-Kept, emit-total}
use e_ba_f_project.Framed.{Frame, payload_of, sample_from, fill_event, emit_crypto_event}

sample_from-eq-slice :
    (p : Packet) (base n left i : ℕ)
    → base + n ≤ p.data_end
    → p.data_end ≤ length p.bytes
    → sample_from p base n left i ≡ next (slice p.bytes (base + i) (min left (n - i)))
unfolding sample_from
sample_from-eq-slice p base n zero i fits sized = ground (arith, slice_none p.bytes (base + i))
sample_from-eq-slice p base n (suc left) i fits sized = elim (Bool-cases (leb n i)) [
  | inl past ↦
      let none_left : min (suc left) (n - i) ≡ 0 = ground arith in
      rw (none_left, past, slice_none p.bytes (base + i)) refl
  | inr within ↦
      let one_more : min (suc left) (n - i) ≡ suc (min left (n - (i + 1))) = ground arith in
      rw (one_more, slice_step p.bytes (base + i) (min left (n - (i + 1))) (ground arith))
        (ground (arith, sample_from-eq-slice p base n left (i + 1) fits sized))
]

-- The sampling loop stops at the end of the body or after 32 bytes, whichever comes first: the
-- sample is the beginning of the body, and no load is behind `data_end`.
sample_from_lem :
    (p : Packet) (base n : ℕ)
    → base + n ≤ p.data_end
    → p.data_end ≤ length p.bytes
    → (sample_from p base n event_sample_bytes 0
        ≡ next (slice p.bytes base (min event_sample_bytes n)))
      × (length (slice p.bytes base (min event_sample_bytes n)) ≡ min event_sample_bytes n)
sample_from_lem p base n fits sized =
    let sampled = sample_from-eq-slice p base n event_sample_bytes 0 fits sized in
    let same_base : base + 0 ≡ base = omega arith in
    let all_left : n - 0 ≡ n = omega arith in
    let whole = rw (same_base, all_left) at sampled in
    (whole, length-slice p.bytes base (min event_sample_bytes n) (omega arith))

-- What an event tells of the processed frame `f` in the packet `p`: the addresses and ports of its
-- headers, its lengths, and the beginning of its body, at most 32 bytes.
pub record Reports (p : Packet) (f : Frame) (event : CryptoEvent) : Type 0 where
  pub source : event.src_ip ≡ be32 p.bytes 26
  pub destination : event.dst_ip ≡ be32 p.bytes 30
  pub source_port : event.src_port ≡ be16 p.bytes f.udp
  pub destination_port : event.dst_port ≡ be16 p.bytes (f.udp + 2)
  pub payload : event.payload_len ≡ u16 f.payload_len
  pub body : event.data_len ≡ u16 f.data_len
  pub sampled :
      event.sample
      ≡ slice p.bytes (payload_of f.udp + header_bytes) (min event_sample_bytes f.data_len)
  pub sample_size : event.sample_len ≡ min event_sample_bytes f.data_len

fill_event-Reports :
    (k : Kernel) (f : Frame) (m : Machine) (event : CryptoEvent)
    → payload_of f.udp + header_bytes + f.data_len ≤ m.packet.data_end
    → m.packet.data_end ≤ length m.packet.bytes
    → fill_event k f m ≡ next event
    → Reports m.packet f event
unfolding fill_event
fill_event-Reports k f m event fits sized done =
    ground (arith, sample_from_lem m.packet (payload_of f.udp + header_bytes) f.data_len fits sized)

emit_crypto_event-Reports :
    (k : Kernel) (f : Frame) (m m' : Machine)
    → payload_of f.udp + header_bytes + f.data_len ≤ m.packet.data_end
    → m.packet.data_end ≤ length m.packet.bytes
    → emit_crypto_event k f m ≡ next m'
    → ((k.bpf_ringbuf_reserve m.events ≡ true)
        × ((event : CryptoEvent) × (m'.events ≡ m.events ++ event ∷ []) × Reports m.packet f event))
      ⊎ ((k.bpf_ringbuf_reserve m.events ≡ false) × (m'.events ≡ m.events))
emit_crypto_event-Reports k f m m' fits sized done =
    elim (Bool-cases (k.bpf_ringbuf_reserve m.events)) [
      | inl room ↦
          let opened : (fill_event k f m >>= λ event.
          next (record m { events = m.events ++ event ∷ []; ticks = m.ticks + 1 }))
              ≡ next m' =
            unfold emit_crypto_event in rw room at done in
          let (event, filled, made) = >>=-eq-next (fill_event k f m) _ opened in
          inl
            (room, (event, ground (arith, made), fill_event-Reports k f m event fits sized filled))
      | inr full ↦ inr (full, unfold emit_crypto_event in ground arith)
    ]

-- On a frame whose body lies in the packet, no access of the event code is behind `data_end`. If
-- the ring buffer has room, exactly one event is submitted, which reports the processed packet;
-- otherwise none is. The packet and the maps stay as they are.
pub emit_crypto_event_lem :
    (k : Kernel) (f : Frame) (m : Machine)
    → 34 ≤ f.udp
    → payload_of f.udp + header_bytes + f.data_len ≤ m.packet.data_end
    → m.packet.data_end ≤ length m.packet.bytes
    → (m' : Machine) × (emit_crypto_event k f m ≡ next m')
      × Kept m m'
      × (((k.bpf_ringbuf_reserve m.events ≡ true)
            × ((event : CryptoEvent) × (m'.events ≡ m.events ++ event ∷ [])
                × Reports m.packet f event))
          ⊎ ((k.bpf_ringbuf_reserve m.events ≡ false) × (m'.events ≡ m.events)))
emit_crypto_event_lem k f m behind_ip fits sized =
    let (m', done) = emit-total k f m behind_ip (omega arith) in
    (m', done, emit-Kept k f m m' done, emit_crypto_event-Reports k f m m' fits sized done)
