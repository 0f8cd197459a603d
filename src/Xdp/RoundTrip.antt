-- ===== src/Xdp/RoundTrip.antt =====
-- That two hosts that run src/bpf/xdp_crypto.bpf.c give a packet back.
use e_ba_f_project.Base.{ℕ, ◌+◌, ◌≤◌, ◌≡◌, ◌⊎◌, some, [], ◌∷◌, length, Option, byte_at, ◌<◌, arith}
use e_ba_f_project.Base.Bytes.{overwrite}
use e_ba_f_project.Wire.{CryptoConfig, Packet}
use e_ba_f_project.Kernel.{Kernel}
use e_ba_f_project.Kernel.Laws.{IsDynptrLawful, Cipher, IsCryptoLawful}
use e_ba_f_project.Machine.{Machine}
use e_ba_f_project.Framed.{Frame}
use e_ba_f_project.Framed.Run.{processed}
use e_ba_f_project.Framed.RoundTrip.{
  Succeeds, IsPeer, run_round_trip, processed_headers, processed_end,
}
use e_ba_f_project.Xdp.{xdp, xdp_crypto}
use e_ba_f_project.Xdp.Shape.{IsFrame, parse_xdp_iff}
use e_ba_f_project.Xdp.Program.{IsFrame-Layout, xdp-IsFramed}

-- The checks read the headers only: a packet with the same headers is a frame as well.
IsFrame-same_headers :
    (f : Frame) (lookup : Option CryptoConfig) (p q : Packet) (here : CryptoConfig)
    → ((j : ℕ)
        → (j < f.udp + 6) ⊎ ((f.udp + 8 ≤ j) × (j < f.udp + 32))
        → byte_at q.bytes j ≡ byte_at p.bytes j)
    → q.data_end ≡ p.data_end
    → IsPeer f.config here
    → IsFrame p lookup f
    → IsFrame q (some here) (record f { config = here })
IsFrame-same_headers f lookup p q here same same_end peer frame =
    let u = f.udp in
    ground (
      arith,
      same 12 (omega arith),
      same 13 (omega arith),
      same 14 (omega arith),
      same 23 (omega arith),
      same (u + 2) (omega arith),
      same (u + 2 + 1) (omega arith),
      same (u + 4) (omega arith),
      same (u + 4 + 1) (omega arith),
      same (u + 8) (omega arith),
      same (u + 8 + 1) (omega arith),
      same (u + 8 + 2) (omega arith),
      same (u + 8 + 2 + 1) (omega arith),
      same (u + 8 + 4) (omega arith),
      same (u + 8 + 6) (omega arith),
      same (u + 8 + 6 + 1) (omega arith),
    )

-- Two hosts with contexts of the same key, the one enciphering and the other deciphering: if
-- `there` processes an accepted frame and `here` receives what it leaves, and the kernel's calls
-- succeed on both, then the packet that `here` passes on is the one that entered `there`, with
-- the UDP checksum zeroed.
pub xdp_crypto_round_trip :
    (k : Kernel) (c : Cipher) (there here : Machine) (f : Frame) (config : CryptoConfig) (ctx : ℕ)
    → IsDynptrLawful k
    → IsCryptoLawful k c
    → there.packet.data_end ≤ length there.packet.bytes
    → IsFrame there.packet there.config f
    → IsPeer f.config config
    → here.packet ≡ (xdp_crypto k there).1.packet
    → here.config ≡ some config
    → Succeeds (xdp k) there f ctx
    → Succeeds (xdp k) here (record f { config = config }) ctx
    → (xdp_crypto k here).1.packet
      ≡ record (there.packet) { bytes = overwrite there.packet.bytes (f.udp + 6) (0 ∷ 0 ∷ []) }
unfolding xdp_crypto
xdp_crypto_round_trip k c there here f config ctx dynptrs crypto sized frame peer sent configured s₁
      s₂ =
    let laws = xdp-IsFramed k c dynptrs crypto in
    let found = (parse_xdp_iff there.packet there.config f).1 frame in
    let layout = IsFrame-Layout there.packet there.config f frame in
    let accepted =
      (parse_xdp_iff (processed c f ctx there.packet) (some config)
          (record f { config = config })).1
        (IsFrame-same_headers f there.config there.packet (processed c f ctx there.packet) config
          (processed_headers c f ctx there.config there.packet sized layout)
          (processed_end c f ctx there.config there.packet sized layout) peer frame) in
    run_round_trip k c (xdp k) (xdp k) there here f config ctx laws laws sized found accepted peer
      sent configured s₁ s₂
