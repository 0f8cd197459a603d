-- ===== src/Framed/Steps.antt =====
-- What src/bpf/xdp_crypto.bpf.c and src/bpf/tc_crypto.bpf.c rely on of their own checks and calls,
-- and lemmas on the steps behind these.
use e_ba_f_project.Base.{
  ℕ, zero, suc, ◌+◌, ◌≤◌, ◌<◌, ◌≡◌, refl, true, Option, some, arith, inl, inr, List, [], ◌∷◌, ◌==◌,
  ◌||◌, leb, ltb, byte_at, Bool-cases, if◌then◌else◌,
}
use e_ba_f_project.Flow.{next, exit, Exit, Flow-cases}
use e_ba_f_project.Wire.{
  CryptoConfig, Packet, udp_bytes, header_bytes, crypto_iv_offset, crypto_iv_bytes, action_encrypt,
  event_sample_bytes,
}
use e_ba_f_project.Kernel.{Dynptr, Kernel}
use e_ba_f_project.Kernel.Laws.{Cipher, Applies}
use e_ba_f_project.Machine.{Machine}
use e_ba_f_project.Machine.Accounts.{IsCounted}
use e_ba_f_project.Framed.{Frame, payload_of, Job, Framed, sample_from, emit_crypto_event}

-- Where a frame lies: behind an IPv4 header, with its body inside the packet.
pub record Layout (p : Packet) (lookup : Option CryptoConfig) (f : Frame) : Type 0 where
  pub configured : lookup ≡ some f.config
  pub behind_ip : 34 ≤ f.udp
  pub body_fits : payload_of f.udp + header_bytes + f.data_len ≤ p.data_end

-- The dynptrs that the cipher gets are the body and the IV of the frame.
abbrev pub body_ptr : Frame → Dynptr
body_ptr f = record { offset = payload_of f.udp + header_bytes; size = f.data_len }

abbrev pub iv_ptr : Frame → Dynptr
iv_ptr f = record { offset = payload_of f.udp + crypto_iv_offset; size = crypto_iv_bytes }

-- What the configured action applies to a body.
unfoldable pub operation : Cipher → ℕ → ℕ → List ℕ → List ℕ → List ℕ
operation c action = if action == action_encrypt then c.encipher else c.decipher

-- The contract that each of the two programs fills.
pub record IsFramed (c : Cipher) (program : Framed) : Type 0 where
  pub parse_counted :
      (p : Packet) (lookup : Option CryptoConfig) (e : Exit)
      → program.parse p lookup ≡ exit e
      → IsCounted e
  pub parse_layout :
      (p : Packet) (lookup : Option CryptoConfig) (f : Frame)
      → program.parse p lookup ≡ next f
      → Layout p lookup f
  pub prepare_counted :
      (m : Machine) (f : Frame) (e : Exit) → program.prepare m f ≡ exit e → IsCounted e
  pub prepare_ptrs :
      (m : Machine) (f : Frame) (j : Job)
      → program.prepare m f ≡ next j
      → (m.slot ≡ some (some j.ctx)) × (j.data_ptr ≡ body_ptr f) × (j.iv_ptr ≡ iv_ptr f)
  pub call_applies :
      (f : Frame) (j : Job) (p q : Packet)
      → j.data_ptr ≡ body_ptr f
      → j.iv_ptr ≡ iv_ptr f
      → program.call f.config j p ≡ (true, q)
      → Applies (operation c f.config.action j.ctx) (body_ptr f) (iv_ptr f) p q

-- An event changes neither the packet nor the maps.
pub record Kept (m m' : Machine) : Type 0 where
  pub packet : m'.packet ≡ m.packet
  pub stats : m'.stats ≡ m.stats
  pub config : m'.config ≡ m.config
  pub slot : m'.slot ≡ m.slot

pub emit-Kept :
    (k : Kernel) (f : Frame) (m m' : Machine) → emit_crypto_event k f m ≡ next m' → Kept m m'
unfolding emit_crypto_event
emit-Kept k f m m' h = ground arith

-- The guards of the sampling loop keep its loads in front of `data_end`.
sample_from-total :
    (p : Packet) (base n left i : ℕ)
    → (sample : List ℕ) × (sample_from p base n left i ≡ next sample)
unfolding sample_from
sample_from-total p base n zero i = ([], refl)
sample_from-total p base n (suc left) i =
    let (sample, sampled) = sample_from-total p base n left (i + 1) in
    elim (Bool-cases (leb n i || ltb p.data_end (base + i + 1))) [
      | inl stops ↦ ([], rw stops refl)
      | inr goes_on ↦
          let inside : base + i < p.data_end = ground arith in
          (byte_at p.bytes (base + i) ∷ sample, ground (arith, sampled))
    ]

pub emit-total :
    (k : Kernel) (f : Frame) (m : Machine)
    → 34 ≤ f.udp
    → f.udp + udp_bytes ≤ m.packet.data_end
    → (m' : Machine) × (emit_crypto_event k f m ≡ next m')
unfolding emit_crypto_event
emit-total k f m ip_before fits = elim (Flow-cases (emit_crypto_event k f m)) [
  | inl found ↦ found
  | inr (e, left) ↦
      let (sample, sampled) =
        sample_from-total m.packet (payload_of f.udp + header_bytes) f.data_len event_sample_bytes
          0 in
      absurd (ground (arith, sampled))
]
