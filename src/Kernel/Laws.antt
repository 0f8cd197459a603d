-- ===== src/Kernel/Laws.antt =====
-- What the programs rely on of the kernel's dynptr and crypto functions, as documented.
use e_ba_f_project.Base.{ℕ, ◌+◌, ◌-◌, ◌≤◌, ◌<◌, ◌≡◌, ◌⊎◌, true, some, List, length, byte_at, arith}
use e_ba_f_project.Base.Bytes.{slice}
use e_ba_f_project.Wire.{Packet}
use e_ba_f_project.Kernel.{Dynptr, Kernel}

-- A dynptr of a packet covers it; a clone is a copy; an adjustment narrows to [start, end).
pub record IsDynptrLawful (k : Kernel) : Type 0 where
  pub from_xdp :
      (p : Packet) (d : Dynptr)
      → k.bpf_dynptr_from_xdp p ≡ some d
      → (d.offset ≡ 0) × (d.size ≡ length p.bytes)
  pub from_skb :
      (p : Packet) (d : Dynptr)
      → k.bpf_dynptr_from_skb p ≡ some d
      → (d.offset ≡ 0) × (d.size ≡ length p.bytes)
  pub clone : (d e : Dynptr) → k.bpf_dynptr_clone d ≡ some e → e ≡ d
  pub adjust :
      (d e : Dynptr) (start end : ℕ)
      → k.bpf_dynptr_adjust d start end ≡ some e
      → (e.offset ≡ d.offset + start) × (e.size ≡ end - start)

-- A cipher under the key of each context: the block or stream function that a context applies
-- to a body, given an IV. Deciphering undoes enciphering under the same IV.
pub record Cipher : Type 0 where
  pub encipher : ℕ → List ℕ → List ℕ → List ℕ
  pub decipher : ℕ → List ℕ → List ℕ → List ℕ
  pub decipher-encipher : (c : ℕ) (iv body : List ℕ) → decipher c iv (encipher c iv body) ≡ body
  pub length-encipher : (c : ℕ) (iv body : List ℕ) → length (encipher c iv body) ≡ length body

-- `j` lies outside the bytes that `d` designates.
abbrev pub Outside : Dynptr → ℕ → Type 0
Outside d j = (j < d.offset) ⊎ (d.offset + d.size ≤ j)

-- A successful call in place, on a destination `d` and an IV `v`: `q` is `p` with `f` applied to
-- the bytes of `d`; the IV may have been advanced in place; all else is unchanged.
pub record Applies (f : List ℕ → List ℕ → List ℕ) (d v : Dynptr) (p q : Packet) : Type 0 where
  pub body :
      slice q.bytes d.offset d.size
      ≡ f (slice p.bytes v.offset v.size) (slice p.bytes d.offset d.size)
  pub outside : (j : ℕ) → Outside d j → Outside v j → byte_at q.bytes j ≡ byte_at p.bytes j
  pub same_length : length q.bytes ≡ length p.bytes
  pub same_end : q.data_end ≡ p.data_end

pub record IsCryptoLawful (k : Kernel) (c : Cipher) : Type 0 where
  pub encrypt :
      (ctx : ℕ) (d v : Dynptr) (p q : Packet)
      → k.bpf_crypto_encrypt ctx d d v p ≡ (true, q)
      → Applies (c.encipher ctx) d v p q
  pub decrypt :
      (ctx : ℕ) (d v : Dynptr) (p q : Packet)
      → k.bpf_crypto_decrypt ctx d d v p ≡ (true, q)
      → Applies (c.decipher ctx) d v p q

-- From a packet's dynptr to the `n` bytes at `start`, by a clone and an adjustment.
pub narrowed :
    (k : Kernel) (laws : IsDynptrLawful k) (pkt c e : Dynptr) (start n : ℕ)
    → pkt.offset ≡ 0
    → k.bpf_dynptr_clone pkt ≡ some c
    → k.bpf_dynptr_adjust c start (start + n) ≡ some e
    → e ≡ record { offset = start; size = n }
narrowed k laws pkt c e start n zero_offset cloned adjusted =
    ground (arith, laws.clone pkt c cloned, laws.adjust c e start (start + n) adjusted)
