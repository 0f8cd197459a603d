-- ===== src/Kernel/Skb.antt =====
-- What src/bpf/tc_transparent.bpf.c relies on of the kernel's functions on socket buffers, as
-- documented.
use e_ba_f_project.Base.{ℕ, ◌+◌, ◌≤◌, ◌<◌, ◌≡◌, ◌⊎◌, true, some, List, length, byte_at}
use e_ba_f_project.Base.Bytes.{slice, overwrite}
use e_ba_f_project.Wire.{Packet}
use e_ba_f_project.Kernel.{Kernel}

-- A load gives the bytes at an offset, and a store overwrites them, if they lie in the packet; the
-- IPv4 checksum is replaced in its two bytes; a change of the tail sets the length and keeps the
-- bytes that remain. All may move the linear part of the packet, and with it `data_end`.
pub record IsSkbLawful (k : Kernel) : Type 0 where
  pub load :
      (p : Packet) (off n : ℕ) (b : List ℕ)
      → k.bpf_skb_load_bytes p off n ≡ some b
      → (b ≡ slice p.bytes off n) × (off + n ≤ length p.bytes)
  pub store :
      (p q : Packet) (off : ℕ) (new : List ℕ)
      → k.bpf_skb_store_bytes p off new ≡ (true, q)
      → (q.bytes ≡ overwrite p.bytes off new) × (off + length new ≤ length p.bytes)
  pub csum_length :
      (p q : Packet) (off from to : ℕ)
      → k.bpf_l3_csum_replace p off from to ≡ (true, q)
      → length q.bytes ≡ length p.bytes
  pub csum_outside :
      (p q : Packet) (off from to j : ℕ)
      → k.bpf_l3_csum_replace p off from to ≡ (true, q)
      → (j < off) ⊎ (off + 2 ≤ j)
      → byte_at q.bytes j ≡ byte_at p.bytes j
  pub tail_length :
      (p q : Packet) (n : ℕ) → k.bpf_skb_change_tail p n ≡ (true, q) → length q.bytes ≡ n
  pub tail_kept :
      (p q : Packet) (n j : ℕ)
      → k.bpf_skb_change_tail p n ≡ (true, q)
      → j < n
      → j < length p.bytes
      → byte_at q.bytes j ≡ byte_at p.bytes j
