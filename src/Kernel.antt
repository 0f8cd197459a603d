-- ===== src/Kernel.antt =====
-- The kernel functions that the programs of src/bpf/ call. They are not part of the repository:
-- the model takes them as a parameter, a record of functions. A call that can fail gives
-- `none`, or `false` with the packet as the failed call left it.
pub mod Laws
pub mod InPlace
pub mod Skb
use e_ba_f_project.Base.{ℕ, Bool, Option, List}
use e_ba_f_project.Wire.{Packet, CryptoEvent}

-- What a bpf_dynptr into the packet designates.
pub record Dynptr : Type 0 where
  pub offset : ℕ
  pub size : ℕ

-- A crypto context is the number of its kernel object. `bpf_ktime_get_ns n` is the answer to the
-- n-th call, and `bpf_ringbuf_reserve` depends on the events submitted so far.
pub record Kernel : Type 0 where
  pub bpf_dynptr_from_xdp : Packet → Option Dynptr
  pub bpf_dynptr_from_skb : Packet → Option Dynptr
  pub bpf_dynptr_clone : Dynptr → Option Dynptr
  pub bpf_dynptr_adjust : Dynptr → ℕ → ℕ → Option Dynptr
  pub bpf_crypto_encrypt : ℕ → Dynptr → Dynptr → Dynptr → Packet → Bool × Packet
  pub bpf_crypto_decrypt : ℕ → Dynptr → Dynptr → Dynptr → Packet → Bool × Packet
  pub bpf_ringbuf_reserve : List CryptoEvent → Bool
  pub bpf_ktime_get_ns : ℕ → ℕ
  pub bpf_skb_load_bytes : Packet → ℕ → ℕ → Option (List ℕ)
  pub bpf_skb_store_bytes : Packet → ℕ → List ℕ → Bool × Packet
  pub bpf_skb_change_tail : Packet → ℕ → Bool × Packet
  pub bpf_l3_csum_replace : Packet → ℕ → ℕ → ℕ → Bool × Packet
