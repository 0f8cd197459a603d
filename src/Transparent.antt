-- ===== src/Transparent.antt =====
-- src/bpf/tc_transparent.bpf.c: the TC program that pads and enciphers plain UDP payloads and
-- appends an eBaF header, or deciphers them and takes padding and header off again.
pub mod Checks
pub mod Lengths
pub mod Event
pub mod Safety
pub mod Untouched
pub mod Stored
pub mod Updated
pub mod Extended
pub mod Exposed
pub mod Unsealed
use e_ba_f_project.Base.{
  ℕ, zero, suc, ◌+◌, ◌-◌, ◌*◌, ◌/◌, ◌%◌, ◌^◌, Bool, true, false, Option, List, [], ◌∷◌, ◌++◌, ltb,
  leb, ◌==◌, ◌!=◌, ◌&&◌, ◌||◌, if◌then◌else◌, low_bits, u8, u16, u32, length, byte_at,
}
use e_ba_f_project.Flow.{
  Exit, bad_eth, bad_ip, bad_udp, bad_magic, bad_length, bad_alignment, no_crypto_ctx, passed,
  failed, rejected_failed, quiet, rejected, Flow, next, exit, exit_if, or_exit,
}
use e_ba_f_project.Flow
use e_ba_f_project.Wire.{
  CryptoConfig, Packet, eth_bytes, ip_bytes, udp_bytes, header_bytes, eth_p_ip, ipproto_udp,
  crypto_magic, crypto_version, algo_cbc_aes, crypto_iv_offset, crypto_iv_bytes, crypto_block_bytes,
  max_transparent_payload, action_encrypt, action_decrypt, tc_act_ok, be16, be32,
}
use e_ba_f_project.Kernel.{Kernel}
use e_ba_f_project.Machine.{Machine, packets_seen, packets_crypto_ok, count, load8, load16}
use e_ba_f_project.Machine.Act.{Act, done, lift, read, ◌>>=◌, ◌>>◌, check, change, close}
use e_ba_f_project.Transparent.Checks.{Datagram, parse}
use e_ba_f_project.Transparent.Lengths.{htons, update_lengths}
use e_ba_f_project.Transparent.Event.{reopen, reopen_payload, emit_event}

-- What the two paths hand on: the body and the IV of the packet, the IV that was chosen (on the
-- enciphering path), and the length that the trailing header states (on the deciphering path).
pub record Sealed : Type 0 where
  pub body_len : ℕ
  pub body_off : ℕ
  pub iv_off : ℕ
  pub iv : List ℕ
  pub stated_len : ℕ

-- fill_iv: the bytes of the clock, twice.
unfoldable pub iv_from : ℕ → ℕ → ℕ → List ℕ
iv_from now zero i = []
iv_from now (suc left) i = u8 (now / 2 ^ (i % 8 * 8)) ∷ iv_from now left (i + 1)

unfoldable pub fill_iv : Kernel → Act (List ℕ)
unfolding iv_from
fill_iv k m = (
  record m { ticks = m.ticks + 1 },
  next (iv_from (k.bpf_ktime_get_ns m.ticks) crypto_iv_bytes 0),
)

-- The bytes of struct ebaf_crypto_header as the program fills it in.
abbrev pub header_of : ℕ → List ℕ → List ℕ
header_of body_len iv =
    0x45 ∷ 0x42 ∷ 0x41 ∷ 0x46 ∷ crypto_version ∷ action_encrypt ∷ htons (u16 body_len) ++ iv

-- How many bytes of padding a payload gets; the test for 0 is the code's.
abbrev pub padding : ℕ → ℕ
padding payload_len =
    let pad_len = crypto_block_bytes - low_bits payload_len 4 in
    if pad_len == 0 then crypto_block_bytes else pad_len

module _ (k : Kernel) where
  -- The loop that writes the padding, from index `i` with `left` rounds to go.
  unfoldable pub store_padding : ℕ → ℕ → ℕ → ℕ → Act (Unit {0})
  store_padding at pad_len zero i = done tt
  store_padding at pad_len (suc left) i =
      let rest = store_padding at pad_len left (i + 1) in
      if leb pad_len i
      then done tt
      else change (λ p. k.bpf_skb_store_bytes p (at + i) (u8 pad_len ∷ [])) (rejected bad_udp)
        >> rest

  -- The enciphering path up to the cipher: padding and header behind the payload.
  unfoldable pub extend : Datagram → Act Sealed
  unfolding store_padding fill_iv reopen_payload update_lengths
  extend d = do
    check (d.payload_len == 0 || ltb max_transparent_payload d.payload_len) (rejected bad_length)
    let payload_off = d.udp + udp_bytes
    let pad_len = padding d.payload_len
    let body_len = d.payload_len + pad_len
    let delta = pad_len + header_bytes
    change (λ p. k.bpf_skb_change_tail p (u32 (length p.bytes + delta))) (rejected bad_length)
    _ ← read (
        reopen_payload (rejected bad_eth) (rejected bad_ip) (rejected bad_udp) (rejected bad_length)
          (body_len + header_bytes))
    store_padding (payload_off + d.payload_len) pad_len crypto_block_bytes 0
    iv ← fill_iv k
    change (λ p. k.bpf_skb_store_bytes p (payload_off + body_len) (header_of body_len iv))
        (rejected bad_magic)
    _ ← read (reopen_payload quiet quiet quiet quiet (body_len + header_bytes))
    update_lengths k eth_bytes d.udp delta true (rejected bad_ip)
    _ ← read (reopen_payload quiet quiet quiet quiet (body_len + header_bytes))
    done (record {
      body_len = body_len;
      body_off = payload_off;
      iv_off = payload_off + body_len + crypto_iv_offset;
      iv = iv;
      stated_len = 0;
    })

  -- The deciphering path up to the cipher: the header behind the body.
  unfoldable pub locate : Datagram → Act Sealed
  locate d = do
    check (ltb d.payload_len header_bytes) (rejected bad_length)
    let payload_off = d.udp + udp_bytes
    let body_len = d.payload_len - header_bytes
    _ ←
        read λ p.
          exit_if (ltb p.data_end (payload_off + body_len + header_bytes)) (rejected bad_length)
    tail_hdr ←
        read λ p. or_exit (k.bpf_skb_load_bytes p (payload_off + body_len) header_bytes) failed
    check (be32 tail_hdr 0 != crypto_magic || byte_at tail_hdr 4 != crypto_version)
        (rejected bad_magic)
    done (record {
      body_len = body_len;
      body_off = payload_off;
      iv_off = payload_off + body_len + crypto_iv_offset;
      iv = [];
      stated_len = be16 tail_hdr 6;
    })

  -- The checks of the body, the lookup of the context, the dynptrs and the cipher. The configured
  -- action is one of the two.
  unfoldable pub cipher : CryptoConfig → Sealed → Act (Unit {0})
  cipher config s = do
    check (s.body_len == 0 || low_bits s.body_len 4 != 0) (rejected bad_length)
    check (config.action == action_decrypt && s.stated_len != s.body_len) (rejected bad_length)
    slot ← λ m. lift (or_exit m.slot (rejected no_crypto_ctx)) m
    crypto_ctx ← lift (or_exit slot (rejected no_crypto_ctx))
    pkt ← read λ p. or_exit (k.bpf_dynptr_from_skb p) (rejected bad_alignment)
    body_clone ← lift (or_exit (k.bpf_dynptr_clone pkt) (rejected bad_alignment))
    body_ptr ← lift (
        or_exit (k.bpf_dynptr_adjust body_clone s.body_off (s.body_off + s.body_len))
          (rejected bad_length))
    iv_clone ← lift (or_exit (k.bpf_dynptr_clone pkt) (rejected bad_alignment))
    iv_ptr ← lift (
        or_exit (k.bpf_dynptr_adjust iv_clone s.iv_off (s.iv_off + crypto_iv_bytes))
          (rejected bad_magic))
    if config.action == action_encrypt
        then (do
          change (k.bpf_crypto_encrypt crypto_ctx body_ptr body_ptr iv_ptr) rejected_failed
          change (λ p. k.bpf_skb_store_bytes p s.iv_off s.iv) (rejected bad_magic))
        else change (k.bpf_crypto_decrypt crypto_ctx body_ptr body_ptr iv_ptr) rejected_failed

  -- The count of the packet, and its event.
  unfoldable pub report : Datagram → Sealed → Act (Unit {0})
  unfolding emit_event reopen_payload
  report d s before =
      let m = count packets_crypto_ok before in
      let sent =
        Flow.◌>>=◌ (reopen_payload quiet quiet quiet quiet s.body_len m.packet)
          λ udp. emit_event k udp d.payload_len s.body_len s.body_off d.config m in
      elim sent [ next m' ↦ (m', next tt) | exit e ↦ (m, exit e) ]

  -- The deciphered padding and the header are cut off.
  unfoldable pub shrink : Datagram → Sealed → Act (Unit {0})
  unfolding reopen update_lengths
  shrink d s = do
    pad ← read λ p. or_exit (k.bpf_skb_load_bytes p (s.body_off + s.body_len - 1) 1) failed
    let pad_len = byte_at pad 0
    check (ltb pad_len 1 || ltb crypto_block_bytes pad_len || ltb s.body_len pad_len)
        (rejected bad_length)
    let delta = pad_len + header_bytes
    change (λ p. k.bpf_skb_change_tail p (u32 (length p.bytes + 2 ^ 32 - delta))) failed
    _ ← read (reopen quiet quiet quiet)
    update_lengths k eth_bytes d.udp delta false failed

  -- What follows the checks.
  unfoldable pub transform : Datagram → Act (Unit {0})
  transform d = do
    s ← if d.config.action == action_encrypt then extend d else locate d
    cipher d.config s
    report d s
    if d.config.action == action_decrypt then shrink d s else done tt

  unfoldable pub tc_transparent : Machine → Option ℕ × Machine
  unfolding parse transform
  tc_transparent before =
      let m = count packets_seen before in
      close tc_act_ok ((read (λ p. parse p m.config) >>= transform) m)
