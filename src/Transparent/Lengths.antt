-- ===== src/Transparent/Lengths.antt =====
-- update_lengths of src/bpf/tc_transparent.bpf.c: the IPv4 and UDP lengths of a packet that grew
-- or shrank by `delta` bytes, the IPv4 checksum with it, and the UDP checksum cleared.
use e_ba_f_project.Base.{
  ℕ, ◌+◌, ◌-◌, ◌/◌, Bool, false, List, [], ◌∷◌, ltb, ◌||◌, if◌then◌else◌, u16, u8,
}
use e_ba_f_project.Flow.{Exit, or_exit}
use e_ba_f_project.Wire.{be16}
use e_ba_f_project.Kernel.{Kernel}
use e_ba_f_project.Machine.Act.{Act, read, ◌>>=◌, ◌>>◌, check, change}

abbrev pub ip_tot_len_off : ℕ
ip_tot_len_off = 2

abbrev pub ip_check_off : ℕ
ip_check_off = 10

abbrev pub udp_len_off : ℕ
udp_len_off = 4

abbrev pub udp_check_off : ℕ
udp_check_off = 6

-- The two bytes of a 16-bit number in network order.
abbrev pub htons : ℕ → List ℕ
htons n = u8 (n / 256) ∷ u8 n ∷ []

-- The 16-bit sum, or the difference where it is taken.
abbrev pub moved : ℕ → Bool → ℕ → ℕ
moved delta add len = if add then u16 (len + u16 delta) else len - u16 delta

-- `e` is the caller's exit for a result of -1; the numbers for the checksum are in network order.
unfoldable pub update_lengths : Kernel → ℕ → ℕ → ℕ → Bool → Exit → Act (Unit {0})
update_lengths k ip_off udp_off delta add e = do
  old_ip ← read λ p. or_exit (k.bpf_skb_load_bytes p (ip_off + ip_tot_len_off) 2) e
  old_udp ← read λ p. or_exit (k.bpf_skb_load_bytes p (udp_off + udp_len_off) 2) e
  let ip_len = be16 old_ip 0
  let udp_len = be16 old_udp 0
  check (if add then false else ltb ip_len delta || ltb udp_len delta) e
  let new_ip = moved delta add ip_len
  let new_udp = moved delta add udp_len
  change (λ p. k.bpf_l3_csum_replace p (ip_off + ip_check_off) ip_len new_ip) e
  change (λ p. k.bpf_skb_store_bytes p (ip_off + ip_tot_len_off) (htons new_ip)) e
  change (λ p. k.bpf_skb_store_bytes p (udp_off + udp_len_off) (htons new_udp)) e
  change (λ p. k.bpf_skb_store_bytes p (udp_off + udp_check_off) (0 ∷ 0 ∷ [])) e
