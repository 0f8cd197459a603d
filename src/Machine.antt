-- ===== src/Machine.antt =====
-- The state that a packet program runs on: the packet, what its lookups in the maps give, the
-- submitted events and the number of clock readings; and the operations on it that
-- src/bpf/xdp_crypto.bpf.c, tc_crypto.bpf.c and tc_transparent.bpf.c each declare for themselves.
pub mod Accounts
pub mod Act
use e_ba_f_project.Base.{ℕ, ◌+◌, Option, none, some, List, ltb, leb, u64, if◌then◌else◌, byte_at}
use e_ba_f_project.Base.Bytes.{slice}
use e_ba_f_project.Wire.{CryptoConfig, CryptoStats, CryptoEvent, Packet, be16, be32}
use e_ba_f_project.Flow.{
  Reason, bad_eth, bad_ip, bad_udp, bad_magic, bad_length, bad_alignment, no_crypto_ctx, Exit,
  passed, failed, rejected_failed, quiet, fault, rejected, Flow, next, exit,
}

-- `stats`, `config` and `slot` are what bpf_map_lookup_elem finds, `none` being NULL; the slot
-- holds the context pointer, again `none` for NULL.
pub record Machine : Type 0 where
  pub packet : Packet
  pub stats : Option CryptoStats
  pub config : Option CryptoConfig
  pub slot : Option (Option ℕ)
  pub events : List CryptoEvent
  pub ticks : ℕ

-- The counters of struct ebaf_crypto_stats, to point at one.
pub data Counter : Type 0 where
  packets_seen packets_passed packets_crypto_ok packets_crypto_fail packets_malformed : Counter
  reason : Reason → Counter

-- `__sync_fetch_and_add(counter, 1)` on 64 bits.
unfoldable pub stat_inc : Counter → CryptoStats → CryptoStats
stat_inc packets_seen s = record s { packets_seen = u64 (s.packets_seen + 1) }
stat_inc packets_passed s = record s { packets_passed = u64 (s.packets_passed + 1) }
stat_inc packets_crypto_ok s = record s { packets_crypto_ok = u64 (s.packets_crypto_ok + 1) }
stat_inc packets_crypto_fail s = record s { packets_crypto_fail = u64 (s.packets_crypto_fail + 1) }
stat_inc packets_malformed s = record s { packets_malformed = u64 (s.packets_malformed + 1) }
stat_inc (reason bad_eth) s = record s { packets_bad_eth = u64 (s.packets_bad_eth + 1) }
stat_inc (reason bad_ip) s = record s { packets_bad_ip = u64 (s.packets_bad_ip + 1) }
stat_inc (reason bad_udp) s = record s { packets_bad_udp = u64 (s.packets_bad_udp + 1) }
stat_inc (reason bad_magic) s = record s { packets_bad_magic = u64 (s.packets_bad_magic + 1) }
stat_inc (reason bad_length) s = record s { packets_bad_length = u64 (s.packets_bad_length + 1) }
stat_inc (reason bad_alignment) s = record s {
  packets_bad_alignment = u64 (s.packets_bad_alignment + 1);
}
stat_inc (reason no_crypto_ctx) s = record s {
  packets_no_crypto_ctx = u64 (s.packets_no_crypto_ctx + 1);
}

-- `if (stats) stat_inc(...)`
unfoldable pub bump : Counter → Option CryptoStats → Option CryptoStats
unfolding stat_inc
bump c none = none
bump c (some s) = some (stat_inc c s)

unfoldable pub count : Counter → Machine → Machine
unfolding bump
count c m = record m { stats = bump c m.stats }

unfoldable pub stat_reason : Counter → Machine → Machine
unfolding count
stat_reason c m = count c (count packets_malformed m)

-- What an exit does to the counters, and the code that the program returns: `none` is a fault.
unfoldable pub leave : ℕ → Exit → Machine → Option ℕ × Machine
unfolding stat_reason
leave code passed m = (some code, count packets_passed m)
leave code failed m = (some code, count packets_crypto_fail m)
leave code rejected_failed m = (some code, stat_reason packets_crypto_fail m)
leave code quiet m = (some code, m)
leave code fault m = (none, m)
leave code (rejected r) m = (some code, stat_reason (reason r) m)

-- Direct loads from the packet.
abbrev pub load8 : Packet → ℕ → Flow ℕ
load8 p off = if ltb off p.data_end then next (byte_at p.bytes off) else exit fault

abbrev pub load16 : Packet → ℕ → Flow ℕ
load16 p off = if leb (off + 2) p.data_end then next (be16 p.bytes off) else exit fault

abbrev pub load32 : Packet → ℕ → Flow ℕ
load32 p off = if leb (off + 4) p.data_end then next (be32 p.bytes off) else exit fault

-- A memcpy of `n` bytes from the packet.
abbrev pub load_bytes : Packet → ℕ → ℕ → Flow (List ℕ)
load_bytes p off n = if leb (off + n) p.data_end then next (slice p.bytes off n) else exit fault
