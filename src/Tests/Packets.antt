-- ===== src/Tests/Packets.antt =====
-- Concrete packets, configurations and states.
use e_ba_f_project.Base.{ℕ, ◌+◌, some, List, [], ◌∷◌, ◌++◌, replicate}
use e_ba_f_project.Wire.{
  CryptoConfig, CryptoStats, Packet, action_encrypt, action_decrypt, algo_cbc_aes, default_udp_port,
}
use e_ba_f_project.Machine.{Machine}
use e_ba_f_project.Framed.{Frame}

abbrev pub sending : CryptoConfig
sending = record {
  key = replicate 32 7;
  key_len = 16;
  action = action_encrypt;
  algo = algo_cbc_aes;
  flags = 0;
  udp_port = default_udp_port;
}

abbrev pub receiving : CryptoConfig
receiving = record sending { action = action_decrypt }

-- Ethernet, IPv4 and UDP headers for a datagram of `len` bytes, less the UDP header.
abbrev pub headers : ℕ → List ℕ
headers len =
    replicate 12 2
    ++ (8
        ∷ 0
        ∷ 0x45
        ∷ 0
        ∷ 0
        ∷ 0
        ∷ 0
        ∷ 0
        ∷ 0
        ∷ 0
        ∷ 64
        ∷ 17
        ∷ 0
        ∷ 0
        ∷ 10
        ∷ 0
        ∷ 0
        ∷ 1
        ∷ 10
        ∷ 0
        ∷ 0
        ∷ 2
        ∷ 4
        ∷ 0
        ∷ 0x1e
        ∷ 0x61
        ∷ 0
        ∷ (len + 8)
        ∷ 0xab
        ∷ 0xcd
        ∷ [])

-- A frame with a body of 16 bytes.
abbrev pub framed_packet : Packet
framed_packet = record {
  bytes =
      headers 40
      ++ ((0x45 ∷ 0x42 ∷ 0x41 ∷ 0x46 ∷ 1 ∷ 1 ∷ 0 ∷ 16 ∷ replicate 16 9) ++ replicate 16 100);
  data_end = 82;
}

abbrev pub frame : Frame
frame = record { config = sending; udp = 34; payload_len = 40; data_len = 16 }

abbrev pub no_packets : CryptoStats
no_packets = record {
  packets_seen = 0;
  packets_passed = 0;
  packets_crypto_ok = 0;
  packets_crypto_fail = 0;
  packets_malformed = 0;
  packets_bad_eth = 0;
  packets_bad_ip = 0;
  packets_bad_udp = 0;
  packets_bad_magic = 0;
  packets_bad_length = 0;
  packets_bad_alignment = 0;
  packets_no_crypto_ctx = 0;
}

abbrev pub sender : Machine
sender = record {
  packet = framed_packet;
  stats = some no_packets;
  config = some sending;
  slot = some (some 3);
  events = [];
  ticks = 0;
}
