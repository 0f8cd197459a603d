-- ===== src/Sender/Accepted.antt =====
-- What the packet programs make of the packets of tools/udp_bench_sender.c.
use e_ba_f_project.Base.{ℕ, ◌+◌, ◌≡◌, refl, inr, Option, some, List, arith}
use e_ba_f_project.Flow.{next}
use e_ba_f_project.Wire.{CryptoConfig, Packet}
use e_ba_f_project.Framed.{Frame, payload_of}
use e_ba_f_project.Xdp
use e_ba_f_project.Xdp.Shape as XdpShape
use e_ba_f_project.TcCrypto
use e_ba_f_project.TcCrypto.Shape as TcShape
use e_ba_f_project.Sender.{Settings, parse_settings}
use e_ba_f_project.Sender.Frames.{Carries, Carries-Fields, IsBody, parse_settings-IsBody}

abbrev pub sent_frame : CryptoConfig → ℕ → ℕ → Frame
sent_frame config udp n = record { config = config; udp = udp; payload_len = 24 + n; data_len = n }

module _ (p : Packet) (lookup : Option CryptoConfig) (udp : ℕ) (config : CryptoConfig) (n : ℕ)
    (body : IsBody n) (ip : TcShape.IsIp p udp)
    (datagram : TcShape.IsUdp p lookup udp config (24 + n))
    (carries : Carries p (payload_of udp) n) where
  tc-IsFrame : TcShape.IsFrame p lookup (sent_frame config udp n)
  tc-IsFrame =
      let f = Carries-Fields p (payload_of udp) n body carries in
      record {
        ip = ip;
        udp = datagram;
        header = record {
          magic = f.magic;
          version = f.version;
          marked = f.action;
          stated = f.stated;
          split = refl;
          nonempty = omega (arith, body.some_block);
          aligned = omega (arith, body.whole_blocks);
        };
      }

  xdp-IsFrame : XdpShape.IsFrame p lookup (sent_frame config udp n)
  xdp-IsFrame =
      let f = Carries-Fields p (payload_of udp) n body carries in
      record {
        ip = record {
          ethernet = ip.ethernet;
          words = ip.words;
          udp_at = ip.udp_at;
          protocol = ip.protocol;
          ip_fits = ip.ip_fits;
        };
        udp = record {
          configured = datagram.configured;
          port = datagram.port;
          udp_len = datagram.udp_len;
          udp_fits = datagram.udp_fits;
        };
        header = record {
          magic = f.magic;
          version = f.version;
          stated = f.stated;
          split = refl;
          nonempty = omega (arith, body.some_block);
          aligned = inr (omega (arith, body.whole_blocks));
        };
      }

-- Whatever arguments the sender accepts, the packet that it builds is accepted by both packet
-- programs, as a frame with the body of the length asked for: if it lies in an unfragmented IPv4
-- packet, behind a UDP header for its length and the configured port, and the configuration is one
-- for AES-CBC with a known action.
pub packet-accepted :
    (argv : List (List ℕ)) (settings : Settings) (p : Packet) (lookup : Option CryptoConfig)
    (udp : ℕ) (config : CryptoConfig)
    → parse_settings argv ≡ some settings
    → TcShape.IsIp p udp
    → TcShape.IsUdp p lookup udp config (24 + settings.payload_bytes)
    → Carries p (payload_of udp) settings.payload_bytes
    → (TcCrypto.parse p lookup ≡ next (sent_frame config udp settings.payload_bytes))
      × (Xdp.parse p lookup ≡ next (sent_frame config udp settings.payload_bytes))
packet-accepted argv settings p lookup udp config accepted ip datagram carries =
    let n = settings.payload_bytes in
    let body = parse_settings-IsBody argv settings accepted in
    let f = sent_frame config udp n in
    (
      (TcShape.parse_tc_iff p lookup f).1
          (tc-IsFrame p lookup udp config n body ip datagram carries),
      (XdpShape.parse_xdp_iff p lookup f).1
          (xdp-IsFrame p lookup udp config n body ip datagram carries),
    )
