-- ===== src/Xdp/Laws.antt =====
-- The theorems on whole runs of src/bpf/xdp_crypto.bpf.c.
use e_ba_f_project.Base.{ℕ, ◌≤◌, ◌≡◌, ◌⊎◌, some, List, length, inl, inr}
use e_ba_f_project.Wire.{Packet, xdp_pass}
use e_ba_f_project.Kernel.{Kernel}
use e_ba_f_project.Kernel.Laws.{IsDynptrLawful, Cipher, IsCryptoLawful}
use e_ba_f_project.Machine.{Machine, packets_seen, packets_crypto_ok, count}
use e_ba_f_project.Machine.Accounts.{AccountsFor}
use e_ba_f_project.Framed.{Frame}
use e_ba_f_project.Framed.Run.{processed, run-Accounts, run_untouched}
use e_ba_f_project.Framed.RoundTrip.{Succeeds, run-processed}
use e_ba_f_project.Framed.Trace.{run_all, AllSized, BalancedFor, run_all-Balanced}
use e_ba_f_project.Xdp.{xdp, xdp_crypto}
use e_ba_f_project.Xdp.Shape.{IsFrame, parse_xdp_iff}
use e_ba_f_project.Xdp.Program.{xdp-IsFramed}

-- The program may touch a packet only as an accepted frame and with a crypto context.
pub record MayChange (m : Machine) : Type 0 where
  pub frame : Frame
  pub context : ℕ
  pub accepted : IsFrame m.packet m.config frame
  pub loaded : m.slot ≡ some (some context)

module _ (k : Kernel) (c : Cipher) (dynptrs : IsDynptrLawful k) (crypto : IsCryptoLawful k c) where
  -- On any packet the program returns XDP_PASS, with no access behind `data_end`, and counts the
  -- packet once: as seen, under exactly one outcome, and under one reason if it is malformed.
  pub xdp_crypto-Accounts :
      (m : Machine)
      → m.packet.data_end ≤ length m.packet.bytes
      → ((xdp_crypto k m).0 ≡ some xdp_pass) × AccountsFor m.stats (xdp_crypto k m).1.stats
  unfolding xdp_crypto
  xdp_crypto-Accounts m sized = run-Accounts k c (xdp k) (xdp-IsFramed k c dynptrs crypto) m sized

  -- On any packet, either it is an accepted frame and a crypto context is loaded, or the program
  -- leaves the packet alone and submits no event.
  pub xdp_crypto_untouched :
      (m : Machine)
      → MayChange m
        ⊎ (((xdp_crypto k m).1.packet ≡ m.packet) × ((xdp_crypto k m).1.events ≡ m.events))
  unfolding xdp_crypto
  xdp_crypto_untouched m = elim (run_untouched k c (xdp k) (xdp-IsFramed k c dynptrs crypto) m) [
    | inr same ↦ inr same
    | inl (f, ctx, found, loaded) ↦ inl (record {
      frame = f;
      context = ctx;
      accepted = (parse_xdp_iff m.packet m.config f).0 found;
      loaded = loaded;
    })
  ]

  -- On an accepted frame, where the kernel's calls succeed, the program returns XDP_PASS, counts
  -- the packet as processed, and leaves the packet with the cipher applied to its body under its
  -- IV, the UDP checksum zeroed, and every other byte, the IV included, as it was.
  pub xdp_crypto-processed :
      (m : Machine) (f : Frame) (ctx : ℕ)
      → m.packet.data_end ≤ length m.packet.bytes
      → IsFrame m.packet m.config f
      → Succeeds (xdp k) m f ctx
      → let (code, m') = xdp_crypto k m in
        (code ≡ some xdp_pass)
        × (m'.packet ≡ processed c f ctx m.packet)
        × (m'.stats ≡ (count packets_crypto_ok (count packets_seen m)).stats)
  unfolding xdp_crypto
  xdp_crypto-processed m f ctx sized frame s =
      run-processed k c (xdp k) m f ctx (xdp-IsFramed k c dynptrs crypto) sized
        ((parse_xdp_iff m.packet m.config f).1 frame) s

  -- Over any sequence of packets every packet is seen, and the outcomes and the reasons go on
  -- adding up, up to the wrap of the 64-bit counters.
  pub run_all-xdp_balanced :
      (packets : List Packet) (m : Machine)
      → AllSized packets
      → BalancedFor (length packets) m.stats (run_all k (xdp k) packets m).stats
  run_all-xdp_balanced packets m sized =
      run_all-Balanced k c (xdp k) (xdp-IsFramed k c dynptrs crypto) packets m sized
