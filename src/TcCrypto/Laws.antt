-- ===== src/TcCrypto/Laws.antt =====
-- The theorems on whole runs of src/bpf/tc_crypto.bpf.c.
use e_ba_f_project.Base.{ℕ, ◌≤◌, ◌≡◌, ◌⊎◌, some, List, length, inl, inr}
use e_ba_f_project.Wire.{Packet, tc_act_ok}
use e_ba_f_project.Kernel.{Kernel}
use e_ba_f_project.Kernel.Laws.{IsDynptrLawful, Cipher, IsCryptoLawful}
use e_ba_f_project.Machine.{Machine, packets_seen, packets_crypto_ok, count}
use e_ba_f_project.Machine.Accounts.{AccountsFor}
use e_ba_f_project.Framed.{Frame}
use e_ba_f_project.Framed.Run.{processed, run-Accounts, run_untouched}
use e_ba_f_project.Framed.RoundTrip.{Succeeds, run-processed}
use e_ba_f_project.Framed.Trace.{run_all, AllSized, BalancedFor, run_all-Balanced}
use e_ba_f_project.TcCrypto.{tc, tc_crypto}
use e_ba_f_project.TcCrypto.Shape.{IsFrame, parse_tc_iff}
use e_ba_f_project.TcCrypto.Program.{tc-IsFramed}

-- The program may touch a packet only as an accepted frame and with a crypto context.
pub record MayChange (m : Machine) : Type 0 where
  pub frame : Frame
  pub context : ℕ
  pub accepted : IsFrame m.packet m.config frame
  pub loaded : m.slot ≡ some (some context)

module _ (k : Kernel) (c : Cipher) (dynptrs : IsDynptrLawful k) (crypto : IsCryptoLawful k c) where
  -- On any packet the program returns TC_ACT_OK, with no access behind `data_end`, and counts the
  -- packet once: as seen, under exactly one outcome, and under one reason if it is malformed.
  pub tc_crypto-Accounts :
      (m : Machine)
      → m.packet.data_end ≤ length m.packet.bytes
      → ((tc_crypto k m).0 ≡ some tc_act_ok) × AccountsFor m.stats (tc_crypto k m).1.stats
  unfolding tc_crypto
  tc_crypto-Accounts m sized = run-Accounts k c (tc k) (tc-IsFramed k c dynptrs crypto) m sized

  -- On any packet, either it is an accepted frame and a crypto context is loaded, or the program
  -- leaves the packet alone and submits no event.
  pub tc_crypto_untouched :
      (m : Machine)
      → MayChange m
        ⊎ (((tc_crypto k m).1.packet ≡ m.packet) × ((tc_crypto k m).1.events ≡ m.events))
  unfolding tc_crypto
  tc_crypto_untouched m = elim (run_untouched k c (tc k) (tc-IsFramed k c dynptrs crypto) m) [
    | inr same ↦ inr same
    | inl (f, ctx, found, loaded) ↦ inl (record {
      frame = f;
      context = ctx;
      accepted = (parse_tc_iff m.packet m.config f).0 found;
      loaded = loaded;
    })
  ]

  -- On an accepted frame, where the kernel's calls succeed, the program returns TC_ACT_OK, counts
  -- the packet as processed, and leaves the packet with the cipher applied to its body under its
  -- IV, the UDP checksum zeroed, and every other byte, the IV included, as it was.
  pub tc_crypto-processed :
      (m : Machine) (f : Frame) (ctx : ℕ)
      → m.packet.data_end ≤ length m.packet.bytes
      → IsFrame m.packet m.config f
      → Succeeds (tc k) m f ctx
      → let (code, m') = tc_crypto k m in
        (code ≡ some tc_act_ok)
        × (m'.packet ≡ processed c f ctx m.packet)
        × (m'.stats ≡ (count packets_crypto_ok (count packets_seen m)).stats)
  unfolding tc_crypto
  tc_crypto-processed m f ctx sized frame s =
      run-processed k c (tc k) m f ctx (tc-IsFramed k c dynptrs crypto) sized
        ((parse_tc_iff m.packet m.config f).1 frame) s

  -- Over any sequence of packets every packet is seen, and the outcomes and the reasons go on
  -- adding up, up to the wrap of the 64-bit counters.
  pub run_all-tc_balanced :
      (packets : List Packet) (m : Machine)
      → AllSized packets
      → BalancedFor (length packets) m.stats (run_all k (tc k) packets m).stats
  run_all-tc_balanced packets m sized =
      run_all-Balanced k c (tc k) (tc-IsFramed k c dynptrs crypto) packets m sized
