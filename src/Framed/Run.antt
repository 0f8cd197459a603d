-- ===== src/Framed/Run.antt =====
-- A whole run of a framed program: which packets it changes and into what, that it always returns
-- its code, and how it counts.
use e_ba_f_project.Base.{
  ℕ, ◌+◌, ◌≤◌, ◌≡◌, ◌⊎◌, refl, true, Option, some, List, arith, length, Bool-cases, inl, inr,
}
use e_ba_f_project.Base.Bytes.{slice}
use e_ba_f_project.Flow.{next, Exit, Flow-cases}
use e_ba_f_project.Wire.{CryptoConfig, Packet, header_bytes, crypto_iv_offset, crypto_iv_bytes}
use e_ba_f_project.Kernel.{Kernel}
use e_ba_f_project.Kernel.Laws.{Cipher}
use e_ba_f_project.Kernel.InPlace.{ciphered, restored-ciphered}
use e_ba_f_project.Machine.{
  Machine, packets_seen, packets_crypto_ok, packets_crypto_fail, count, leave,
}
use e_ba_f_project.Machine.Accounts.{
  IsCounted, AccountsFor, count-Accounts, leave-Accounts, leave_passes, leave_keeps,
}
use e_ba_f_project.Framed.{Frame, payload_of, Job, Framed, restore, save_iv, apply, finish, run}
use e_ba_f_project.Framed.Steps.{IsFramed, Layout, Kept, emit-Kept, emit-total, operation}

-- What a program makes of the packet of an accepted frame: the cipher applied to the body under
-- the IV, and the UDP checksum zeroed.
unfoldable pub processed : Cipher → Frame → ℕ → Packet → Packet
processed c f ctx =
    ciphered (operation c f.config.action ctx) (f.udp + 6) (payload_of f.udp + crypto_iv_offset)
      (payload_of f.udp + header_bytes) f.data_len

-- The IV of the frame, as it is saved.
abbrev pub iv_of : Frame → Packet → List ℕ
iv_of f p = slice p.bytes (payload_of f.udp + crypto_iv_offset) crypto_iv_bytes

module _ (k : Kernel) (c : Cipher) (program : Framed) (laws : IsFramed c program) (m : Machine)
    (sized : m.packet.data_end ≤ length m.packet.bytes) (f : Frame)
    (layout : Layout m.packet m.config f) (j : Job) (prepared : program.prepare m f ≡ next j) where
  restore_done :
      (q : Packet)
      → program.call f.config j m.packet ≡ (true, q)
      → restore f (iv_of f m.packet) q ≡ next (processed c f j.ctx m.packet)
  unfolding restore processed
  restore_done q done =
      let (_, body_at, iv_at) = laws.prepare_ptrs m f j prepared in
      let applied = laws.call_applies f j m.packet q body_at iv_at done in
      let whole =
        restored-ciphered (operation c f.config.action j.ctx) (f.udp + 6)
          (payload_of f.udp + crypto_iv_offset) (payload_of f.udp + header_bytes) f.data_len
          m.packet q (omega arith) (omega arith) (omega arith) applied in
      ground (arith, whole, applied.same_end)

  pub apply_done :
      (q : Packet)
      → program.call f.config j m.packet ≡ (true, q)
      → (m' : Machine) × (apply k program f (iv_of f m.packet) j m ≡ next m')
        × Kept (count packets_crypto_ok (record m { packet = processed c f j.ctx m.packet })) m'
  unfolding apply
  apply_done q done =
      let ready = count packets_crypto_ok (record m { packet = processed c f j.ctx m.packet }) in
      let (m', emitted) =
        emit-total k f ready (omega arith) (unfold count processed ciphered in omega arith) in
      (m', ground (arith, done, restore_done q done, emitted), emit-Kept k f ready m' emitted)

-- The IV of an accepted frame lies in the packet.
pub saved :
    (p : Packet) (lookup : Option CryptoConfig) (f : Frame)
    → Layout p lookup f
    → save_iv f p ≡ next (iv_of f p)
unfolding save_iv
saved p lookup f layout =
    let inside : payload_of f.udp + crypto_iv_offset + crypto_iv_bytes ≤ p.data_end =
      omega (arith, layout.body_fits) in
    ground arith

-- A run leaves at a check that is counted, or reaches the cipher with an accepted frame.
run_cases :
    (k : Kernel) (c : Cipher) (program : Framed)
    → IsFramed c program
    → (before : Machine)
    → let m = count packets_seen before in
      ((e : Exit) × (run k program before ≡ leave program.code e m) × IsCounted e)
      ⊎ ((f : Frame) × (j : Job) × (program.parse before.packet before.config ≡ next f)
          × (program.prepare m f ≡ next j)
          × (run k program before
              ≡ finish program.code (apply k program f (iv_of f before.packet) j m) m))
unfolding run count save_iv
run_cases k c program laws before =
    let m = count packets_seen before in
    elim (Flow-cases (program.parse before.packet before.config)) [
      | inr (e, left) ↦
          inl (e, ground (arith, left), laws.parse_counted before.packet before.config e left)
      | inl (f, found) ↦
          let iv_saved =
            saved before.packet before.config f
              (laws.parse_layout before.packet before.config f found) in
          elim (Flow-cases (program.prepare m f)) [
            | inr (e, left) ↦
                inl (e, rw (found, iv_saved, left) refl, laws.prepare_counted m f e left)
            | inl (j, prepared) ↦ inr (f, j, found, prepared, rw (found, iv_saved, prepared) refl)
          ]
    ]

module _ (k : Kernel) (c : Cipher) (program : Framed) (laws : IsFramed c program)
    (m : Machine) where
  -- A program that changes a packet or reports it has accepted it as a frame and found a context.
  pub run_untouched :
      ((f : Frame) × (ctx : ℕ) × (program.parse m.packet m.config ≡ next f)
        × (m.slot ≡ some (some ctx)))
      ⊎ (((run k program m).1.packet ≡ m.packet) × ((run k program m).1.events ≡ m.events))
  unfolding count
  run_untouched = elim (run_cases k c program laws m) [
    | inl (e, left, _) ↦ inr (rw left (leave_keeps program.code e (count packets_seen m)))
    | inr (f, j, found, prepared, _) ↦
        inl (f, j.ctx, found, (laws.prepare_ptrs (count packets_seen m) f j prepared).0)
  ]

module _ (k : Kernel) (c : Cipher) (program : Framed) (laws : IsFramed c program) (m : Machine)
    (sized : m.packet.data_end ≤ length m.packet.bytes) where
  apply_counted :
      (f : Frame) (j : Job)
      → Layout m.packet m.config f
      → program.prepare (count packets_seen m) f ≡ next j
      → (m' : Machine) × (apply k program f (iv_of f m.packet) j (count packets_seen m) ≡ next m')
        × AccountsFor m.stats m'.stats
  unfolding apply count
  apply_counted f j layout prepared =
      let seen = count packets_seen m in
      let r = program.call f.config j m.packet in
      elim (Bool-cases r.0) [
        | inl ok ↦
            let (m', ran, kept) =
              apply_done k c program laws seen sized f layout j prepared r.1 (λ i. (ok i, r.1)) in
            (m', ran, rw kept.stats (count-Accounts packets_crypto_ok m tt))
        | inr bad ↦ (
          count packets_crypto_fail (record seen { packet = r.1 }),
          rw (bad, apply),
          count-Accounts packets_crypto_fail m tt,
        )
      ]

  -- A program always returns its code, and counts the packet once.
  pub run-Accounts :
      ((run k program m).0 ≡ some program.code) × AccountsFor m.stats (run k program m).1.stats
  run-Accounts = elim (run_cases k c program laws m) [
    | inl (e, left, counted) ↦ rw left (
      leave_passes program.code e (count packets_seen m) counted,
      leave-Accounts program.code e m counted,
    )
    | inr (f, j, found, prepared, ran) ↦
        let layout = laws.parse_layout m.packet m.config f found in
        let (m', applied, accounts) = apply_counted f j layout prepared in
        rw (ran, applied) (refl, accounts)
  ]
