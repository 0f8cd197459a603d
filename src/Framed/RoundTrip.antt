-- ===== src/Framed/RoundTrip.antt =====
-- What a framed program makes of an accepted frame, and that deciphering at the peer gives the
-- enciphered packet back.
use e_ba_f_project.Base.{
  ℕ, ◌+◌, ◌≤◌, ◌<◌, ◌≡◌, ◌⊎◌, refl, true, some, Option, arith, length, byte_at, [], ◌∷◌, ◌∙◌,
}
use e_ba_f_project.Base.Bytes.{overwrite}
use e_ba_f_project.Flow.{next}
use e_ba_f_project.Wire.{CryptoConfig, Packet, action_encrypt, action_decrypt}
use e_ba_f_project.Kernel.{Kernel}
use e_ba_f_project.Kernel.Laws.{Cipher}
use e_ba_f_project.Kernel.InPlace.{ciphered, ciphered_outside, length-ciphered, ciphered_twice}
use e_ba_f_project.Machine.{Machine, packets_seen, packets_crypto_ok, count}
use e_ba_f_project.Framed.{Frame, Job, Framed, run}
use e_ba_f_project.Framed.Steps.{IsFramed, Layout, operation}
use e_ba_f_project.Framed.Run.{processed, saved, apply_done}

-- The kernel calls of a run on the frame `f` succeed, with the context `ctx`.
pub record Succeeds (program : Framed) (m : Machine) (f : Frame) (ctx : ℕ) : Type 0 where
  pub job : Job
  pub prepared : program.prepare (count packets_seen m) f ≡ next job
  pub context : job.ctx ≡ ctx
  pub called : (program.call f.config job m.packet).0 ≡ true

-- An accepted frame whose kernel calls succeed is processed, and counted so.
pub run-processed :
    (k : Kernel) (c : Cipher) (program : Framed) (m : Machine) (f : Frame) (ctx : ℕ)
    → IsFramed c program
    → m.packet.data_end ≤ length m.packet.bytes
    → program.parse m.packet m.config ≡ next f
    → Succeeds program m f ctx
    → let (code, m') = run k program m in
      (code ≡ some program.code)
      × (m'.packet ≡ processed c f ctx m.packet)
      × (m'.stats ≡ (count packets_crypto_ok (count packets_seen m)).stats)
unfolding count run
run-processed k c program m f ctx laws sized found s =
    let r = program.call f.config s.job m.packet in
    let called = s.called in
    let layout = laws.parse_layout m.packet m.config f found in
    let (m', ran, kept) =
      apply_done k c program laws (count packets_seen m) sized f layout s.job s.prepared r.1
        (λ i. (called i, r.1)) in
    rw (found, saved m.packet m.config f layout, s.prepared, ran, ← s.context)
      (refl, kept.packet, kept.stats)

-- The peer's configuration: the same algorithm and port, the other action.
pub record IsPeer (there here : CryptoConfig) : Type 0 where
  pub sends : there.action ≡ action_encrypt
  pub receives : here.action ≡ action_decrypt
  pub same_algo : here.algo ≡ there.algo
  pub same_port : here.udp_port ≡ there.udp_port

module _ (c : Cipher) (f : Frame) (ctx : ℕ) (lookup : Option CryptoConfig) (p : Packet)
    (sized : p.data_end ≤ length p.bytes) (layout : Layout p lookup f) where
  -- Processing a frame leaves its headers, but for the checksum, as they were.
  pub processed_headers :
      (j : ℕ)
      → (j < f.udp + 6) ⊎ ((f.udp + 8 ≤ j) × (j < f.udp + 32))
      → byte_at (processed c f ctx p).bytes j ≡ byte_at p.bytes j
  unfolding processed
  processed_headers j away =
      ciphered_outside (operation c f.config.action ctx) (f.udp + 6) (f.udp + 8 + 8)
        (f.udp + 8 + 24) f.data_len p (omega arith) (omega arith) (omega arith) j (omega arith)

  pub processed_end : (processed c f ctx p).data_end ≡ p.data_end
  unfolding processed ciphered
  processed_end = refl

  pub processed_sized : (processed c f ctx p).data_end ≤ length (processed c f ctx p).bytes
  unfolding processed
  processed_sized =
      rw
        (length-ciphered (operation c f.config.action ctx) (f.udp + 6) (f.udp + 8 + 8)
          (f.udp + 8 + 24) f.data_len p (omega arith) (omega arith) (omega arith))
        (unfold ciphered in sized)

  -- Deciphering at the peer undoes enciphering, but for the UDP checksum.
  pub processed_twice :
      (here : CryptoConfig)
      → IsPeer f.config here
      → processed c (record f { config = here }) ctx (processed c f ctx p)
        ≡ record p { bytes = overwrite p.bytes (f.udp + 6) (0 ∷ 0 ∷ []) }
  unfolding processed operation
  processed_twice here peer =
      rw (peer.sends, peer.receives)
        (ciphered_twice (c.encipher ctx) (f.udp + 6) (f.udp + 8 + 8) (f.udp + 8 + 24) f.data_len p
          (omega arith) (omega arith) (omega arith) (c.length-encipher ctx) (c.decipher ctx)
          (c.decipher-encipher ctx))

-- One program enciphers on one host, and one deciphers on another, whose checks accept what the
-- first leaves: the packet that the second passes on is the one that entered the first, with the
-- UDP checksum zeroed.
pub run_round_trip :
    (k : Kernel) (c : Cipher) (sender receiver : Framed) (there here : Machine) (f : Frame)
    (config : CryptoConfig) (ctx : ℕ)
    → IsFramed c sender
    → IsFramed c receiver
    → there.packet.data_end ≤ length there.packet.bytes
    → sender.parse there.packet there.config ≡ next f
    → receiver.parse (processed c f ctx there.packet) (some config)
      ≡ next (record f { config = config })
    → IsPeer f.config config
    → here.packet ≡ (run k sender there).1.packet
    → here.config ≡ some config
    → Succeeds sender there f ctx
    → Succeeds receiver here (record f { config = config }) ctx
    → (run k receiver here).1.packet
      ≡ record (there.packet) { bytes = overwrite there.packet.bytes (f.udp + 6) (0 ∷ 0 ∷ []) }
run_round_trip k c sender receiver there here f config ctx sends receives sized found accepted peer
      sent configured s₁ s₂ =
    let (_, left, _) = run-processed k c sender there f ctx sends sized found s₁ in
    let arrives = sent ∙ left in
    let layout = sends.parse_layout there.packet there.config f found in
    let (_, passed_on, _) =
      run-processed k c receiver here (record f { config = config }) ctx receives
        (rw arrives (processed_sized c f ctx there.config there.packet sized layout))
        (rw (arrives, configured) accepted) s₂ in
    passed_on
    ∙ rw arrives (processed_twice c f ctx there.config there.packet sized layout config peer)
