-- ===== src/Transparent/Updated.antt =====
-- What update_lengths of src/bpf/tc_transparent.bpf.c writes, and that growing and shrinking by the
-- same number of bytes cancel out.
use e_ba_f_project.Base.{
  ℕ, ◌+◌, ◌-◌, ◌%◌, ◌≤◌, ◌<◌, ◌≡◌, ◌⊎◌, refl, inl, inr, Bool, true, false, Option-cases, some, List,
  [], ◌∷◌, arith, length, byte_at, u16, ◌∙◌,
}
use e_ba_f_project.Base.Bytes.{length-overwrite}
use e_ba_f_project.Flow.{Exit, next}
use e_ba_f_project.Wire.{Packet, be16}
use e_ba_f_project.Kernel.{Kernel}
use e_ba_f_project.Kernel.Skb.{IsSkbLawful}
use e_ba_f_project.Machine.{Machine}
use e_ba_f_project.Transparent.Stored.{
  be16-slice, stored, stored_ip, stored_udp, length-stored, stored_checksum, stored_elsewhere,
}
use e_ba_f_project.Transparent.Lengths.{htons, moved, update_lengths}

module _ (k : Kernel) (ip_off udp_off delta : ℕ) (add : Bool) (e : Exit) (m m' : Machine)
    (u : Unit {0}) (updated : update_lengths k ip_off udp_off delta add e m ≡ (m', next u)) where
  -- The calls that were made, all with success.
  update_lengths_calls :
      (old_ip old_udp : List ℕ) × (k.bpf_skb_load_bytes m.packet (ip_off + 2) 2 ≡ some old_ip)
      × (k.bpf_skb_load_bytes m.packet (udp_off + 4) 2 ≡ some old_udp)
      × ((add ≡ true) ⊎ (delta ≤ be16 old_ip 0) × (delta ≤ be16 old_udp 0))
      × ((q₁ q₂ q₃ : Packet) × (k.bpf_l3_csum_replace m.packet
              (ip_off + 10)
              (be16 old_ip 0)
              (moved delta add (be16 old_ip 0))
            ≡ (true, q₁))
          × (k.bpf_skb_store_bytes q₁ (ip_off + 2) (htons (moved delta add (be16 old_ip 0)))
              ≡ (true, q₂))
          × (k.bpf_skb_store_bytes q₂ (udp_off + 4) (htons (moved delta add (be16 old_udp 0)))
              ≡ (true, q₃))
          × (k.bpf_skb_store_bytes q₃ (udp_off + 6) (0 ∷ 0 ∷ []) ≡ (true, m'.packet)))
  unfolding update_lengths
  update_lengths_calls = elim (Option-cases (k.bpf_skb_load_bytes m.packet (ip_off + 2) 2)) [
    | inl no_ip ↦ absurd (ground arith)
    | inr (old_ip, got_ip) ↦ elim (Option-cases (k.bpf_skb_load_bytes m.packet (udp_off + 4) 2)) [
      | inl no_udp ↦ absurd (ground arith)
      | inr (old_udp, got_udp) ↦
          let n = moved delta add (be16 old_ip 0) in
          let q₁ = (k.bpf_l3_csum_replace m.packet (ip_off + 10) (be16 old_ip 0) n).1 in
          let q₂ = (k.bpf_skb_store_bytes q₁ (ip_off + 2) (htons n)).1 in
          let q₃ =
            (k.bpf_skb_store_bytes q₂ (udp_off + 4) (htons (moved delta add (be16 old_udp 0)))).1 in
          let ran = rw (got_ip, got_udp) at updated in
          (
            old_ip,
            old_udp,
            got_ip,
            got_udp,
            ground arith,
            (q₁, q₂, q₃, ground arith, ground arith, ground arith, ground arith),
          )
    ]
  ]

-- A length after the update, on 16 bits: `delta` more than before, or `delta` less, where it was not
-- less than that.
abbrev pub IsMoved : ℕ → Bool → ℕ → ℕ → Type 0
IsMoved delta true old new = new ≡ (old + delta) % 65536
IsMoved delta false old new = (delta ≤ old) × (new ≡ (old - delta % 65536) % 65536)

IsMoved-moved :
    (delta : ℕ) (add : Bool) (old : ℕ)
    → (add ≡ true) ⊎ (delta ≤ old)
    → IsMoved delta add old (u16 (moved delta add old))
IsMoved-moved delta true old enough = omega arith
IsMoved-moved delta false old (inl adds) = cc adds
IsMoved-moved delta false old (inr enough) = (enough, refl)

-- What a successful update leaves: the new lengths, no UDP checksum, and every other byte, but for
-- the IPv4 checksum, as it was.
pub record Updates (ip_off udp_off delta : ℕ) (add : Bool) (b b' : List ℕ) : Type 0 where
  pub ip_length : IsMoved delta add (be16 b (ip_off + 2)) (be16 b' (ip_off + 2))
  pub udp_length : IsMoved delta add (be16 b (udp_off + 4)) (be16 b' (udp_off + 4))
  pub no_checksum : be16 b' (udp_off + 6) ≡ 0
  pub same_length : length b' ≡ length b
  pub elsewhere :
      (j : ℕ)
      → (j < ip_off + 2)
        ⊎ ((ip_off + 4 ≤ j) × (j < ip_off + 10))
        ⊎ ((ip_off + 12 ≤ j) × (j < udp_off + 4))
        ⊎ (udp_off + 8 ≤ j)
      → byte_at b' j ≡ byte_at b j

Updates-stored :
    (ip_off udp_off delta n l : ℕ) (add : Bool) (b c b' : List ℕ)
    → ip_off + 12 ≤ udp_off + 4
    → udp_off + 8 ≤ length c
    → n ≡ moved delta add (be16 b (ip_off + 2))
    → l ≡ moved delta add (be16 b (udp_off + 4))
    → (add ≡ true) ⊎ (delta ≤ be16 b (ip_off + 2)) × (delta ≤ be16 b (udp_off + 4))
    → length c ≡ length b
    → ((j : ℕ) → (j < ip_off + 10) ⊎ (ip_off + 12 ≤ j) → byte_at c j ≡ byte_at b j)
    → b' ≡ stored ip_off udp_off n l c
    → Updates ip_off udp_off delta add b b'
Updates-stored ip_off udp_off delta n l add b c b' apart fits en el enough size kept made = record {
  ip_length =
      rw (made, stored_ip ip_off udp_off n l c apart fits, en)
        (IsMoved-moved delta add (be16 b (ip_off + 2)) (ground arith));
  udp_length =
      rw (made, stored_udp ip_off udp_off n l c apart fits, el)
        (IsMoved-moved delta add (be16 b (udp_off + 4)) (ground arith));
  no_checksum = rw made (stored_checksum ip_off udp_off n l c apart fits);
  same_length = rw made (length-stored ip_off udp_off n l c apart fits ∙ size);
  elsewhere = λ j away.
      rw made
        (stored_elsewhere ip_off udp_off n l c apart fits j (omega arith) ∙ kept j (omega arith));
}

-- Where update_lengths succeeds on a packet whose UDP header lies behind its IPv4 header, the two
-- lengths have grown or shrunk by `delta`, on 16 bits, and were not less than what they shrank by;
-- the UDP checksum is cleared, and every other byte, but for the IPv4 checksum, is as it was.
pub update_lengths-Updates :
    (k : Kernel) (ip_off udp_off delta : ℕ) (add : Bool) (e : Exit) (m m' : Machine)
    → IsSkbLawful k
    → ip_off + 12 ≤ udp_off + 4
    → update_lengths k ip_off udp_off delta add e m ≡ (m', next tt)
    → Updates ip_off udp_off delta add m.packet.bytes m'.packet.bytes
update_lengths-Updates k ip_off udp_off delta add e m m' skb apart updated =
    let (old_ip, old_udp, got_ip, got_udp, enough, (q₁, q₂, q₃, csum, ip_set, udp_set, cleared)) =
      update_lengths_calls k ip_off udp_off delta add e m m' tt updated in
    let b = m.packet.bytes in
    let ip_was : be16 old_ip 0 ≡ be16 b (ip_off + 2) =
      rw (skb.load m.packet (ip_off + 2) 2 old_ip got_ip).0 (be16-slice b (ip_off + 2)) in
    let udp_was : be16 old_udp 0 ≡ be16 b (udp_off + 4) =
      rw (skb.load m.packet (udp_off + 4) 2 old_udp got_udp).0 (be16-slice b (udp_off + 4)) in
    let n = moved delta add (be16 old_ip 0) in
    let l = moved delta add (be16 old_udp 0) in
    let (q₂_bytes, _) = skb.store q₁ q₂ (ip_off + 2) (htons n) ip_set in
    let (q₃_bytes, _) = skb.store q₂ q₃ (udp_off + 4) (htons l) udp_set in
    let (last_bytes, last_fits) = skb.store q₃ m'.packet (udp_off + 6) (0 ∷ 0 ∷ []) cleared in
    let all : m'.packet.bytes ≡ stored ip_off udp_off n l q₁.bytes =
      rw (last_bytes, q₃_bytes, q₂_bytes) refl in
    let size₃ : length q₃.bytes ≡ length q₁.bytes =
      rw (q₃_bytes, q₂_bytes)
        (length-overwrite _ (udp_off + 4) (htons l) ∙ length-overwrite _ (ip_off + 2) (htons n)) in
    let sizes : ((add ≡ true) ⊎ (delta ≤ be16 b (ip_off + 2)) × (delta ≤ be16 b (udp_off + 4))) =
      rw (← ip_was, ← udp_was) enough in
    Updates-stored ip_off udp_off delta n l add b q₁.bytes m'.packet.bytes apart (omega arith)
      (rw ip_was refl) (rw udp_was refl) sizes
      (skb.csum_length m.packet q₁ (ip_off + 10) (be16 old_ip 0) n csum)
      (λ j away. skb.csum_outside m.packet q₁ (ip_off + 10) (be16 old_ip 0) n j csum (omega arith))
      all

-- Growing and shrinking by the same number of bytes cancel out: after both updates the two lengths
-- are what they were, if the grown ones fit 16 bits, and every other byte, but for the checksums,
-- is as it was.
pub update_lengths_inverse :
    (k : Kernel) (ip_off udp_off delta : ℕ) (e e' : Exit) (m₁ m₂ m₃ : Machine)
    → IsSkbLawful k
    → ip_off + 12 ≤ udp_off + 4
    → be16 m₁.packet.bytes (ip_off + 2) + delta < 65536
    → be16 m₁.packet.bytes (udp_off + 4) + delta < 65536
    → update_lengths k ip_off udp_off delta true e m₁ ≡ (m₂, next tt)
    → update_lengths k ip_off udp_off delta false e' m₂ ≡ (m₃, next tt)
    → (be16 m₃.packet.bytes (ip_off + 2) ≡ be16 m₁.packet.bytes (ip_off + 2))
      × (be16 m₃.packet.bytes (udp_off + 4) ≡ be16 m₁.packet.bytes (udp_off + 4))
      × ((j : ℕ)
          → (j < ip_off + 2)
            ⊎ ((ip_off + 4 ≤ j) × (j < ip_off + 10))
            ⊎ ((ip_off + 12 ≤ j) × (j < udp_off + 4))
            ⊎ (udp_off + 8 ≤ j)
          → byte_at m₃.packet.bytes j ≡ byte_at m₁.packet.bytes j)
update_lengths_inverse k ip_off udp_off delta e e' m₁ m₂ m₃ skb apart ip_fits udp_fits grown
      shrunk =
    let grows = update_lengths-Updates k ip_off udp_off delta true e m₁ m₂ skb apart grown in
    let shrinks = update_lengths-Updates k ip_off udp_off delta false e' m₂ m₃ skb apart shrunk in
    (
      omega (arith, grows.ip_length, shrinks.ip_length),
      omega (arith, grows.udp_length, shrinks.udp_length),
      λ j away. shrinks.elsewhere j away ∙ grows.elsewhere j away,
    )
