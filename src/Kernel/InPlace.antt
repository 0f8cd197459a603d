-- ===== src/Kernel/InPlace.antt =====
-- What the framed programs leave of a packet: the cipher applied in place, the UDP checksum
-- zeroed and the IV put back, as one equation on the whole buffer.
use e_ba_f_project.Base.{
  ℕ, ◌+◌, ◌-◌, ◌≤◌, ◌<◌, ◌≡◌, ◌⊎◌, List, [], ◌∷◌, arith, length, byte_at, get_or_ext, ◌∙◌, refl,
}
use e_ba_f_project.Base.Bytes.{
  slice, overwrite, length-slice, length-overwrite, byte_at-overwrite, byte_at-slice, slice-eq,
  slice-overwrite_self,
}
use e_ba_f_project.Wire.{Packet}
use e_ba_f_project.Kernel.Laws.{Applies}

-- `p` with its checksum at `check` zeroed and `g` applied to the `n` bytes at `body` under the
-- 16 bytes at `iv`.
unfoldable pub ciphered : (List ℕ → List ℕ → List ℕ) → ℕ → ℕ → ℕ → ℕ → Packet → Packet
ciphered g check iv body n p = record p {
  bytes =
      overwrite (overwrite p.bytes check (0 ∷ 0 ∷ [])) body
        (g (slice p.bytes iv 16) (slice p.bytes body n));
}

module _ (g : List ℕ → List ℕ → List ℕ) (check iv body n : ℕ) (p q : Packet)
    (check_before : check + 2 ≤ iv) (iv_before : iv + 16 ≤ body) (fits : body + n ≤ length p.bytes)
    (done : Applies g
      (record { offset = body; size = n })
      (record { offset = iv; size = 16 })
      p
      q) where
  abbrev out : List ℕ
  out = g (slice p.bytes iv 16) (slice p.bytes body n)

  length-out : length out ≡ n
  length-out = ground (arith, done.body, done.same_length, length-slice q.bytes body n)

  restored_byte :
      (j : ℕ)
      → byte_at (overwrite (overwrite q.bytes check (0 ∷ 0 ∷ [])) iv (slice p.bytes iv 16)) j
        ≡ byte_at (overwrite (overwrite p.bytes check (0 ∷ 0 ∷ [])) body out) j
  restored_byte j = ground (
    arith,
    byte_at-overwrite (overwrite q.bytes check (0 ∷ 0 ∷ [])) iv (slice p.bytes iv 16) j,
    byte_at-overwrite q.bytes check (0 ∷ 0 ∷ []) j,
    byte_at-overwrite (overwrite p.bytes check (0 ∷ 0 ∷ [])) body out j,
    byte_at-overwrite p.bytes check (0 ∷ 0 ∷ []) j,
    length-overwrite q.bytes check (0 ∷ 0 ∷ []),
    length-overwrite p.bytes check (0 ∷ 0 ∷ []),
    length-slice p.bytes iv 16,
    length-out,
    done.same_length,
    done.outside j,
    done.body,
    byte_at-slice p.bytes iv 16 (j - iv),
    byte_at-slice q.bytes body n (j - body),
  )

  restored_eq :
      overwrite (overwrite q.bytes check (0 ∷ 0 ∷ [])) iv (slice p.bytes iv 16)
      ≡ overwrite (overwrite p.bytes check (0 ∷ 0 ∷ [])) body out
  restored_eq =
      get_or_ext 0 _ _
        (ground (
          arith,
          done.same_length,
          length-overwrite q.bytes check (0 ∷ 0 ∷ []),
          length-overwrite p.bytes check (0 ∷ 0 ∷ []),
          length-overwrite (overwrite q.bytes check (0 ∷ 0 ∷ [])) iv (slice p.bytes iv 16),
          length-overwrite (overwrite p.bytes check (0 ∷ 0 ∷ [])) body out,
        ))
        (λ j _. restored_byte j)

  -- Restoring the checksum and the IV after the cipher gives the packet as described.
  pub restored-ciphered :
      record q { bytes = overwrite (overwrite q.bytes check (0 ∷ 0 ∷ [])) iv (slice p.bytes iv 16) }
      ≡ ciphered g check iv body n p
  unfolding ciphered
  restored-ciphered = cc (restored_eq, done.same_end)

ciphered_as :
    (h : List ℕ → List ℕ → List ℕ) (check iv body n : ℕ) (q : Packet) (text : List ℕ)
    → h (slice q.bytes iv 16) (slice q.bytes body n) ≡ text
    → ciphered h check iv body n q
      ≡ record q { bytes = overwrite (overwrite q.bytes check (0 ∷ 0 ∷ [])) body text }
unfolding ciphered
ciphered_as h check iv body n q text e = rw e

module _ (g : List ℕ → List ℕ → List ℕ) (check iv body n : ℕ) (p : Packet)
    (check_before : check + 2 ≤ iv) (iv_before : iv + 16 ≤ body)
    (fits : body + n ≤ length p.bytes) where
  -- Outside of the checksum and the body the packet is as it was.
  pub ciphered_outside :
      (j : ℕ)
      → (j < check) ⊎ ((check + 2 ≤ j) × (j < body))
      → byte_at (ciphered g check iv body n p).bytes j ≡ byte_at p.bytes j
  unfolding ciphered
  ciphered_outside j away = ground (
    arith,
    byte_at-overwrite (overwrite p.bytes check (0 ∷ 0 ∷ [])) body
        (g (slice p.bytes iv 16) (slice p.bytes body n)) j,
    byte_at-overwrite p.bytes check (0 ∷ 0 ∷ []) j,
  )

  pub length-ciphered : length (ciphered g check iv body n p).bytes ≡ length p.bytes
  unfolding ciphered
  length-ciphered = ground (
    arith,
    length-overwrite p.bytes check (0 ∷ 0 ∷ []),
    length-overwrite (overwrite p.bytes check (0 ∷ 0 ∷ [])) body
        (g (slice p.bytes iv 16) (slice p.bytes body n)),
  )

  ciphered_iv : slice (ciphered g check iv body n p).bytes iv 16 ≡ slice p.bytes iv 16
  ciphered_iv =
      slice-eq (ciphered g check iv body n p).bytes p.bytes iv 16 (omega (arith, length-ciphered))
        (omega arith) (λ j lo hi. ciphered_outside j (omega arith))

  module _ (keeps : (v b : List ℕ) → length (g v b) ≡ length b) where
    abbrev sealed : List ℕ
    sealed = g (slice p.bytes iv 16) (slice p.bytes body n)

    length-sealed : length sealed ≡ n
    length-sealed =
        omega
          (arith, keeps (slice p.bytes iv 16) (slice p.bytes body n), length-slice p.bytes body n)

    ciphered_body : slice (ciphered g check iv body n p).bytes body n ≡ sealed
    unfolding ciphered
    ciphered_body =
        slice-overwrite_self (overwrite p.bytes check (0 ∷ 0 ∷ [])) body n sealed length-sealed
          (omega (arith, length-overwrite p.bytes check (0 ∷ 0 ∷ [])))

    reopened_byte :
        (j : ℕ)
        → byte_at
            (overwrite
              (overwrite (ciphered g check iv body n p).bytes check (0 ∷ 0 ∷ []))
              body
              (slice p.bytes body n))
            j
          ≡ byte_at (overwrite p.bytes check (0 ∷ 0 ∷ [])) j
    unfolding ciphered
    reopened_byte j = ground (
      arith,
      byte_at-overwrite (overwrite (ciphered g check iv body n p).bytes check (0 ∷ 0 ∷ [])) body
          (slice p.bytes body n) j,
      byte_at-overwrite (ciphered g check iv body n p).bytes check (0 ∷ 0 ∷ []) j,
      byte_at-overwrite (overwrite p.bytes check (0 ∷ 0 ∷ [])) body sealed j,
      byte_at-overwrite p.bytes check (0 ∷ 0 ∷ []) j,
      length-ciphered,
      length-overwrite (ciphered g check iv body n p).bytes check (0 ∷ 0 ∷ []),
      length-slice p.bytes body n,
      length-sealed,
      byte_at-slice p.bytes body n (j - body),
    )

    reopened_eq :
        overwrite
          (overwrite (ciphered g check iv body n p).bytes check (0 ∷ 0 ∷ []))
          body
          (slice p.bytes body n)
        ≡ overwrite p.bytes check (0 ∷ 0 ∷ [])
    reopened_eq =
        get_or_ext 0 _ _
          (omega (
            arith,
            length-ciphered,
            length-overwrite p.bytes check (0 ∷ 0 ∷ []),
            length-overwrite (ciphered g check iv body n p).bytes check (0 ∷ 0 ∷ []),
            length-overwrite (overwrite (ciphered g check iv body n p).bytes check (0 ∷ 0 ∷ []))
                body (slice p.bytes body n),
          ))
          (λ j _. reopened_byte j)

    -- Applying the inverse under the same IV leaves the packet with its checksum zeroed.
    pub ciphered_twice :
        (h : List ℕ → List ℕ → List ℕ)
        → ((v b : List ℕ) → h v (g v b) ≡ b)
        → ciphered h check iv body n (ciphered g check iv body n p)
          ≡ record p { bytes = overwrite p.bytes check (0 ∷ 0 ∷ []) }
    ciphered_twice h inverse =
        ciphered_as h check iv body n (ciphered g check iv body n p) (slice p.bytes body n)
          (rw (ciphered_iv, ciphered_body) (inverse _ _))
        ∙ (λ i. record { bytes = reopened_eq i; data_end = end_same i })
      where
        end_same : (ciphered g check iv body n p).data_end ≡ p.data_end
        end_same = unfold ciphered in refl
