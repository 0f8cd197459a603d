-- ===== src/Tests/Toy.antt =====
-- A small kernel that meets the laws that the theorems assume: its cipher adds to each byte a
-- number that depends on the context and on the first byte of the IV.
use e_ba_f_project.Base.{
  ℕ, ◌+◌, ◌*◌, ◌-◌, ◌≡◌, refl, ap₂, Bool, true, false, none, some, List, [], ◌∷◌, ◌&&◌, leb,
  if◌then◌else◌, length, byte_at, replicate, take, ◌++◌, arith, zero, suc, ◌<◌, length-take,
  length-append, get_or-take, sym, ap, Bool-cases, inl, inr, ◌∙◌,
}
use e_ba_f_project.Base.Bytes.{
  slice, overwrite, length-slice, length-overwrite, slice-overwrite_self, byte_at-overwrite_outside,
}
use e_ba_f_project.Wire.{Packet}
use e_ba_f_project.Kernel.{Dynptr, Kernel}
use e_ba_f_project.Kernel.Skb.{IsSkbLawful}
use e_ba_f_project.Kernel.Laws.{IsDynptrLawful, Cipher, Applies, IsCryptoLawful}

abbrev pub shift : ℕ → List ℕ → ℕ
shift ctx iv = ctx + 1 + byte_at iv 0

abbrev pub raise : ℕ → List ℕ → List ℕ
raise s [] = []
raise s (x ∷ b) = (x + s) ∷ raise s b

abbrev pub lower : ℕ → List ℕ → List ℕ
lower s [] = []
lower s (x ∷ b) = (x - s) ∷ lower s b

pub lower-raise : (s : ℕ) (b : List ℕ) → lower s (raise s b) ≡ b
lower-raise s [] = refl
lower-raise s (x ∷ b) = ap₂ ◌∷◌ (omega arith) (lower-raise s b)

pub length-raise : (s : ℕ) (b : List ℕ) → length (raise s b) ≡ length b
length-raise s [] = refl
length-raise s (x ∷ b) = omega (arith, length-raise s b)

length-lower : (s : ℕ) (b : List ℕ) → length (lower s b) ≡ length b
length-lower s [] = refl
length-lower s (x ∷ b) = omega (arith, length-lower s b)

abbrev pub toy_cipher : Cipher
toy_cipher = record {
  encipher = λ ctx iv b. raise (shift ctx iv) b;
  decipher = λ ctx iv b. lower (shift ctx iv) b;
  decipher-encipher = λ ctx iv b. lower-raise (shift ctx iv) b;
  length-encipher = λ ctx iv b. length-raise (shift ctx iv) b;
}

abbrev pub in_place : (List ℕ → List ℕ → List ℕ) → Dynptr → Dynptr → Dynptr → Packet → Bool × Packet
in_place f src dst iv p =
    if leb (dst.offset + dst.size) (length p.bytes)
    then (
      true,
      record p {
        bytes =
            overwrite p.bytes dst.offset
              (f (slice p.bytes iv.offset iv.size) (slice p.bytes src.offset src.size));
      },
    )
    else (false, p)

abbrev pub toy_kernel : Kernel
toy_kernel = record {
  bpf_dynptr_from_xdp = λ p. some (record { offset = 0; size = length p.bytes });
  bpf_dynptr_from_skb = λ p. some (record { offset = 0; size = length p.bytes });
  bpf_dynptr_clone = λ d. some d;
  bpf_dynptr_adjust = λ d start end.
      if leb start end && leb end d.size
      then some (record { offset = d.offset + start; size = end - start })
      else none;
  bpf_crypto_encrypt = λ ctx. in_place (toy_cipher.encipher ctx);
  bpf_crypto_decrypt = λ ctx. in_place (toy_cipher.decipher ctx);
  bpf_ringbuf_reserve = λ events. true;
  bpf_ktime_get_ns = λ n. n * 1000;
  bpf_skb_load_bytes =
      λ p off n. if leb (off + n) (length p.bytes) then some (slice p.bytes off n) else none;
  bpf_skb_store_bytes = λ p off new.
      if leb (off + length new) (length p.bytes)
      then (true, record p { bytes = overwrite p.bytes off new })
      else (false, p);
  bpf_skb_change_tail = λ p n.
      (true, record { bytes = take n (p.bytes ++ replicate (n - length p.bytes) 0); data_end = n });
  bpf_l3_csum_replace = λ p off from to. (true, p);
}

pub toy-IsDynptrLawful : IsDynptrLawful toy_kernel
toy-IsDynptrLawful = record {
  from_xdp = λ p d h. ground arith;
  from_skb = λ p d h. ground arith;
  clone = λ d e h. ground arith;
  adjust = λ d e start end h. ground arith;
}

in_place-Applies :
    (f : List ℕ → List ℕ → List ℕ) (d v : Dynptr) (p q : Packet)
    → ((iv b : List ℕ) → length (f iv b) ≡ length b)
    → in_place f d d v p ≡ (true, q)
    → Applies f d v p q
in_place-Applies f d v p q keeps h = elim (Bool-cases (leb (d.offset + d.size) (length p.bytes))) [
  | inr outside ↦ absurd (ground arith)
  | inl inside ↦
      let text = f (slice p.bytes v.offset v.size) (slice p.bytes d.offset d.size) in
      let size : length text ≡ d.size =
        keeps (slice p.bytes v.offset v.size) (slice p.bytes d.offset d.size)
        ∙ length-slice p.bytes d.offset d.size (ground arith) in
      let made : q ≡ record p { bytes = overwrite p.bytes d.offset text } = ground arith in
      rw made (record {
        body = slice-overwrite_self p.bytes d.offset d.size text size (ground arith);
        outside = λ j away _. byte_at-overwrite_outside p.bytes d.offset text j (rw size away);
        same_length = length-overwrite p.bytes d.offset text;
        same_end = refl;
      })
]

pub toy-IsCryptoLawful : IsCryptoLawful toy_kernel toy_cipher
toy-IsCryptoLawful = record {
  encrypt = λ ctx d v p q h.
      in_place-Applies (toy_cipher.encipher ctx) d v p q (λ iv b. length-raise (shift ctx iv) b) h;
  decrypt = λ ctx d v p q h.
      in_place-Applies (toy_cipher.decipher ctx) d v p q (λ iv b. length-lower (shift ctx iv) b) h;
}

length-replicate : (n x : ℕ) → length (replicate n x) ≡ n
length-replicate zero x = refl
length-replicate (suc n) x = omega (arith, length-replicate n x)

byte_at-append : (a b : List ℕ) (j : ℕ) → j < length a → byte_at (a ++ b) j ≡ byte_at a j
byte_at-append [] b j h = elim h [ ]
byte_at-append (x ∷ a) b zero h = refl
byte_at-append (x ∷ a) b (suc j) h = byte_at-append a b j (omega arith)

abbrev grown : Packet → ℕ → List ℕ
grown p n = p.bytes ++ replicate (n - length p.bytes) 0

grown_tail :
    (p q : Packet) (n : ℕ)
    → toy_kernel.bpf_skb_change_tail p n ≡ (true, q)
    → q.bytes ≡ take n (grown p n)
grown_tail p q n h = ap (λ r. r.1.bytes) (sym h)

pub toy-IsSkbLawful : IsSkbLawful toy_kernel
toy-IsSkbLawful = record {
  load = λ p off n b h. ground arith;
  store = λ p q off new h. ground arith;
  csum_length = λ p q off from to h. ground arith;
  csum_outside = λ p q off from to j h away. ground arith;
  tail_length = λ p q n h. rw (grown_tail p q n h) (
      omega (
        arith,
        length-take n (grown p n),
        length-append p.bytes (replicate (n - length p.bytes) 0),
        length-replicate (n - length p.bytes) 0,
      ));
  tail_kept = λ p q n j h below inside. rw (grown_tail p q n h) (
      get_or-take n j (grown p n) 0 below
      ∙ byte_at-append p.bytes (replicate (n - length p.bytes) 0) j inside);
}
