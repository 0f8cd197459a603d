-- ===== src/TcCrypto/Program.antt =====
-- That the program of src/bpf/tc_crypto.bpf.c fills the contract of a framed program.
use e_ba_f_project.Base.{ℕ, ◌≡◌, true, Option, some, arith, ◌==◌, inl, inr, Bool-cases}
use e_ba_f_project.Flow.{next, exit, Exit, >>=-eq-exit}
use e_ba_f_project.Wire.{CryptoConfig, Packet, action_encrypt}
use e_ba_f_project.Kernel.{Kernel}
use e_ba_f_project.Kernel.Laws.{IsDynptrLawful, narrowed, Cipher, IsCryptoLawful, Applies}
use e_ba_f_project.Machine.{Machine}
use e_ba_f_project.Machine.Accounts.{IsCounted}
use e_ba_f_project.Framed.{Frame, payload_of, Job}
use e_ba_f_project.Framed.Steps.{Layout, IsFramed, body_ptr, iv_ptr, operation}
use e_ba_f_project.TcCrypto.{parse_ip, parse_udp, parse_header, parse, prepare, run_cipher, tc}
use e_ba_f_project.TcCrypto.Shape.{IsFrame, parse_tc_iff}

parse_ip-IsCounted : (p : Packet) (e : Exit) → parse_ip p ≡ exit e → IsCounted e
unfolding parse_ip
parse_ip-IsCounted p e h = ground arith

parse_udp-IsCounted :
    (p : Packet) (lookup : Option CryptoConfig) (udp : ℕ) (e : Exit)
    → parse_udp p lookup udp ≡ exit e
    → IsCounted e
unfolding parse_udp
parse_udp-IsCounted p lookup udp e h = ground arith

parse_header-IsCounted :
    (p : Packet) (payload payload_len : ℕ) (e : Exit)
    → parse_header p payload payload_len ≡ exit e
    → IsCounted e
unfolding parse_header
parse_header-IsCounted p payload payload_len e h = ground arith

parse-IsCounted :
    (p : Packet) (lookup : Option CryptoConfig) (e : Exit) → parse p lookup ≡ exit e → IsCounted e
unfolding parse
parse-IsCounted p lookup e h = elim (>>=-eq-exit (parse_ip p) _ h) [
  | inl bad ↦ parse_ip-IsCounted p e bad
  | inr (udp, _, h₁) ↦ elim (>>=-eq-exit (parse_udp p lookup udp) _ h₁) [
    | inl bad ↦ parse_udp-IsCounted p lookup udp e bad
    | inr (datagram, _, h₂) ↦ elim (>>=-eq-exit (parse_header p (payload_of udp) datagram.1) _ h₂) [
      | inl bad ↦ parse_header-IsCounted p (payload_of udp) datagram.1 e bad
      | inr (_, _, h₃) ↦ cc h₃
    ]
  ]
]

prepare-IsCounted :
    (k : Kernel) (m : Machine) (f : Frame) (e : Exit) → prepare k m f ≡ exit e → IsCounted e
unfolding prepare
prepare-IsCounted k m f e h = ground arith

prepare_ptrs :
    (k : Kernel) (laws : IsDynptrLawful k) (m : Machine) (f : Frame) (j : Job)
    → prepare k m f ≡ next j
    → (m.slot ≡ some (some j.ctx)) × (j.data_ptr ≡ body_ptr f) × (j.iv_ptr ≡ iv_ptr f)
unfolding prepare
prepare_ptrs k laws m f j h = grind (arith, laws.from_skb, narrowed k laws)

run_cipher-Applies :
    (k : Kernel) (c : Cipher) (laws : IsCryptoLawful k c) (f : Frame) (j : Job) (p q : Packet)
    → j.data_ptr ≡ body_ptr f
    → j.iv_ptr ≡ iv_ptr f
    → run_cipher k f.config j p ≡ (true, q)
    → Applies (operation c f.config.action j.ctx) (body_ptr f) (iv_ptr f) p q
unfolding run_cipher operation
run_cipher-Applies k c laws f j p q body_at iv_at done =
    rw (← body_at, ← iv_at)
      (elim (Bool-cases (f.config.action == action_encrypt)) [
        | inl encrypts ↦ rw encrypts (laws.encrypt j.ctx j.data_ptr j.iv_ptr p q (ground arith))
        | inr other ↦ rw other (laws.decrypt j.ctx j.data_ptr j.iv_ptr p q (ground arith))
      ])

pub IsFrame-Layout :
    (p : Packet) (lookup : Option CryptoConfig) (f : Frame) → IsFrame p lookup f → Layout p lookup f
IsFrame-Layout p lookup f frame = ground arith

-- The program fills the contract of a framed program.
pub tc-IsFramed :
    (k : Kernel) (c : Cipher) → IsDynptrLawful k → IsCryptoLawful k c → IsFramed c (tc k)
unfolding tc
tc-IsFramed k c dynptrs crypto = record {
  parse_counted = parse-IsCounted;
  parse_layout = λ p lookup f h. IsFrame-Layout p lookup f ((parse_tc_iff p lookup f).0 h);
  prepare_counted = prepare-IsCounted k;
  prepare_ptrs = prepare_ptrs k dynptrs;
  call_applies = run_cipher-Applies k c crypto;
}
