-- ===== src/Machine/Act.antt =====
-- A program that changes the packet step by step: each step goes on with a value or leaves through
-- an exit, in the state that the steps before it have left.
use e_ba_f_project.Base.{ℕ, ◌≡◌, refl, Bool, true, false, Option, if◌then◌else◌, arith}
use e_ba_f_project.Wire.{Packet}
use e_ba_f_project.Flow.{Exit, quiet, Flow, next, exit, exit_if}
use e_ba_f_project.Machine.{Machine, leave}

abbrev pub Act {ℓ} : Type ℓ → Type ℓ
Act A = Machine → Machine × Flow A

module _ {ℓ} {A : Type ℓ} where
  abbrev pub done : A → Act A
  done a m = (m, next a)

  -- A step that only reads.
  abbrev pub lift : Flow A → Act A
  lift r m = (m, r)

  -- A step that reads the packet.
  abbrev pub read : (Packet → Flow A) → Act A
  read f m = (m, f m.packet)

infixl 5 ◌>>=◌ ◌>>◌
abbrev pub follow {ℓ κ} :
    {A : Type ℓ} {B : Type κ} → Machine × Flow A → (A → Act B) → Machine × Flow B
follow (m, next a) f = f a m
follow (m, exit e) f = (m, exit e)

abbrev pub ◌>>=◌ {ℓ κ} : {A : Type ℓ} {B : Type κ} → Act A → (A → Act B) → Act B
(a >>= f) m = follow (a m) f

abbrev pub ◌>>◌ {ℓ} : {B : Type ℓ} → Act (Unit {0}) → Act B → Act B
a >> b = a >>= λ _. b

-- `if (c) { <count>; return; }`
abbrev pub check : Bool → Exit → Act (Unit {0})
check c e = lift (exit_if c e)

-- A call that changes the packet, and the exit where it fails.
abbrev pub change : (Packet → Bool × Packet) → Exit → Act (Unit {0})
change f e m =
    let (ok, p) = f m.packet in (record m { packet = p }, exit_if (if ok then false else true) e)

-- What a run returns, and the counters at its end.
abbrev pub close : ℕ → Machine × Flow (Unit {0}) → Option ℕ × Machine
close code (m, next a) = leave code quiet m
close code (m, exit e) = leave code e m

-- Inversion of a chain of steps that went on, and of a call that did.
pub follow-eq-next {ℓ κ} :
    {A : Type ℓ} {B : Type κ} (r : Machine × Flow A) (f : A → Act B) {m' : Machine} {b : B}
    → follow r f ≡ (m', next b)
    → (m : Machine) × (a : A) × (r ≡ (m, next a)) × (f a m ≡ (m', next b))
follow-eq-next (m, next a) f h = (m, a, refl, h)
follow-eq-next (m, exit e) f h = cc

pub change-eq-next :
    (f : Packet → Bool × Packet) (e : Exit) (m m' : Machine) (u : Unit {0})
    → change f e m ≡ (m', next u)
    → (q : Packet) × (f m.packet ≡ (true, q)) × (m' ≡ record m { packet = q })
change-eq-next f e m m' u h = ((f m.packet).1, ground arith, ground arith)
