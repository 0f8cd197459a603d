-- ===== src/Transparent/Safety.antt =====
-- That src/bpf/tc_transparent.bpf.c makes no access behind `data_end` and always lets the packet
-- go on.
use e_ba_f_project.Base.{
  ℕ, zero, suc, ◌+◌, ◌≡◌, ◌≢◌, Bool, true, false, Option, some, none, arith, if◌then◌else◌,
}
use e_ba_f_project.Flow
use e_ba_f_project.Flow.{
  Exit, fault, quiet, rejected, failed, Flow, next, exit, Flow-cases, exit_if, or_exit,
}
use e_ba_f_project.Wire.{CryptoConfig, Packet, tc_act_ok}
use e_ba_f_project.Kernel.{Kernel}
use e_ba_f_project.Machine.{Machine, packets_seen, count, leave}
use e_ba_f_project.Machine.Act.{Act, done, read, follow, ◌>>=◌, check, change, close}
use e_ba_f_project.Transparent.Checks.{Datagram, parse, parse_safe}
use e_ba_f_project.Transparent.Lengths.{update_lengths}
use e_ba_f_project.Transparent.Event.{reopen, reopen_payload, emit_event}
use e_ba_f_project.Transparent.{
  Sealed, fill_iv, store_padding, extend, locate, cipher, report, shrink, transform, tc_transparent,
}

-- In no state does the step end in a fault.
abbrev pub IsSafe {ℓ} : {A : Type ℓ} → Act A → Type ℓ
IsSafe a = (m : Machine) → (a m).1 ≢ exit fault

module _ {ℓ κ} {A : Type ℓ} {B : Type κ} where
  follow-IsSafe :
      (r : Machine × Flow A) (f : A → Act B)
      → r.1 ≢ exit fault
      → ((a : A) → IsSafe (f a))
      → (follow r f).1 ≢ exit fault
  follow-IsSafe (m, next a) f safe rest = rest a m
  follow-IsSafe (m, exit e) f safe rest = λ h. safe (cc h)

  pub bind-IsSafe :
      (a : Act A) (f : A → Act B) → IsSafe a → ((x : A) → IsSafe (f x)) → IsSafe (a >>= f)
  bind-IsSafe a f safe rest m = follow-IsSafe (a m) f (safe m) rest

done-IsSafe {ℓ} : {A : Type ℓ} (a : A) → IsSafe (done a)
done-IsSafe a m h = cc h

check-IsSafe : (c : Bool) (e : Exit) → e ≢ fault → IsSafe (check c e)
check-IsSafe true e plain m h = plain (cc h)
check-IsSafe false e plain m h = cc h

exit_if_safe : (c : Bool) (e : Exit) → e ≢ fault → exit_if c e ≢ exit fault
exit_if_safe true e plain h = plain (cc h)
exit_if_safe false e plain h = cc h

or_exit_safe {ℓ} : {A : Type ℓ} (o : Option A) (e : Exit) → e ≢ fault → or_exit o e ≢ exit fault
or_exit_safe (some a) e plain h = cc h
or_exit_safe none e plain h = plain (cc h)

change-IsSafe : (f : Packet → Bool × Packet) (e : Exit) → e ≢ fault → IsSafe (change f e)
change-IsSafe f e plain m = exit_if_safe _ e plain

read-IsSafe {ℓ} :
    {A : Type ℓ} (f : Packet → Flow A) → ((p : Packet) → f p ≢ exit fault) → IsSafe (read f)
read-IsSafe f safe m = safe m.packet

reopen_safe :
    (no_eth no_ip no_udp : Exit) (p : Packet)
    → no_eth ≢ fault
    → no_ip ≢ fault
    → no_udp ≢ fault
    → reopen no_eth no_ip no_udp p ≢ exit fault
unfolding reopen
reopen_safe no_eth no_ip no_udp p h₁ h₂ h₃ h = ground arith

reopen_payload_safe :
    (no_eth no_ip no_udp short : Exit) (need : ℕ) (p : Packet)
    → no_eth ≢ fault
    → no_ip ≢ fault
    → no_udp ≢ fault
    → short ≢ fault
    → reopen_payload no_eth no_ip no_udp short need p ≢ exit fault
unfolding reopen_payload reopen
reopen_payload_safe no_eth no_ip no_udp short need p h₁ h₂ h₃ h₄ h = ground arith

rejected_plain : (r : Flow.Reason) → rejected r ≢ fault
rejected_plain r h = cc h

failed_plain : failed ≢ fault
failed_plain h = cc h

quiet_plain : quiet ≢ fault
quiet_plain h = cc h

rejected_failed_plain : Flow.rejected_failed ≢ fault
rejected_failed_plain h = cc h

if-IsSafe {ℓ} :
    {A : Type ℓ} (c : Bool) (a b : Act A) → IsSafe a → IsSafe b → IsSafe (if c then a else b)
if-IsSafe true a b yes_safe no_safe = yes_safe
if-IsSafe false a b yes_safe no_safe = no_safe

-- The rules for steps without faults.
ruleset steps = (
  bind-IsSafe, done-IsSafe, check-IsSafe, exit_if_safe, or_exit_safe, change-IsSafe, read-IsSafe,
  if-IsSafe, reopen_safe, reopen_payload_safe, rejected_plain, failed_plain, quiet_plain,
  rejected_failed_plain,
)

update_lengths-IsSafe :
    (k : Kernel) (ip_off udp_off delta : ℕ) (add : Bool) (e : Exit)
    → e ≢ fault
    → IsSafe (update_lengths k ip_off udp_off delta add e)
unfolding update_lengths
update_lengths-IsSafe k ip_off udp_off delta add e plain = search steps depth 12

locate-IsSafe : (k : Kernel) (d : Datagram) → IsSafe (locate k d)
unfolding locate
locate-IsSafe k d = search steps depth 12

store_padding-IsSafe :
    (k : Kernel) (at pad_len left i : ℕ) → IsSafe (store_padding k at pad_len left i)
unfolding store_padding
store_padding-IsSafe k at pad_len zero i = search steps
store_padding-IsSafe k at pad_len (suc left) i =
    search (steps, store_padding-IsSafe k at pad_len left (i + 1))

fill_iv-IsSafe : (k : Kernel) → IsSafe (fill_iv k)
unfolding fill_iv
fill_iv-IsSafe k m h = cc h

extend-IsSafe : (k : Kernel) (d : Datagram) → IsSafe (extend k d)
unfolding extend
extend-IsSafe k d =
    search (steps, store_padding-IsSafe, fill_iv-IsSafe, update_lengths-IsSafe) depth 16

cipher-IsSafe : (k : Kernel) (config : CryptoConfig) (s : Sealed) → IsSafe (cipher k config s)
unfolding cipher
cipher-IsSafe k config s = search steps depth 16

shrink-IsSafe : (k : Kernel) (d : Datagram) (s : Sealed) → IsSafe (shrink k d s)
unfolding shrink
shrink-IsSafe k d s = search (steps, update_lengths-IsSafe) depth 12

report-IsSafe : (k : Kernel) (d : Datagram) (s : Sealed) → IsSafe (report k d s)
unfolding report reopen_payload reopen emit_event count
report-IsSafe k d s m h = ground arith

ruleset path = (steps, extend-IsSafe, locate-IsSafe, cipher-IsSafe, report-IsSafe, shrink-IsSafe)

transform-IsSafe : (k : Kernel) (d : Datagram) → IsSafe (transform k d)
unfolding transform
transform-IsSafe k d = search path

close_code :
    (code : ℕ) (r : Machine × Flow (Unit {0})) → r.1 ≢ exit fault → (close code r).0 ≡ some code
unfolding leave
close_code code (m, next a) safe = ground arith
close_code code (m, exit e) safe = ground arith

-- Whatever the packet, the maps and the kernel's answers, the program returns TC_ACT_OK, and makes
-- no access behind `data_end`.
pub tc_transparent_passes : (k : Kernel) (m : Machine) → (tc_transparent k m).0 ≡ some tc_act_ok
unfolding tc_transparent count
tc_transparent_passes k m = close_code tc_act_ok _ (
    bind-IsSafe (read λ p. parse p m.config) (transform k) (λ m'. parse_safe m'.packet m.config)
      (transform-IsSafe k) (count packets_seen m))
