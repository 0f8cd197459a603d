-- ===== src/Transparent/Untouched.antt =====
-- What src/bpf/tc_transparent.bpf.c leaves alone.
use e_ba_f_project.Base.{◌≡◌, ◌⊎◌, inl, inr}
use e_ba_f_project.Flow.{Flow-cases}
use e_ba_f_project.Wire.{tc_act_ok}
use e_ba_f_project.Kernel.{Kernel}
use e_ba_f_project.Machine.{Machine, packets_seen, count}
use e_ba_f_project.Machine.Accounts.{leave_keeps}
use e_ba_f_project.Transparent.Checks.{Datagram, parse, IsDatagram, parse_transparent_iff}
use e_ba_f_project.Transparent.{tc_transparent}

-- On any packet and with any kernel, either the packet is a plain UDP datagram to the configured
-- port under a configuration for AES-CBC, or the program leaves it alone and submits no event.
pub tc_transparent_untouched :
    (k : Kernel) (m : Machine)
    → ((d : Datagram) × IsDatagram m.packet m.config d)
      ⊎ (((tc_transparent k m).1.packet ≡ m.packet) × ((tc_transparent k m).1.events ≡ m.events))
unfolding tc_transparent count
tc_transparent_untouched k m = elim (Flow-cases (parse m.packet m.config)) [
  | inl (d, found) ↦ inl (d, (parse_transparent_iff m.packet m.config d).0 found)
  | inr (e, left) ↦ inr (rw left (leave_keeps tc_act_ok e (count packets_seen m)))
]
