-- ===== src/Tests.antt =====
-- Tests of the model on concrete packets and arguments, and the theorems at inputs that meet their
-- hypotheses.
pub mod Toy
pub mod Packets
pub mod Framing
pub mod Options
pub mod Plain
pub mod Lines
pub mod Loading
pub mod Sending
