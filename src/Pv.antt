-- ===== src/Pv.antt =====
-- The paravirtual guests of kern/pv.c, kern/inc/pv.h and kern/hvcall.c.
pub mod Shadow
pub mod Vidt
pub mod Vm
pub mod Access
pub mod Interrupt
pub mod Hvcall
pub mod Steps
mod Tests
