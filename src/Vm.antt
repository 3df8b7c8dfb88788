-- ===== src/Vm.antt =====
-- vm.c and vm.h: the virtual machine.
pub mod Ops
pub mod Codes
pub mod Names
pub mod Operand
pub mod Value
pub mod Computes
pub mod Except
pub mod Call
pub mod Frames
