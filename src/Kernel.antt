-- ===== src/Kernel.antt =====
-- src/kernel: what an exit relay lets a circuit reach.
pub mod Ip
pub mod ExitPolicy
pub mod KillSwitch
pub mod Dns
mod Examples
