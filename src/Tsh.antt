-- ===== src/Tsh.antt =====
-- The shell of assign3.
pub mod Jobs
pub mod Parse
pub mod Kernel
pub mod Signals
pub mod Builtins
pub mod Eval
mod Tests
