-- ===== src/Tsh/Tests.antt =====
-- Runs of the shell's parts, and the theorems at concrete tables and command lines.
mod Tables
mod Lines
mod Commands
