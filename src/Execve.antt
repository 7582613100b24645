-- ===== src/Execve.antt =====
-- core/proot/src/main/cpp/execve: the program that an execve(2) runs.
pub mod Script
pub mod Expand
pub mod Elf
pub mod Load
pub mod Enter
pub mod Exit
