-- ===== src/Exec.antt =====
-- `create_process` and `execvpe` of sys/process.c: how a program is found, loaded and started.
pub mod Elf
pub mod Stack
pub mod Command
pub mod Start
