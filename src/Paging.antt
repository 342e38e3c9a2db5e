-- ===== src/Paging.antt =====
-- sys/paging.c: physical pages and the four-level page tables.
pub mod Frames
pub mod Tables
pub mod Space
