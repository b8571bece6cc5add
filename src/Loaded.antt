-- ===== src/Loaded.antt =====
-- From the rules of the forms to the rules that the kernel gets: ipfw (sbin/ipfw/ipfw.c) reads the
-- commands that `__insert_rule` (closedbsd/config/rules.c) writes.
pub mod Spec
pub mod Start
pub mod Numeral
pub mod Hosts
pub mod Options
pub mod Finish
pub mod Quiet
pub mod Verdict
pub mod Nat
pub mod Glued
pub mod Forward
pub mod Refused
pub mod Booted
mod Lab
mod Runs
mod Examples
