-- ===== src/Rules.antt =====
-- The packet filter's rules (closedbsd/config/rules.c): the command that a rule stands for, the
-- script /etc/rules that keeps one command to a line, and the menu that deletes a line.
pub mod Ruleset
pub mod Command
pub mod Script
pub mod Menu
pub mod Raw
pub mod RuleDb
mod Examples
mod RuleDbExamples
