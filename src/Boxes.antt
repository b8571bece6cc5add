-- ===== src/Boxes.antt =====
-- The boxes of the forms (closedbsd/config/misc.c): the lines that each draw function prints from
-- the top of its box down, by the row that is lit and the value of the rule.
pub mod Row
pub mod Udp
pub mod Icmp
pub mod Ip
pub mod Tcp
pub mod Iface
pub mod ActionBox
pub mod ProtocolBox
pub mod ForwardBox
pub mod Draw
pub mod Marks
pub mod Options
pub mod Screen
mod Examples
