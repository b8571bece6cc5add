-- ===== src/Ipfw.antt =====
-- The command /sbin/ipfw (sbin/ipfw/ipfw.c), which reads the commands of the rules: its own ways
-- to end, the libraries that it calls, and the rule that it hands to the kernel.
pub mod Exits
pub mod Libc
pub mod Numbers
pub mod Rule
pub mod Fields
pub mod Address
pub mod Ports
pub mod Flags
pub mod Iface
pub mod Action
pub mod Head
pub mod Options
pub mod Add
pub mod Dispatch
pub mod Ends
pub mod Sane
