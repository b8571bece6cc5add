-- ===== src/Devices.antt =====
-- The device database /etc/devices.db (closedbsd/config/db.c and the DHCP branch of dev_config in
-- closedbsd/config/devices.c).
pub mod Device
pub mod Search
pub mod Update
pub mod Table
pub mod Lookup
pub mod Dhcp
pub mod Listed
pub mod Reliable
mod Examples
