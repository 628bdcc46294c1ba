-- ===== src/Network.antt =====
-- WiFi, VPN and cleanup: internal/network.
pub mod Ipv4
pub mod Wait
pub mod Nmcli
pub mod Wifi
pub mod Vpn
pub mod Exec
