-- ===== src/Scanners.antt =====
-- backend/src/scanners: discovering devices, and the pipeline that every sighting goes through.
pub mod Ipv4
pub mod Enrichment
pub mod Pipeline
pub mod Dhcp
pub mod Snmp
pub mod Ssdp
pub mod Mdns
pub mod ActiveStatus
pub mod PassiveStatus
pub mod Listening
pub mod Sockets
pub mod Polling
pub mod Arp
