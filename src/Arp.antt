-- ===== src/Arp.antt =====
-- src/arp/arp.c: the fields of an ARP packet for Ethernet and IPv4 (RFC 826), where they lie, and
-- the three packets that the code builds.
pub mod Packet
pub mod Build
pub mod Reads
pub mod Reply
mod Tests
