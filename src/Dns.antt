-- ===== src/Dns.antt =====
-- netb/DnsMessage.hpp, netb/DnsMessage.cpp, netb/DnsRecord.hpp and netb/DnsRecord.cpp.
pub mod Flags
pub mod Name
pub mod Header
pub mod Question
pub mod Record
pub mod Message
