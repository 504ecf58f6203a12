-- ===== src/Adaptors.antt =====
-- adaptors: the plugins whose logic is more than calls of a service.
pub mod CfPlugin
pub mod Hana
pub mod Route53
