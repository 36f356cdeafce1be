-- ===== src/Acl.antt =====
-- crates/shadowsocks-service/src/acl: access control lists.
pub mod SubDomainsTree
pub mod Engines
pub mod Rules
pub mod AccessControl
pub mod Parsing
