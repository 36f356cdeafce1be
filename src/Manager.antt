-- ===== src/Manager.antt =====
-- crates/shadowsocks/src/manager/protocol.rs: the text protocol between servers and their manager.
pub mod Protocol
pub mod AddRequest
pub mod AddResponse
pub mod RemoveRequest
pub mod RemoveResponse
pub mod ListRequest
pub mod ListResponse
pub mod PingRequest
pub mod PingResponse
pub mod StatRequest
pub mod ManagerRequest
