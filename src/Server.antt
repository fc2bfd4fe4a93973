-- ===== src/Server.antt =====
-- internal/server: the connections of a server, and what its handlers do to them and to the store.
pub mod Session
pub mod Follows
pub mod Order
pub mod Cases
pub mod Sound
pub mod JoinSound
pub mod Run
pub mod Kaomoji
pub mod Isolation
pub mod State
pub mod Backend
pub mod Join
pub mod Handle
pub mod Clear
mod Examples
