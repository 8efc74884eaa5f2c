-- ===== src/Rpc.antt =====
-- mylib/rpc: the framing of messages on a connection, their making, and the posts they cause.
pub mod Message
pub mod Acceptor
pub mod ConnMonitor
pub mod Connecter
pub mod Dispatch
pub mod Protocol
pub mod Server
