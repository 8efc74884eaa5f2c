-- ===== src/Utility.antt =====
-- mylib/utility: the signal handler, the pool of io services, and compression.
pub mod IoServicePool
pub mod SignalHandler
pub mod SignalService
pub mod Zlib
pub mod ZlibUtil
