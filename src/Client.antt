-- ===== src/Client.antt =====
-- The client of the RPC library, class rpcc (rpc/rpc.h, rpc/rpc.cc).
pub mod XidWindow
pub mod Calls
pub mod Deadlines
pub mod Channel
