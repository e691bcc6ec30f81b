-- ===== src/Server.antt =====
-- The server side of the RPC library: class rpcs of rpc/rpc.h and rpc/rpc.cc.
pub mod Window
pub mod Dispatch
pub mod Jobs
