-- ===== src/Poll.antt =====
-- The poll manager: rpc/pollmgr.h and rpc/pollmgr.cc.
pub mod Flags
pub mod Select
pub mod Epoll
pub mod Manager
mod Examples
