-- ===== src/Marshal.antt =====
-- Marshalling: rpc/marshall.h, and the members of marshall and unmarshall in rpc/rpc.cc
-- (lines 714-949).
pub mod Headers
pub mod Out
pub mod In
pub mod Codec
pub mod Wire
pub mod Reply
mod Testing
mod Examples
