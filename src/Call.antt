-- ===== src/Call.antt =====
-- The templates of rpc/rpc.h that make a call and that register a method as a handler, for one to
-- seven arguments, and the constants of class rpc_const.
--
-- An int that the templates return is its 32-bit pattern, so it is negative from 2^31 on.
pub mod Stubs
pub mod Handlers
pub mod Roundtrip
mod Examples
use mit6_824_2012spring_yfs.Prelude.{ℕ, ◌-◌, ◌^◌, Bool, leb}

-- rpc_const
pub data RpcConst : Type 0 where
  timeout_failure unmarshal_args_failure unmarshal_reply_failure atmostonce_failure : RpcConst
  oldsrv_failure bind_failure cancel_failure : RpcConst

-- -1 to -7
abbrev pub code : RpcConst → ℕ
code timeout_failure = 2 ^ 32 - 1
code unmarshal_args_failure = 2 ^ 32 - 2
code unmarshal_reply_failure = 2 ^ 32 - 3
code atmostonce_failure = 2 ^ 32 - 4
code oldsrv_failure = 2 ^ 32 - 5
code bind_failure = 2 ^ 32 - 6
code cancel_failure = 2 ^ 32 - 7

abbrev pub is_negative_int : ℕ → Bool
is_negative_int n = leb (2 ^ 31) n
