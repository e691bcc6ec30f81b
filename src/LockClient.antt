-- ===== src/LockClient.antt =====
-- Class lock_client (lock_client.h, lock_client.cc): each method is one call of the lock protocol
-- (lock_protocol.h). `id` is the nonce of the client, `call1` what the templates of rpcc call. `none`
-- is a failed assertion or a fault in marshalling.
mod Delivered
mod Examples
use mit6_824_2012spring_yfs.Prelude.{
  ℕ, ◌≡◌, Bool, true, false, Option, none, some, ◌==◌, if◌then◌else◌, ◌>>=◌, Memory,
}
use mit6_824_2012spring_yfs.Marshal.Codec.{Codec, uint_codec, int_codec, ulonglong_codec}
use mit6_824_2012spring_yfs.Call.Stubs.{Call1, call_2}
use mit6_824_2012spring_yfs.LockServer.{Status, ok, retry, rpcerr, noent, ioerr}

-- lock_protocol::rpc_numbers
pub data RpcNumber : Type 0 where
  acquire_rpc release_rpc subscribe_rpc stat_rpc : RpcNumber

abbrev pub number : RpcNumber → ℕ
number acquire_rpc = 28673
number release_rpc = 28674
number subscribe_rpc = 28675
number stat_rpc = 28676

-- The ints of lock_protocol::xxstatus.
abbrev pub status_int : Status → ℕ
status_int ok = 0
status_int retry = 1
status_int rpcerr = 2
status_int noent = 3
status_int ioerr = 4

-- What follows a call: the assertion, and `r`, which is `none` if the call has not set it.
abbrev pub assert_ok : ℕ × Option ℕ → Option (Option ℕ)
assert_ok (ret, r) = if ret == status_int ok then some r else none

module _ (call1 : Call1) (id : ℕ) where
  abbrev pub call_lock : RpcNumber → ℕ → Memory → Option (Option ℕ)
  call_lock n lid junk =
      call_2 int_codec call1 (number n) uint_codec ulonglong_codec id lid junk >>= assert_ok

  pub stat : (lid : ℕ) → Memory → Option (Option ℕ)
  stat lid junk = call_lock stat_rpc lid junk

  pub acquire : (lid : ℕ) → Memory → Option (Option ℕ)
  acquire lid junk = call_lock acquire_rpc lid junk

  pub release : (lid : ℕ) → Memory → Option (Option ℕ)
  release lid junk = call_lock release_rpc lid junk
