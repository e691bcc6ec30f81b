-- ===== src/LockClient/Examples.antt =====
-- A call of lock_client::stat that gets through to a new lock server.
use mit6_824_2012spring_yfs.Prelude.{ℕ, ◌≡◌, refl, some, Memory, arith}
use mit6_824_2012spring_yfs.Marshal.Headers.{ReqHeader}
use mit6_824_2012spring_yfs.Marshal.Codec.{int_codec, ulonglong_codec}
use mit6_824_2012spring_yfs.Call.Handlers.{fn_2}
use mit6_824_2012spring_yfs.Call.Roundtrip.{delivered}
use mit6_824_2012spring_yfs.LockServer.{LockServer, new_lock_server}
use mit6_824_2012spring_yfs.LockClient.{call_lock, stat_rpc}
use mit6_824_2012spring_yfs.LockClient.Delivered.{lock_client_returns}

-- lock_server::stat, which returns OK with `r` set.
abbrev stat_method : ℕ → ℕ → LockServer → ℕ × ℕ × LockServer
stat_method clt lid s = (0, s.nacquire, s)

abbrev header : ReqHeader
header = record { xid = 2; proc = 0; clt_nonce = 7; srv_nonce = 99; xid_rep = 1 }

abbrev junk : Memory
junk i = 99

lock_client_returns_example :
    call_lock
      (delivered header (fn_2 int_codec int_codec ulonglong_codec stat_method new_lock_server) junk)
      7
      stat_rpc
      3
      junk
    ≡ some (some 0)
lock_client_returns_example =
    lock_client_returns stat_rpc stat_method new_lock_server 7 3 header junk junk (omega arith)
      (omega arith) (omega arith) refl (omega arith)
