-- ===== src/LockClient/Delivered.antt =====
-- What the methods of lock_client return when their calls get through to the lock server.
use mit6_824_2012spring_yfs.Prelude.{
  ℕ, ◌^◌, ◌<◌, ◌≡◌, refl, ap, ◌∙◌, some, ◌>>=◌, Memory, arith, u32,
}
use mit6_824_2012spring_yfs.Marshal.Headers.{ReqHeader}
use mit6_824_2012spring_yfs.Marshal.Out.{put_int}
use mit6_824_2012spring_yfs.Marshal.Codec.{uint_codec, int_codec, ulonglong_codec}
use mit6_824_2012spring_yfs.Marshal.Wire.{IsReqHeader}
use mit6_824_2012spring_yfs.Call.Stubs.{Call1, call_2}
use mit6_824_2012spring_yfs.Call.Handlers.{fn_2}
use mit6_824_2012spring_yfs.Call.Roundtrip.{delivered, call_2-delivered}
use mit6_824_2012spring_yfs.LockServer.{ok}
use mit6_824_2012spring_yfs.LockClient.{RpcNumber, number, assert_ok, call_lock, status_int}

-- An unsigned int goes on the wire as an int does.
call_2-int :
    (call1 : Call1) (proc id lid : ℕ) (junk : Memory)
    → id < 2 ^ 32
    → call_2 int_codec call1 proc uint_codec ulonglong_codec id lid junk
      ≡ call_2 int_codec call1 proc int_codec ulonglong_codec id lid junk
unfolding call_2 put_int
call_2-int call1 proc id lid junk h = let e : u32 id ≡ id = omega arith in rw e refl

-- A call of any of the three methods whose request and reply get through: if the method of the lock
-- server returns OK, then the assertion holds and the client returns what the server has put into
-- `r`, the number of acquisitions, also where its declaration says status. The conditions are that
-- the numbers fit their types and that the header does.
pub lock_client_returns :
    {S : Type 0} (n : RpcNumber) (meth : ℕ → ℕ → S → ℕ × ℕ × S) (s : S) (id lid : ℕ) (h : ReqHeader)
    (junk junk' : Memory)
    → id < 2 ^ 32
    → lid < 2 ^ 64
    → IsReqHeader (record h { proc = number n })
    → (meth id lid s).0 ≡ status_int ok
    → (meth id lid s).1 < 2 ^ 32
    → call_lock (delivered h (fn_2 int_codec int_codec ulonglong_codec meth s) junk') id n lid junk
      ≡ some (some (meth id lid s).1)
lock_client_returns n meth s id lid h junk junk' a b v e f =
    let call1 = delivered h (fn_2 int_codec int_codec ulonglong_codec meth s) junk' in
    let p = call_2-int call1 (number n) id lid junk a in
    let q =
      call_2-delivered int_codec int_codec ulonglong_codec meth s id lid h (number n) junk junk'
        ((a, b), v, omega arith, f, omega (arith, e), omega arith) in
    ap (λ o. o >>= assert_ok) (p ∙ q) ∙ simp e refl
