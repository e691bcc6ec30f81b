-- ===== src/Call/Roundtrip.antt =====
-- A call from the template of the client through both wire formats to the handler of the server, and
-- its reply back.
use mit6_824_2012spring_yfs.Prelude.{
  ℕ, ◌+◌, ◌^◌, ◌<◌, ◌≡◌, refl, sym, ap, false, true, Option, some, length, arith, ◌>>=◌, Memory,
  bind-some, subst, fun_ext,
}
use mit6_824_2012spring_yfs.Marshal.Headers.{ReqHeader, ReplyHeader, rpc_header_sz}
use mit6_824_2012spring_yfs.Marshal.Out.{Marshall, new_marshall, pack_req_header, pack_reply_header}
use mit6_824_2012spring_yfs.Marshal.In.{
  Unmarshall, empty_unmarshall, new_unmarshall, unpack_req_header, unpack_reply_header, take_in,
  okdone,
}
use mit6_824_2012spring_yfs.Marshal.Codec.{Codec, pair_codec}
use mit6_824_2012spring_yfs.Marshal.Wire.{framed, write_request, request_roundtrip, IsReqHeader}
use mit6_824_2012spring_yfs.Marshal.Reply.{received, write_reply_lem, read_reply_lem}
use mit6_824_2012spring_yfs.Call.{is_negative_int}
use mit6_824_2012spring_yfs.Call.Stubs.{Call1, call_1, call_2, call_7, call_m, read_reply}
use mit6_824_2012spring_yfs.Call.Stubs.Pairs.{call_2-pair, call_7-pair}
use mit6_824_2012spring_yfs.Call.Handlers.{Handled, fn_1, fn_2, fn_7, answer}
use mit6_824_2012spring_yfs.Call.Handlers.Pairs.{fn_2-pair, fn_7-pair}

-- What rpcs::dispatch does with a request that its handler `f` is to answer, from the unpacked
-- header on.
pub answer_request :
    {S : Type 0}
    → (Unmarshall → Marshall → Handled S)
    → Memory
    → ReqHeader × Unmarshall
    → Option Marshall
answer_request f junk (h, args) = do
  (b, ret, sob) ← f args (new_marshall junk)
  pack_reply_header (record { xid = h.xid; ret = b }) ret

-- What rpcc::got_pdu gives the caller of a reply.
pub accept_reply : Marshall → ℕ × Unmarshall
accept_reply rep =
    let (rh, u) = unpack_reply_header (new_unmarshall (framed rep) rep.ind) in
    (rh.ret, (take_in empty_unmarshall u).0)

-- A call1 whose request and reply get through: the header goes into the request, the server
-- answers, and the reply comes back.
abbrev pub delivered :
    {S : Type 0} → ReqHeader → (Unmarshall → Marshall → Handled S) → Memory → Call1
delivered h f junk proc req = do
  m ← pack_req_header (record h { proc = proc }) req
  rep ← answer_request f junk (unpack_req_header (new_unmarshall (framed m) m.ind))
  some (accept_reply rep)

fn_1_lem :
    {S A R : Type 0} (d : Codec R) (c : Codec A) (meth : A → S → ℕ × R × S) (sob : S) (a : A)
    (args u : Unmarshall) (ret n : Marshall)
    → c.get args ≡ some (a, u)
    → okdone u ≡ true
    → d.put (meth a sob).1 ret ≡ some n
    → fn_1 d c meth sob args ret ≡ some ((meth a sob).0, n, (meth a sob).2)
unfolding fn_1 answer
fn_1_lem d c meth sob a args u ret n g ok p = rw (g, ok, p) refl

accept_reply_lem :
    (h : ReplyHeader) (m : Marshall)
    → unpack_reply_header (new_unmarshall (framed m) m.ind)
      ≡ (h, record (new_unmarshall (framed m) m.ind) { ind = rpc_header_sz })
    → (take_in empty_unmarshall
        (record (new_unmarshall (framed m) m.ind) { ind = rpc_header_sz })).0
      ≡ received m
    → accept_reply m ≡ (h.ret, received m)
unfolding accept_reply
accept_reply_lem h m e t = rw e (ap (λ (y : Unmarshall). (h.ret, y)) t)

-- The server's part.
answer_request_lem :
    {S A R : Type 0} (d : Codec R) (c : Codec A) (meth : A → S → ℕ × R × S) (sob : S) (a : A)
    (junk : Memory) (h : ReqHeader) (args u : Unmarshall) (n₁ n : Marshall)
    → c.get args ≡ some (a, u)
    → okdone u ≡ true
    → d.put (meth a sob).1 (new_marshall junk) ≡ some n₁
    → pack_reply_header (record { xid = h.xid; ret = (meth a sob).0 }) n₁ ≡ some n
    → answer_request (fn_1 d c meth sob) junk (h, args) ≡ some n
unfolding answer_request
answer_request_lem d c meth sob a junk h args u n₁ n g ok p e =
    rw (fn_1_lem d c meth sob a args u (new_marshall junk) n₁ g ok p) e

read_reply_ok :
    {R : Type 0} (d : Codec R) (call1 : Call1) (proc b : ℕ) (r : R) (x u : Unmarshall)
    → b < 2 ^ 31
    → d.get x ≡ some (r, u)
    → okdone u ≡ true
    → read_reply d call1 proc (b, x) ≡ some (b, some r)
unfolding read_reply
read_reply_ok d call1 proc b r x u h g ok =
    let p : is_negative_int b ≡ false = ground arith in rw (p, g, ok) refl

-- What is asked of a call's arguments, of its header and of the method's int and result: they fit
-- their types, and the messages stay below 2^31 bytes.
abbrev pub Fits :
    {S A R : Type 0} → Codec R → Codec A → (A → S → ℕ × R × S) → S → A → ReqHeader → Type 0
Fits d c meth sob a h =
    c.Valid a
    × IsReqHeader h
    × (rpc_header_sz + length (c.encode a) < 2 ^ 31)
    × d.Valid (meth a sob).1
    × ((meth a sob).0 < 2 ^ 31)
    × (rpc_header_sz + length (d.encode (meth a sob).1) < 2 ^ 31)

-- A call whose request and reply get through returns the int that the method of the server returns
-- for these very arguments, with the method's result in `r`: for every type of arguments and of
-- results with fitting operators << and >>, if the int is not negative and everything fits.
pub call_1-delivered :
    {S A R : Type 0} (d : Codec R) (c : Codec A) (meth : A → S → ℕ × R × S) (sob : S) (a : A)
    (h : ReqHeader) (proc : ℕ) (junk junk' : Memory)
    → Fits d c meth sob a (record h { proc = proc })
    → call_1 d (delivered h (fn_1 d c meth sob) junk') proc c a junk
      ≡ some ((meth a sob).0, some (meth a sob).1)
unfolding call_1 call_m write_request
call_1-delivered d c meth sob a h proc junk junk' (va, hv, sm, vr, bv, sr) =
    let hd : ReqHeader = record h { proc = proc } in
    let r = (meth a sob).1 in
    let (m, e, (eh, (u, g, ok))) = request_roundtrip c a hd junk va hv sm in
    let (m₁, e₁, e₂) = bind-some (c.put a (new_marshall junk)) (pack_req_header hd) m e in
    let rh : ReplyHeader = record { xid = h.xid; ret = (meth a sob).0 } in
    let (n₁, n, p₁, p₂, k) = write_reply_lem d r rh junk' vr in
    let (v, q₁, q₂, q₃, q₄) =
      read_reply_lem d r rh junk' vr (omega (arith, hv), omega (arith, bv)) n k
        (omega (arith, k.size, sr)) in
    let got = unpack_req_header (new_unmarshall (framed m) m.ind) in
    let ans : answer_request (fn_1 d c meth sob) junk' (hd, got.1) ≡ some n =
      answer_request_lem d c meth sob a junk' hd got.1 u n₁ n g ok p₁ p₂ in
    let ans' : answer_request (fn_1 d c meth sob) junk' got ≡ some n =
      subst (λ (x : ReqHeader). answer_request (fn_1 d c meth sob) junk' (x, got.1) ≡ some n)
        (sym eh) ans in
    rw (e₁, e₂, ans', accept_reply_lem rh n q₁ q₂)
      (read_reply_ok d (delivered h (fn_1 d c meth sob) junk') proc (meth a sob).0 r _ v bv q₃ q₄)

-- Two handlers that do the same answer a call with the same reply.
delivered-same :
    {S : Type 0} (h : ReqHeader) (f g : Unmarshall → Marshall → Handled S) (junk : Memory)
    → ((u : Unmarshall) (m : Marshall) → f u m ≡ g u m)
    → delivered h f junk ≡ delivered h g junk
delivered-same h f g junk e =
    ap (λ (x : Unmarshall → Marshall → Handled _). delivered h x junk)
      (fun_ext (λ u. fun_ext (λ m. e u m)))

-- A call with seven arguments whose request and reply get through returns the int that the method
-- of the server returns for these seven arguments, each in its place, with the method's result in
-- `r`, if the int is not negative and the arguments, the header and the result fit.
pub call_7-delivered :
    {S R A₁ A₂ A₃ A₄ A₅ A₆ A₇ : Type 0} (d : Codec R) (c₁ : Codec A₁) (c₂ : Codec A₂)
    (c₃ : Codec A₃) (c₄ : Codec A₄) (c₅ : Codec A₅) (c₆ : Codec A₆) (c₇ : Codec A₇)
    (meth : A₁ → A₂ → A₃ → A₄ → A₅ → A₆ → A₇ → S → ℕ × R × S) (sob : S) (a₁ : A₁) (a₂ : A₂)
    (a₃ : A₃) (a₄ : A₄) (a₅ : A₅) (a₆ : A₆) (a₇ : A₇) (h : ReqHeader) (proc : ℕ)
    (junk junk' : Memory)
    → Fits d
        (pair_codec c₁
          (pair_codec c₂ (pair_codec c₃ (pair_codec c₄ (pair_codec c₅ (pair_codec c₆ c₇))))))
        (λ (p : A₁ × (A₂ × (A₃ × (A₄ × (A₅ × (A₆ × A₇)))))).
          meth p.0 p.1.0 p.1.1.0 p.1.1.1.0 p.1.1.1.1.0 p.1.1.1.1.1.0 p.1.1.1.1.1.1)
        sob
        (a₁, (a₂, (a₃, (a₄, (a₅, (a₆, a₇))))))
        (record h { proc = proc })
    → call_7 d
        (delivered h (fn_7 d c₁ c₂ c₃ c₄ c₅ c₆ c₇ meth sob) junk')
        proc
        c₁
        c₂
        c₃
        c₄
        c₅
        c₆
        c₇
        a₁
        a₂
        a₃
        a₄
        a₅
        a₆
        a₇
        junk
      ≡ some ((meth a₁ a₂ a₃ a₄ a₅ a₆ a₇ sob).0, some (meth a₁ a₂ a₃ a₄ a₅ a₆ a₇ sob).1)
call_7-delivered {A₁} {A₂} {A₃} {A₄} {A₅} {A₆} {A₇} d c₁ c₂ c₃ c₄ c₅ c₆ c₇ meth sob a₁ a₂ a₃ a₄ a₅
      a₆ a₇ h proc junk junk' fits =
    rw
      (
        sym (
            call_7-pair d (delivered h (fn_7 d c₁ c₂ c₃ c₄ c₅ c₆ c₇ meth sob) junk') proc c₁ c₂ c₃
              c₄ c₅ c₆ c₇ a₁ a₂ a₃ a₄ a₅ a₆ a₇ junk),
        sym (delivered-same h _ _ junk' (λ u m. fn_7-pair d c₁ c₂ c₃ c₄ c₅ c₆ c₇ meth sob u m)),
      )
      (call_1-delivered d
        (pair_codec c₁
          (pair_codec c₂ (pair_codec c₃ (pair_codec c₄ (pair_codec c₅ (pair_codec c₆ c₇))))))
        (λ (p : A₁ × (A₂ × (A₃ × (A₄ × (A₅ × (A₆ × A₇)))))).
          meth p.0 p.1.0 p.1.1.0 p.1.1.1.0 p.1.1.1.1.0 p.1.1.1.1.1.0 p.1.1.1.1.1.1)
        sob (a₁, (a₂, (a₃, (a₄, (a₅, (a₆, a₇)))))) h proc junk junk' fits)

-- The same for two arguments.
pub call_2-delivered :
    {S R A₁ A₂ : Type 0} (d : Codec R) (c₁ : Codec A₁) (c₂ : Codec A₂)
    (meth : A₁ → A₂ → S → ℕ × R × S) (sob : S) (a₁ : A₁) (a₂ : A₂) (h : ReqHeader) (proc : ℕ)
    (junk junk' : Memory)
    → Fits d
        (pair_codec c₁ c₂)
        (λ (p : A₁ × A₂). meth p.0 p.1)
        sob
        (a₁, a₂)
        (record h { proc = proc })
    → call_2 d (delivered h (fn_2 d c₁ c₂ meth sob) junk') proc c₁ c₂ a₁ a₂ junk
      ≡ some ((meth a₁ a₂ sob).0, some (meth a₁ a₂ sob).1)
call_2-delivered {S} {R} {A₁} {A₂} d c₁ c₂ meth sob a₁ a₂ h proc junk junk' fits =
    rw
      (
        sym (call_2-pair d (delivered h (fn_2 d c₁ c₂ meth sob) junk') proc c₁ c₂ a₁ a₂ junk),
        sym (delivered-same h _ _ junk' (λ u m. fn_2-pair d c₁ c₂ meth sob u m)),
      )
      (call_1-delivered d (pair_codec c₁ c₂) (λ (p : A₁ × A₂). meth p.0 p.1) sob (a₁, a₂) h proc
        junk junk' fits)
