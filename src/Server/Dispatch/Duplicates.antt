-- ===== src/Server/Dispatch/Duplicates.antt =====
-- What `dispatch` does with a request that it gets again.
use mit6_824_2012spring_yfs.Prelude.{
  ℕ, ◌≡◌, ◌≢◌, ◌≤◌, ◌∙◌, refl, sym, ap, true, false, ◌&&◌, ◌||◌, not, some, [], ◌∷◌, ◌++◌, ◌==◌,
  assert, find, Memory, bind-some, arith, subst,
}
use mit6_824_2012spring_yfs.Marshal.Headers.{ReqHeader}
use mit6_824_2012spring_yfs.Marshal.Out.{Marshall, new_marshall, pack_reply_header}
use mit6_824_2012spring_yfs.Marshal.In.{Unmarshall, new_unmarshall, unpack_req_header}
use mit6_824_2012spring_yfs.Call.{code, is_negative_int, unmarshal_args_failure}
use mit6_824_2012spring_yfs.Call.Handlers.{Handled}
use mit6_824_2012spring_yfs.Server.Window.{new, Verdict, checkduplicate_and_update}
use mit6_824_2012spring_yfs.Server.Dispatch.{
  Rpcs, Env, Sent, incref, decref, send, save_conn, latest_conn, keep_reply, with_stat, updatestat,
  run_new, by_state, serve, dispatch,
}
use mit6_824_2012spring_yfs.Server.Window.{Reply, replies, add_reply}
use mit6_824_2012spring_yfs.Server.Window.Spec.{lookup_reply}
use mit6_824_2012spring_yfs.Server.Window.AtMostOnce.{Ordered, request, reply, step, step-Ordered}
use mit6_824_2012spring_yfs.Server.Window.Retained.{answer, verdict_known}
use mit6_824_2012spring_yfs.Server.Window.Recorded.{new_recorded}

module _ {S : Type 0} where
  decref_is : (c : ℕ) (s t : Rpcs S) → decref c s ≡ some t → t ≡ record s { refs = t.refs }
  unfolding decref
  decref_is c s t e = ground (arith, e)

  latest_conn_is :
      (env : Env) (clt c l : ℕ) (s t : Rpcs S)
      → latest_conn env clt c s ≡ some (l, t)
      → t ≡ record s { refs = t.refs }
  unfolding latest_conn decref incref
  latest_conn_is env clt c l s t e = ground (arith, e)

  save_conn_is :
      (env : Env) (clt c : ℕ) (s t : Rpcs S)
      → save_conn env clt c s ≡ some t
      → t ≡ record s { refs = t.refs; conns = t.conns }
  unfolding save_conn decref incref
  save_conn_is env clt c s t e = ground (arith, e)

  -- What is left when a handler has run for a client that wants at-most-once.
  record Answered (clt xid : ℕ) (s t : Rpcs S) : Type 0 where
    conn : ℕ
    buf : Memory
    sz : ℕ
    sent : t.sent ≡ s.sent ++ (record { conn = conn; buf = buf; sz = sz } ∷ [])
    kept : t.heap s.fresh ≡ buf
    window : t.window ≡ add_reply clt xid s.fresh sz s.window
    procs : t.procs ≡ s.procs
    nonce : t.nonce ≡ s.nonce

  run_new-Answered :
      (env : Env) (h : ReqHeader) (f : S → Unmarshall → Marshall → Handled S) (c : ℕ)
      (req : Unmarshall) (s t : Rpcs S)
      → h.clt_nonce ≢ 0
      → run_new env h f c req s ≡ some t
      → Answered h.clt_nonce h.xid s t
  unfolding run_new updatestat keep_reply send
  run_new-Answered env h f c req s t n e =
      let ((ret, m, obj), e₁, k₁) = bind-some (f s.object req (new_marshall env.junk)) _ t e in
      let (_, e₂, k₂) =
        bind-some (assert (not (is_negative_int ret) || (ret == code unmarshal_args_failure))) _ t
          k₁ in
      let (rep, e₃, k₃) =
        bind-some (pack_reply_header (record { xid = h.xid; ret = ret }) m) _ t k₂ in
      let u : Rpcs S = record (with_stat h.proc s) { object = obj } in
      let v = keep_reply h.clt_nonce h.xid rep u in
      let ((l, w), e₄, k₄) = bind-some (latest_conn env h.clt_nonce c v) _ t k₃ in
      let p = latest_conn_is env h.clt_nonce c l v w e₄ in
      let q = decref_is l (send l rep.buf rep.ind w) t k₄ in
      record {
        conn = l;
        buf = rep.buf;
        sz = rep.ind;
        sent = ground (arith, ap (λ (z : Rpcs S). z.sent) p, ap (λ (z : Rpcs S). z.sent) q);
        kept =
            ground
              (arith, ap (λ (z : Rpcs S). z.heap s.fresh) p, ap (λ (z : Rpcs S). z.heap s.fresh) q);
        window =
            ground (arith, n, ap (λ (z : Rpcs S). z.window) p, ap (λ (z : Rpcs S). z.window) q);
        procs = ground (arith, ap (λ (z : Rpcs S). z.procs) p, ap (λ (z : Rpcs S). z.procs) q);
        nonce = ground (arith, ap (λ (z : Rpcs S). z.nonce) p, ap (λ (z : Rpcs S). z.nonce) q);
      }

  -- The window and the heap hold the reply `x` to a request.
  record Holds (clt xid : ℕ) (x : Sent) (t : Rpcs S) : Type 0 where
    b : ℕ
    ordered : Ordered t.window
    found :
        lookup_reply xid (replies clt t.window)
        ≡ some (record { xid = xid; buf = b; sz = x.sz; cb_present = true })
    content : t.heap b ≡ x.buf

  record ServedOnce (clt xid : ℕ) (s t : Rpcs S) : Type 0 where
    x : Sent
    sent : t.sent ≡ s.sent ++ (x ∷ [])
    holds : Holds clt xid x t
    procs : t.procs ≡ s.procs
    nonce : t.nonce ≡ s.nonce

  handled-ServedOnce :
      (h : ReqHeader) (s t u : Rpcs S)
      → Ordered u.window
      → (checkduplicate_and_update h.clt_nonce h.xid h.xid_rep u.window).0.stat ≡ new
      → u ≡ record s { refs = u.refs; conns = u.conns }
      → Answered h.clt_nonce h.xid
          (record u { window = (checkduplicate_and_update h.clt_nonce h.xid h.xid_rep u.window).1 })
          t
      → ServedOnce h.clt_nonce h.xid s t
  unfolding step
  handled-ServedOnce h s t u o v p a =
      let clt = h.clt_nonce in
      let w = (checkduplicate_and_update clt h.xid h.xid_rep u.window).1 in
      let o₁ : Ordered w = step-Ordered (request clt h.xid h.xid_rep) u.window o in
      let o₂ : Ordered (add_reply clt h.xid u.fresh a.sz w) =
        step-Ordered (reply clt h.xid u.fresh a.sz) w o₁ in
      record {
        x = record { conn = a.conn; buf = a.buf; sz = a.sz };
        sent =
            a.sent
            ∙ ap (λ (z : Rpcs S). z.sent ++ (record { conn = a.conn; buf = a.buf; sz = a.sz } ∷ []))
                p;
        holds = record {
          b = u.fresh;
          ordered = subst Ordered (sym a.window) o₂;
          found =
              ap (λ z. lookup_reply h.xid (replies clt z)) a.window
              ∙ new_recorded clt h.xid h.xid_rep u.fresh a.sz u.window o v;
          content = a.kept;
        };
        procs = a.procs ∙ ap (λ (z : Rpcs S). z.procs) p;
        nonce = a.nonce ∙ ap (λ (z : Rpcs S). z.nonce) p;
      }

  by_state_new :
      (env : Env) (h : ReqHeader) (f : S → Unmarshall → Marshall → Handled S) (c : ℕ)
      (req : Unmarshall) (v : Verdict) (s : Rpcs S)
      → v.stat ≡ new
      → by_state env h f c req v s ≡ run_new env h f c req s
  unfolding by_state
  by_state_new env h f c req v s e = rw e refl

  serve_new :
      (env : Env) (h : ReqHeader) (f : S → Unmarshall → Marshall → Handled S) (c : ℕ)
      (req : Unmarshall) (s t : Rpcs S)
      → h.clt_nonce ≢ 0
      → Ordered s.window
      → (checkduplicate_and_update h.clt_nonce h.xid h.xid_rep s.window).0.stat ≡ new
      → serve env h f c req s ≡ some t
      → ServedOnce h.clt_nonce h.xid s t
  unfolding serve
  serve_new env h f c req s t n o v e =
      let z : (h.clt_nonce == 0) ≡ false = ground (arith, n) in
      let (u, e₁, k₁) = bind-some (save_conn env h.clt_nonce c s) _ t (rw z at e) in
      let p = save_conn_is env h.clt_nonce c s u e₁ in
      let pw : u.window ≡ s.window = ap (λ (y : Rpcs S). y.window) p in
      let v' : (checkduplicate_and_update h.clt_nonce h.xid h.xid_rep u.window).0.stat ≡ new =
        subst (λ y. (checkduplicate_and_update h.clt_nonce h.xid h.xid_rep y).0.stat ≡ new) (sym pw)
          v in
      let w = (checkduplicate_and_update h.clt_nonce h.xid h.xid_rep u.window).1 in
      handled-ServedOnce h s t u (subst Ordered (sym pw) o) v' p (
        run_new-Answered env h f c req (record u { window = w }) t n
          (sym (
              by_state_new env h f c req
                (checkduplicate_and_update h.clt_nonce h.xid h.xid_rep u.window).0
                (record u { window = w }) v')
            ∙ k₁))

  serve_done :
      (env : Env) (h : ReqHeader) (f : S → Unmarshall → Marshall → Handled S) (c : ℕ)
      (req : Unmarshall) (x : Sent) (s t : Rpcs S)
      → h.clt_nonce ≢ 0
      → h.xid_rep ≤ h.xid
      → Holds h.clt_nonce h.xid x s
      → serve env h f c req s ≡ some t
      → (t.object ≡ s.object) × (t.sent ≡ s.sent ++ (record x { conn = c } ∷ []))
  unfolding serve by_state answer send
  serve_done env h f c req x s t n le d e =
      let z : (h.clt_nonce == 0) ≡ false = ground (arith, n) in
      let (u, e₁, k₁) = bind-some (save_conn env h.clt_nonce c s) _ t (rw z at e) in
      let p = save_conn_is env h.clt_nonce c s u e₁ in
      let pw : u.window ≡ s.window = ap (λ (y : Rpcs S). y.window) p in
      let r : Reply = record { xid = h.xid; buf = d.b; sz = x.sz; cb_present = true } in
      let v : (checkduplicate_and_update h.clt_nonce h.xid h.xid_rep u.window).0 ≡ answer r =
        subst (λ y. (checkduplicate_and_update h.clt_nonce h.xid h.xid_rep y).0 ≡ answer r) (sym pw)
          (verdict_known h.clt_nonce h.xid h.xid_rep s.window r (d.ordered h.clt_nonce) le
            d.found) in
      let w = (checkduplicate_and_update h.clt_nonce h.xid h.xid_rep u.window).1 in
      let q = decref_is c (send c (u.heap d.b) x.sz (record u { window = w })) t (rw v at k₁) in
      let ob : t.object ≡ u.object = ap (λ (y : Rpcs S). y.object) q in
      let se : t.sent ≡ u.sent ++ (record { conn = c; buf = u.heap d.b; sz = x.sz } ∷ []) =
        ap (λ (y : Rpcs S). y.sent) q in
      (
        ob ∙ ap (λ (y : Rpcs S). y.object) p,
        se
            ∙ ap (λ (y : Rpcs S). y.sent ++ (record { conn = c; buf = y.heap d.b; sz = x.sz } ∷ []))
                p
            ∙ ap (λ (y : Memory). s.sent ++ (record { conn = c; buf = y; sz = x.sz } ∷ []))
                d.content,
      )

  -- A well-formed request for this instance of the server and a registered procedure.
  pub record IsServed (b : Memory) (n : ℕ) (f : S → Unmarshall → Marshall → Handled S) (s : Rpcs S)
      : Type 1 where
    pub well_formed : (unpack_req_header (new_unmarshall b n)).1.is_ok ≡ true
    pub current :
        (not ((unpack_req_header (new_unmarshall b n)).0.srv_nonce == 0)
          && not ((unpack_req_header (new_unmarshall b n)).0.srv_nonce == s.nonce))
        ≡ false
    pub known : find (unpack_req_header (new_unmarshall b n)).0.proc s.procs ≡ some f

  dispatch-serve :
      (env : Env) (c : ℕ) (b : Memory) (n : ℕ) (f : S → Unmarshall → Marshall → Handled S)
      (s : Rpcs S)
      → IsServed b n f s
      → dispatch env c b n s
        ≡ serve env
            (unpack_req_header (new_unmarshall b n)).0
            f
            c
            (unpack_req_header (new_unmarshall b n)).1
            s
  unfolding dispatch
  dispatch-serve env c b n f s k = rw (k.well_formed, k.current, k.known) refl

  -- A request of a client that wants at-most-once, which is new, and then the same message again, on
  -- whatever connection: the first `dispatch` sends one reply, and the second sends the same bytes on
  -- its own connection and leaves the object of the handlers as it is, so that the handler runs once.
  -- The conditions are that the request is for a registered procedure of this instance of the server,
  -- that it acknowledges no reply beyond its own xid, that the window is in order, and that both
  -- calls of `dispatch` return; which connections are dead may differ between them.
  pub dispatch_twice :
      (env env' : Env) (c c' : ℕ) (b : Memory) (n : ℕ) (f : S → Unmarshall → Marshall → Handled S)
      (s t u : Rpcs S)
      → (let h = (unpack_req_header (new_unmarshall b n)).0 in
          IsServed b n f s
          × (h.clt_nonce ≢ 0)
          × (h.xid_rep ≤ h.xid)
          × Ordered s.window
          × ((checkduplicate_and_update h.clt_nonce h.xid h.xid_rep s.window).0.stat ≡ new))
      → dispatch env c b n s ≡ some t
      → dispatch env' c' b n t ≡ some u
      → (u.object ≡ t.object)
        × ((x : Sent) × (t.sent ≡ s.sent ++ (x ∷ []))
            × (u.sent ≡ t.sent ++ (record x { conn = c' } ∷ [])))
  dispatch_twice env env' c c' b n f s t u (k, nz, le, o, v) e e' =
      let h = (unpack_req_header (new_unmarshall b n)).0 in
      let req = (unpack_req_header (new_unmarshall b n)).1 in
      let one = serve_new env h f c req s t nz o v (sym (dispatch-serve env c b n f s k) ∙ e) in
      let k' : IsServed b n f t = record {
        well_formed = k.well_formed;
        current = rw one.nonce k.current;
        known = rw one.procs k.known;
      } in
      let (x, y) =
        serve_done env' h f c' req one.x t u nz le one.holds
          (sym (dispatch-serve env' c' b n f t k') ∙ e') in
      (x, (one.x, one.sent, y))
