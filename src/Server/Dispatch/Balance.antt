-- ===== src/Server/Dispatch/Balance.antt =====
-- The reference counts of the connections across `dispatch`.
use mit6_824_2012spring_yfs.Prelude.{
  ℕ, ◌+◌, ◌≡◌, ◌<◌, ◌≤◌, ◌∙◌, refl, sym, ap, Bool, ◌&&◌, ◌||◌, not, none, some, [], ◌∷◌, ◌==◌,
  if◌then◌else◌, assert, Map, find, insert, Memory, bind-some, arith, Option-cases, Bool-cases, inl,
  inr, dec_lt,
}
use mit6_824_2012spring_yfs.Marshal.Headers.{ReqHeader}
use mit6_824_2012spring_yfs.Marshal.Out.{Marshall, new_marshall, pack_reply_header}
use mit6_824_2012spring_yfs.Marshal.In.{Unmarshall, new_unmarshall, unpack_req_header}
use mit6_824_2012spring_yfs.Call.{
  code, is_negative_int, unmarshal_args_failure, atmostonce_failure, oldsrv_failure,
}
use mit6_824_2012spring_yfs.Call.Handlers.{Handled}
use mit6_824_2012spring_yfs.Server.Window.{
  RpcState, new, inprogress, done, forgotten, Verdict, checkduplicate_and_update,
}
use mit6_824_2012spring_yfs.Server.Dispatch.{
  Rpcs, Env, incref, decref, send, save_conn, latest_conn, keep_reply, with_stat, updatestat,
  run_new, send_failure, by_state, serve, dispatch,
}

-- The number of clients whose latest connection is `i`.
abbrev pub held : ℕ → Map ℕ → ℕ
held i [] = 0
held i ((k, c) ∷ m) = (if i == c then 1 else 0) + held i m

-- The keys stand in increasing order, from `lo` on.
abbrev pub KeysFrom : ℕ → Map ℕ → Type 0
KeysFrom lo [] = Unit {0}
KeysFrom lo ((k, c) ∷ m) = (lo ≤ k) × KeysFrom (k + 1) m

held-insert_new :
    (i k c : ℕ) (m : Map ℕ)
    → find k m ≡ none
    → held i (insert k c m) ≡ (if i == c then 1 else 0) + held i m
unfolding find insert
held-insert_new i k c [] h = refl
held-insert_new i k c ((j, d) ∷ m) h = ground (arith, h, held-insert_new i k c m)

find_below : (k lo : ℕ) (m : Map ℕ) → KeysFrom lo m → k < lo → find k m ≡ none
unfolding find
find_below k lo [] h b = refl
find_below k lo ((j, d) ∷ m) (a, h) b =
    ground (arith, a, b, find_below k (j + 1) m h (omega (arith, a, b)))

held-insert_old :
    (i k c old lo : ℕ) (m : Map ℕ)
    → KeysFrom lo m
    → find k m ≡ some old
    → held i (insert k c m) + (if i == old then 1 else 0) ≡ (if i == c then 1 else 0) + held i m
unfolding find insert
held-insert_old i k c old lo [] h e = cc
held-insert_old i k c old lo ((j, d) ∷ m) (a, h) e = elim (dec_lt k j) [
  | yes p ↦ absurd (ground (arith, e, p, find_below k (j + 1) m h (omega (arith, p))))
  | no p ↦ elim (Bool-cases (j == k)) [
    | inl y ↦ ground (arith, e, p, y)
    | inr n ↦
        let f : find k m ≡ some old = ground (arith, e, n) in
        ground (arith, p, n, held-insert_old i k c old (j + 1) m h f)
  ]
]

module _ {S : Type 0} where
  pub decref_lem :
      (c : ℕ) (s t : Rpcs S) (i : ℕ)
      → decref c s ≡ some t
      → (t.refs i + (if i == c then 1 else 0) ≡ s.refs i) × (t.conns ≡ s.conns)
  unfolding decref
  decref_lem c s t i e = ground (arith, e)

  latest_conn_lem :
      (env : Env) (clt c l : ℕ) (s t : Rpcs S) (i : ℕ)
      → latest_conn env clt c s ≡ some (l, t)
      → (t.refs i + (if i == c then 1 else 0) ≡ s.refs i + (if i == l then 1 else 0))
        × (t.conns ≡ s.conns)
  unfolding latest_conn decref incref
  latest_conn_lem env clt c l s t i e = ground (arith, e)

  -- What a branch owes that leaves the latest connections alone: the reference of the job.
  abbrev pub Settled : ℕ → ℕ → Rpcs S → Rpcs S → Type 0
  Settled c i s t = (t.refs i + (if i == c then 1 else 0) ≡ s.refs i) × (t.conns ≡ s.conns)

  -- What `dispatch` owes: the reference of the job, and one for each latest connection.
  abbrev Balanced : ℕ → ℕ → Rpcs S → Rpcs S → Type 0
  Balanced c i s t =
      t.refs i + (if i == c then 1 else 0) + held i s.conns ≡ s.refs i + held i t.conns

  with_stat_lem :
      (proc : ℕ) (s : Rpcs S) (i : ℕ)
      → ((with_stat proc s).refs i ≡ s.refs i) × ((with_stat proc s).conns ≡ s.conns)
  unfolding updatestat
  with_stat_lem proc s i = ground arith

  keep_reply_lem :
      (clt xid : ℕ) (rep : Marshall) (s : Rpcs S) (i : ℕ)
      → ((keep_reply clt xid rep s).refs i ≡ s.refs i)
        × ((keep_reply clt xid rep s).conns ≡ s.conns)
  unfolding keep_reply
  keep_reply_lem clt xid rep s i = (refl, refl)

  send_lem :
      (c : ℕ) (b : Memory) (n : ℕ) (s : Rpcs S) (i : ℕ)
      → ((send c b n s).refs i ≡ s.refs i) × ((send c b n s).conns ≡ s.conns)
  unfolding send
  send_lem c b n s i = (refl, refl)

  pub run_new_balance :
      (env : Env) (h : ReqHeader) (f : S → Unmarshall → Marshall → Handled S) (c : ℕ)
      (req : Unmarshall) (s t : Rpcs S) (i : ℕ)
      → run_new env h f c req s ≡ some t
      → Settled c i s t
  unfolding run_new
  run_new_balance env h f c req s t i e =
      let ((ret, m, obj), e₁, k₁) = bind-some (f s.object req (new_marshall env.junk)) _ t e in
      let (_, e₂, k₂) =
        bind-some (assert (not (is_negative_int ret) || (ret == code unmarshal_args_failure))) _ t
          k₁ in
      let (rep, e₃, k₃) =
        bind-some (pack_reply_header (record { xid = h.xid; ret = ret }) m) _ t k₂ in
      let u : Rpcs S = record (with_stat h.proc s) { object = obj } in
      let v = keep_reply h.clt_nonce h.xid rep u in
      let ((l, w), e₄, k₄) = bind-some (latest_conn env h.clt_nonce c v) _ t k₃ in
      let (x₁, y₁) = with_stat_lem h.proc s i in
      let (x₂, y₂) = keep_reply_lem h.clt_nonce h.xid rep u i in
      let (x₃, y₃) = latest_conn_lem env h.clt_nonce c l v w i e₄ in
      let (x₄, y₄) = send_lem l rep.buf rep.ind w i in
      let (x₅, y₅) = decref_lem l (send l rep.buf rep.ind w) t i k₄ in
      let y : t.conns ≡ s.conns = y₅ ∙ y₄ ∙ y₃ ∙ y₂ ∙ y₁ in (omega (arith, x₁, x₂, x₃, x₄, x₅), y)

  Settled-balance : (c : ℕ) (s t : Rpcs S) (i : ℕ) → Settled c i s t → Balanced c i s t
  Settled-balance c s t i (x, y) = omega (arith, x, ap (held i) y)

  pub send_failure_lem :
      (env : Env) (h : ReqHeader) (ret c : ℕ) (s t : Rpcs S) (i : ℕ)
      → send_failure env h ret c s ≡ some t
      → (t.refs i ≡ s.refs i) × (t.conns ≡ s.conns)
  unfolding send_failure
  send_failure_lem env h ret c s t i e =
      let (rep, e₁, k₁) =
        bind-some (pack_reply_header (record { xid = h.xid; ret = ret }) (new_marshall env.junk)) _
          t e in
      let (x, y) = send_lem c rep.buf rep.ind s i in
      let p : send c rep.buf rep.ind s ≡ t = cc in
      (sym (ap (λ (z : Rpcs S). z.refs i) p) ∙ x, sym (ap (λ (z : Rpcs S). z.conns) p) ∙ y)

  pub by_state_balance :
      (env : Env) (h : ReqHeader) (f : S → Unmarshall → Marshall → Handled S) (c : ℕ)
      (req : Unmarshall) (v : Verdict) (r : RpcState) (s t : Rpcs S) (i : ℕ)
      → v.stat ≡ r
      → by_state env h f c req v s ≡ some t
      → Settled c i s t
  unfolding by_state
  by_state_balance env h f c req v new s t i q e = run_new_balance env h f c req s t i (rw q at e)
  by_state_balance env h f c req v inprogress s t i q e = decref_lem c s t i (rw q at e)
  by_state_balance env h f c req v done s t i q e =
      let (x, y) = send_lem c (s.heap v.b) v.sz s i in
      let (k, z) = decref_lem c (send c (s.heap v.b) v.sz s) t i (rw q at e) in
      (omega (arith, x, k), z ∙ y)
  by_state_balance env h f c req v forgotten s t i q e =
      let (u, e₁, k₁) =
        bind-some (send_failure env h (code atmostonce_failure) c s) _ t (rw q at e) in
      let (x, y) = send_failure_lem env h (code atmostonce_failure) c s u i e₁ in
      let (k, z) = decref_lem c u t i k₁ in (omega (arith, x, k), z ∙ y)

  save_conn_balance :
      (env : Env) (clt c : ℕ) (s t : Rpcs S) (i : ℕ)
      → KeysFrom 0 s.conns
      → save_conn env clt c s ≡ some t
      → t.refs i + held i s.conns ≡ s.refs i + held i t.conns
  unfolding save_conn incref decref
  save_conn_balance env clt c s t i o e = elim (Option-cases (find clt s.conns)) [
    | inl n ↦ ground (arith, e, n, held-insert_new i clt c s.conns n)
    | inr (old, p) ↦ ground (arith, e, p, held-insert_old i clt c old 0 s.conns o p)
  ]

  serve_balance :
      (env : Env) (h : ReqHeader) (f : S → Unmarshall → Marshall → Handled S) (c : ℕ)
      (req : Unmarshall) (s t : Rpcs S) (i : ℕ)
      → KeysFrom 0 s.conns
      → serve env h f c req s ≡ some t
      → Balanced c i s t
  unfolding serve
  serve_balance env h f c req s t i o e = elim (Bool-cases (h.clt_nonce == 0)) [
    | inl y ↦ Settled-balance c s t i (run_new_balance env h f c req s t i (rw y at e))
    | inr n ↦
        let (u, e₁, k₁) = bind-some (save_conn env h.clt_nonce c s) _ t (rw n at e) in
        let (v, w) = checkduplicate_and_update h.clt_nonce h.xid h.xid_rep u.window in
        let x = save_conn_balance env h.clt_nonce c s u i o e₁ in
        let (k, z) =
          by_state_balance env h f c req v v.stat (record u { window = w }) t i refl k₁ in
        omega (arith, x, k, ap (held i) z)
  ]

  -- Is this a well-formed request for another instance of the server?
  abbrev pub is_old : Memory → ℕ → Rpcs S → Bool
  is_old b n s =
      let r = unpack_req_header (new_unmarshall b n) in
      (r.1).is_ok && (not ((r.0).srv_nonce == 0) && not ((r.0).srv_nonce == s.nonce))

  -- Wherever `dispatch` returns, it has given back the reference of its job on the connection, and
  -- every connection has one reference more for each client that it is the latest connection of:
  -- on every branch, and also where the reply goes to another connection than the request came
  -- from. The one exception is a request for another instance of the server: it leaves the counts
  -- as they were, so the reference of the job is never given back.
  pub dispatch_balances :
      (env : Env) (c : ℕ) (b : Memory) (n : ℕ) (s t : Rpcs S) (i : ℕ)
      → KeysFrom 0 s.conns
      → dispatch env c b n s ≡ some t
      → t.refs i + (if is_old b n s then 0 else if i == c then 1 else 0) + held i s.conns
        ≡ s.refs i + held i t.conns
  unfolding dispatch
  dispatch_balances env c b n s t i o e =
      let (h, req) = unpack_req_header (new_unmarshall b n) in
      elim (Bool-cases req.is_ok) [
        | inr bad ↦ let k = Settled-balance c s t i (decref_lem c s t i (rw bad at e)) in rw bad k
        | inl good ↦ elim (Bool-cases (not (h.srv_nonce == 0) && not (h.srv_nonce == s.nonce))) [
          | inl old ↦
              let (x, y) =
                send_failure_lem env h (code oldsrv_failure) c s t i (rw (good, old) at e) in
              rw (good, old) (omega (arith, x, ap (held i) y))
          | inr current ↦ elim (Option-cases (find h.proc s.procs)) [
            | inl bad ↦
                let k =
                  Settled-balance c s t i (decref_lem c s t i (rw (good, current, bad) at e)) in
                rw (good, current) k
            | inr (f, p) ↦
                let k = serve_balance env h f c req s t i o (rw (good, current, p) at e) in
                rw (good, current) k
          ]
        ]
      ]
