-- ===== src/Server/Dispatch/Keys.antt =====
-- `dispatch` keeps the map of the latest connections in order.
use mit6_824_2012spring_yfs.Prelude.{
  ℕ, ◌+◌, ◌≡◌, ◌≤◌, refl, sym, subst, ◌&&◌, not, some, [], ◌∷◌, ◌==◌, Map, find, insert, Memory,
  bind-some, arith, Option-cases, Bool-cases, inl, inr,
}
use mit6_824_2012spring_yfs.Marshal.Headers.{ReqHeader}
use mit6_824_2012spring_yfs.Marshal.Out.{Marshall}
use mit6_824_2012spring_yfs.Marshal.In.{Unmarshall, new_unmarshall, unpack_req_header}
use mit6_824_2012spring_yfs.Call.{code, oldsrv_failure}
use mit6_824_2012spring_yfs.Call.Handlers.{Handled}
use mit6_824_2012spring_yfs.Server.Window.{checkduplicate_and_update}
use mit6_824_2012spring_yfs.Server.Dispatch.{Rpcs, Env, incref, decref, save_conn, serve, dispatch}
use mit6_824_2012spring_yfs.Server.Dispatch.Balance.{
  KeysFrom, decref_lem, run_new_balance, by_state_balance, send_failure_lem,
}

KeysFrom-mono : (a b : ℕ) (m : Map ℕ) → a ≤ b → KeysFrom b m → KeysFrom a m
KeysFrom-mono a b [] h k = tt
KeysFrom-mono a b ((j, d) ∷ m) h k = (omega (arith, h, k.0), k.1)

KeysFrom-insert : (lo k c : ℕ) (m : Map ℕ) → lo ≤ k → KeysFrom lo m → KeysFrom lo (insert k c m)
unfolding insert
KeysFrom-insert lo k c [] h o = (h, tt)
KeysFrom-insert lo k c ((j, d) ∷ m) h o =
    ground (arith, o, h, KeysFrom-insert (j + 1) k c m, KeysFrom-mono (k + 1) j ((j, d) ∷ m))

module _ {S : Type 0} where
  save_conn-KeysFrom :
      (env : Env) (clt c : ℕ) (s t : Rpcs S)
      → KeysFrom 0 s.conns
      → save_conn env clt c s ≡ some t
      → KeysFrom 0 t.conns
  unfolding save_conn incref decref
  save_conn-KeysFrom env clt c s t o e =
      let k = KeysFrom-insert 0 clt c s.conns (omega arith) o in
      elim (Option-cases (find clt s.conns)) [
        | inl n ↦ ground (arith, e, n, k)
        | inr (old, p) ↦ ground (arith, e, p, k, o)
      ]

  same-KeysFrom : (s t : Rpcs S) → t.conns ≡ s.conns → KeysFrom 0 s.conns → KeysFrom 0 t.conns
  same-KeysFrom s t e o = subst (KeysFrom 0) (sym e) o

  serve-KeysFrom :
      (env : Env) (h : ReqHeader) (f : S → Unmarshall → Marshall → Handled S) (c : ℕ)
      (req : Unmarshall) (s t : Rpcs S)
      → KeysFrom 0 s.conns
      → serve env h f c req s ≡ some t
      → KeysFrom 0 t.conns
  unfolding serve
  serve-KeysFrom env h f c req s t o e = elim (Bool-cases (h.clt_nonce == 0)) [
    | inl y ↦ same-KeysFrom s t (run_new_balance env h f c req s t 0 (rw y at e)).1 o
    | inr n ↦
        let (u, e₁, k₁) = bind-some (save_conn env h.clt_nonce c s) _ t (rw n at e) in
        let (v, w) = checkduplicate_and_update h.clt_nonce h.xid h.xid_rep u.window in
        let z = (by_state_balance env h f c req v v.stat (record u { window = w }) t 0 refl k₁).1 in
        same-KeysFrom u t z (save_conn-KeysFrom env h.clt_nonce c s u o e₁)
  ]

  pub dispatch-KeysFrom :
      (env : Env) (c : ℕ) (b : Memory) (n : ℕ) (s t : Rpcs S)
      → KeysFrom 0 s.conns
      → dispatch env c b n s ≡ some t
      → KeysFrom 0 t.conns
  unfolding dispatch
  dispatch-KeysFrom env c b n s t o e =
      let (h, req) = unpack_req_header (new_unmarshall b n) in
      elim (Bool-cases req.is_ok) [
        | inr bad ↦ same-KeysFrom s t (decref_lem c s t 0 (rw bad at e)).1 o
        | inl good ↦ elim (Bool-cases (not (h.srv_nonce == 0) && not (h.srv_nonce == s.nonce))) [
          | inl old ↦
              same-KeysFrom s t
                (send_failure_lem env h (code oldsrv_failure) c s t 0 (rw (good, old) at e)).1 o
          | inr current ↦ elim (Option-cases (find h.proc s.procs)) [
            | inl bad ↦ same-KeysFrom s t (decref_lem c s t 0 (rw (good, current, bad) at e)).1 o
            | inr (f, p) ↦ serve-KeysFrom env h f c req s t o (rw (good, current, p) at e)
          ]
        ]
      ]
