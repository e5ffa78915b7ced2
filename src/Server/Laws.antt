-- ===== src/Server/Laws.antt =====
-- server.go: what a call of the server says of the DB, over a lawful NodeHost.
use drummer.Base.{
  ℕ, zero, suc, ◌≡◌, refl, sym, ◌∙◌, ◌⊎◌, inl, inr, Bool, true, false, List, Option, none, some,
  Bytes, bytes_eq, bytes_beq_iff, Outcome, ok, Codec, arith, Option-cases, Outcome-cases,
  Bool-cases, subst, length, if◌then◌else◌, ◌==◌, nat_eq, unmarshal_failed, marshal_failed,
}
use drummer.Base.Map.{lookup, has, lookup-insert}
use drummer.Pb.{Kv, Update, LookupRequest, LookupResponse}
use drummer.Db.State.{Db, assert_not_failed}
use drummer.Db.Operations.{update, apply, apply_kv_update}
use drummer.Db.KeyValue.{stored, verdict, apply_kv_update_cases}
use drummer.Db.Lookups.{Formats, lookup_query, answer, find_kv, handle_kv_lookup, kv_response}
use drummer.Raft.{
  Moment, now, Grows, still, grown, Error, Reply, value, failed, crashed, fail, or_crash, or_fail,
  resume-eq-value, NodeHost, IsLawful, Grows-trans,
}
use drummer.Server.{
  kv_request, kv_update, read, lookup_db, lookup_kv, propose_drummer_update, try_get_session,
  get_session,
}
use drummer.Server.Requests.{closing, with_session}

pub or_fail-eq-value {ℓ} :
    {W : Type 0} {A : Type ℓ} (r : W × (Error ⊎ A)) (w : W) (a : A)
    → or_fail r ≡ (w, value a)
    → r ≡ (w, inr a)
or_fail-eq-value (w', inl e) w a h = absurd (ground arith)
or_fail-eq-value (w', inr b) w a h = ground arith

pub or_crash-eq-value {ℓ} :
    {W : Type 0} {A : Type ℓ} (o : Option A) (p : drummer.Base.Panic) (w w' : W) (a : A)
    → or_crash o p w ≡ (w', value a)
    → (o ≡ some a) × (w ≡ w')
or_crash-eq-value none p w w' a h = absurd (ground arith)
or_crash-eq-value (some b) p w w' a h = (ground arith, ground arith)

module _ (N : NodeHost) (formats : Formats) (lawful : IsLawful N formats) where
  -- The histories of the DB.
  abbrev pub Follows : Moment → Moment → Type 0
  Follows m m' = Grows formats m m'

  -- A read that returns is what the DB answers at some moment of the call.
  pub read_lem :
      (req : LookupRequest) (w w' : N.World) (b : Bytes)
      → read N formats req w ≡ (w', value b)
      → (d : Moment) × Follows (now N w) d × Follows d (now N w') × (answer formats d.db req ≡ ok b)
  unfolding read lookup_query assert_not_failed
  read_lem req w w' b h =
      let (w1, query, asked, h') =
        resume-eq-value _ (or_crash (formats.request.marshal req) marshal_failed w) w' b h in
      let (encoded, same) =
        or_crash-eq-value (formats.request.marshal req) marshal_failed w w1 query asked in
      let (d, before, later, e) =
        lawful.read-linearizable query b w w'
          (or_fail-eq-value (N.sync_read query w) w' b (ground arith)) in
      (d, before, later, ground (arith, formats.request.round_trip req query encoded))

  pub lookup_kv_lem :
      (key : Bytes) (w w' : N.World) (resp : LookupResponse)
      → lookup_kv N formats key w ≡ (w', value resp)
      → (d : Moment) × (kv : Kv) × Follows (now N w) d
        × Follows d (now N w')
        × (find_kv formats.response formats.kv d.db key ≡ ok kv)
        × (resp ≡ kv_response kv)
  unfolding lookup_kv lookup_db answer handle_kv_lookup
  lookup_kv_lem key w w' resp h =
      let (w1, b, asked, h') = resume-eq-value _ (read N formats (kv_request key) w) w' resp h in
      let (decoded, same) =
        or_crash-eq-value (formats.response.unmarshal b) unmarshal_failed w1 w' resp h' in
      let (d, before, later, e) = read_lem (kv_request key) w w1 b asked in
      elim (Outcome-cases (find_kv formats.response formats.kv d.db key)) [
        | inl (p, stuck) ↦ absurd (ground arith)
        | inr (kv, found) ↦
            let encoded : formats.response.marshal (kv_response kv) ≡ some b =
              elim (Option-cases (formats.response.marshal (kv_response kv))) [
                | inl refused ↦ absurd (ground arith)
                | inr (b', e') ↦ ground arith
              ] in
            (
              d,
              kv,
              before,
              subst (λ x. Follows d (now N x)) same later,
              found,
              ground (arith, formats.response.round_trip (kv_response kv) b encoded),
            )
      ]

  -- The record that a call reads is the one that the DB has, or a blank one.
  pub find_kv-stored :
      (d : Db) (key : Bytes) (kv old : Kv)
      → find_kv formats.response formats.kv d key ≡ ok kv
      → stored formats.kv d key ≡ some old
      → kv ≡ old
  unfolding find_kv stored
  find_kv-stored d key kv old found e = elim (Option-cases (lookup key d.kv_map)) [
    | inl absent ↦ absurd (ground arith)
    | inr (b, present) ↦ ground arith
  ]

  -- A proposal that returns was applied to the DB at some moment of the call.
  pub propose_lem :
      (session : N.Session) (u : Update) (w w' : N.World) (v : ℕ)
      → propose_drummer_update N formats session u w ≡ (w', value v)
      → (d d' : Moment) × Follows (now N w) d
        × (apply formats.kv d.db u ≡ ok (d'.db, v))
        × Follows d d'
        × Follows d' (now N w')
  unfolding propose_drummer_update update assert_not_failed
  propose_lem session u w w' v h =
      let (w1, cmd, made, h') =
        resume-eq-value _ (or_crash (formats.update.marshal u) marshal_failed w) w' v h in
      let (encoded, same) =
        or_crash-eq-value (formats.update.marshal u) marshal_failed w w1 cmd made in
      let (d, d', before, e, l, later) =
        lawful.propose-applied session cmd v w w'
          (or_fail-eq-value (N.sync_propose session cmd w) w' v (ground arith)) in
      (
        d,
        d',
        before,
        ground (arith, formats.update.round_trip u cmd encoded),
        grown cmd v still e l,
        later,
      )

  -- `applyKVUpdate` on a command that carries a record.
  pub apply-kv :
      (d d' : Db) (kv : Kv) (v : ℕ)
      → apply formats.kv d (kv_update kv) ≡ ok (d', v)
      → apply_kv_update formats.kv d kv ≡ ok (d', v)
  unfolding apply
  apply-kv d d' kv v h = h

  -- After a write that does not panic, whatever its result, the key has a record.
  pub apply_kv_update-has :
      (d d' : Db) (kv : Kv) (v : ℕ)
      → apply_kv_update formats.kv d kv ≡ ok (d', v)
      → has kv.key d'.kv_map ≡ true
  unfolding has stored verdict
  apply_kv_update-has d d' kv v h =
      let (b, encoded, answer, after) = apply_kv_update_cases formats.kv d kv d' v h in
      ground (arith, lookup-insert kv.key kv.key b d.kv_map, bytes_beq_iff kv.key kv.key)

  try_get_session_lem :
      (n : ℕ) (e : Error) (w w' : N.World) (session : N.Session)
      → try_get_session N formats n (fail e) w ≡ (w', value session)
      → Follows (now N w) (now N w')
  unfolding try_get_session
  try_get_session_lem zero e w w' session h = absurd (ground arith)
  try_get_session_lem (suc n) e w w' session h =
      let moved = lawful.get_session-Grows w in
      go (N.sync_get_session w) (λ e'. try_get_session_lem n e' (N.sync_get_session w).0 w' session)
        moved h
    where
      go :
          (r : N.World × (Error ⊎ N.Session))
          → ((e' : Error)
              → try_get_session N formats n (fail e') r.0 ≡ (w', value session)
              → Follows (now N r.0) (now N w'))
          → Follows (now N w) (now N r.0)
          → (elim (or_fail r).1 as (λ x. N.World × Reply N.Session) [
            | value s ↦ (r.0, value s)
            | failed e' ↦ try_get_session N formats n (fail e') r.0
            | crashed p ↦ (r.0, crashed p)
          ])
            ≡ (w', value session)
          → Follows (now N w) (now N w')
      go (w1, inl e') ih m eq = Grows-trans formats m (ih e' eq)
      go (w1, inr s) ih m eq = subst (λ x. Follows (now N w) (now N x)) (ground arith) m

  -- A call in a session of its own is its body, between two moves of the DB.
  pub with_session_lem {ℓ} :
      {A : Type ℓ} (body : N.Session → N.World → N.World × Reply A) (w w' : N.World) (a : A)
      → with_session N formats body w ≡ (w', value a)
      → (session : N.Session) × (w1 w2 : N.World) × Follows (now N w) (now N w1)
        × (body session w1 ≡ (w2, value a))
        × Follows (now N w2) (now N w')
  unfolding with_session get_session closing
  with_session_lem {A = A} body w w' a h =
      let (w1, session, opened, h') = resume-eq-value _ (get_session N formats w) w' a h in
      go session w1 (try_get_session_lem 3 Error.other w w1 session opened) (body session w1) refl
        h'
    where
      go :
          (session : N.Session) (w1 : N.World)
          → Follows (now N w) (now N w1)
          → (r : N.World × Reply A) → body session w1 ≡ r
          → closing N formats session r ≡ (w', value a)
          → (session : N.Session) × (w1 w2 : N.World) × Follows (now N w) (now N w1)
            × (body session w1 ≡ (w2, value a))
            × Follows (now N w2) (now N w')
      go session w1 m (w2, reply) e h'' = (
        session,
        w1,
        w2,
        m,
        ground arith,
        subst (λ x. Follows (now N w2) (now N x)) (ground arith)
            (lawful.close_session-Grows session w2),
      )
