-- ===== src/Server/Moves.antt =====
-- server.go and drummer.go: whatever a call of the server comes to, the DB has only taken commands.
use drummer.Base.{
  ℕ, Option-cases, ◌≡◌, Option, none, some, ◌⊎◌, inl, inr, Bytes, Panic, arith, subst,
}
use drummer.Pb.{Kv, Update, LookupRequest, LookupRequestType}
use drummer.Db.State.{election_key, deployment_id_key}
use drummer.Db.Lookups.{Formats}
use drummer.Raft.{
  now, still, Error, Reply, value, failed, crashed, ◌>>=◌, or_crash, or_fail, resume, NodeHost,
  IsLawful, Grows-trans,
}
use drummer.Server.{
  blank_request, kv_update, kv_request, read, lookup_db, lookup_kv, kv_result,
  propose_drummer_update,
}
use drummer.Server.Requests.{
  flag_value, parse_id, get_deployment_id, get_boolean_kv, get_scheduler_context, get_election_info,
  make_drummer_vote,
}
use drummer.Server.Laws.{Follows}
use drummer.Sessions.{
  capture, attempt, session_of, get_session, reset_session, client_proposal_completed,
}

flag_value-stays : {W : Type 0} (v : Bytes) (w : W) → w ≡ (flag_value v w).0
unfolding flag_value
flag_value-stays v w = ground arith

module _ (N : NodeHost) (formats : Formats) (lawful : IsLawful N formats) where
  -- The DB moves from the world to the world of the reply.
  abbrev pub Moved {ℓ} : {A : Type ℓ} → N.World → N.World × Reply A → Type 0
  Moved w r = Follows N formats lawful (now N w) (now N r.0)

  abbrev pub Moves {ℓ} : {A : Type ℓ} → (N.World → N.World × Reply A) → Type 0
  Moves call = (w : N.World) → Moved w (call w)

  Moved-resume {ℓ κ} :
      {A : Type ℓ} {B : Type κ} (k : A → N.World → N.World × Reply B) (w : N.World)
      (r : N.World × Reply A)
      → Moved w r
      → ((a : A) → Moves (k a))
      → Moved w (resume k r)
  unfolding resume
  Moved-resume k w (w1, value a) m ks = Grows-trans formats m (ks a w1)
  Moved-resume k w (w1, failed e) m ks = m
  Moved-resume k w (w1, crashed p) m ks = m

  pub Moves-bind {ℓ κ} :
      {A : Type ℓ} {B : Type κ} (step : N.World → N.World × Reply A)
      (k : A → N.World → N.World × Reply B)
      → Moves step
      → ((a : A) → Moves (k a))
      → Moves (step >>= k)
  Moves-bind step k m ks w = Moved-resume k w (step w) (m w) ks

  Moved-or_fail {ℓ} :
      {A : Type ℓ} (w : N.World) (r : N.World × (Error ⊎ A))
      → Follows N formats lawful (now N w) (now N r.0)
      → Moved w (or_fail r)
  Moved-or_fail w (w1, inl e) m = m
  Moved-or_fail w (w1, inr a) m = m

  Moves-or_crash {ℓ} : {A : Type ℓ} (o : Option A) (p : Panic) → Moves (or_crash {W = N.World} o p)
  Moves-or_crash none p w = still
  Moves-or_crash (some a) p w = still

  Moved-capture {ℓ} :
      {A : Type ℓ} (w : N.World) (r : N.World × Reply A) → Moved w r → Moved w (capture r)
  Moved-capture w (w1, value a) m = m
  Moved-capture w (w1, failed e) m = m
  Moved-capture w (w1, crashed p) m = m

  pub Moves-attempt {ℓ} :
      {A : Type ℓ} (call : N.World → N.World × Reply A) → Moves call → Moves (attempt call)
  unfolding attempt
  Moves-attempt call m w = Moved-capture w (call w) (m w)

  pub Moves-eq {ℓ} :
      {A : Type ℓ} (call : N.World → N.World × Reply A) (w w' : N.World) (r : Reply A)
      → Moves call
      → call w ≡ (w', r)
      → Follows N formats lawful (now N w) (now N w')
  Moves-eq call w w' r m h = subst (λ x. Follows N formats lawful (now N w) (now N x.0)) h (m w)

  pub Moves-read : (req : LookupRequest) → Moves (read N formats req)
  unfolding read
  Moves-read req =
      Moves-bind _ _ (Moves-or_crash (formats.request.marshal req) _)
        (λ q w. Moved-or_fail w (N.sync_read q w) (lawful.read-Grows q w))

  pub Moves-lookup_db : (req : LookupRequest) → Moves (lookup_db N formats req)
  unfolding lookup_db
  Moves-lookup_db req =
      Moves-bind _ _ (Moves-read req) (λ b. Moves-or_crash (formats.response.unmarshal b) _)

  pub Moves-get_election_info : Moves (get_election_info N formats)
  unfolding get_election_info lookup_kv kv_result
  Moves-get_election_info =
      Moves-bind _ _ (Moves-lookup_db (kv_request election_key))
        (λ resp. Moves-or_crash resp.kv_result _)

  Moves-flag_value : (v : Bytes) → Moves (flag_value v {W = N.World})
  Moves-flag_value v w =
      subst (λ x. Follows N formats lawful (now N w) (now N x)) (flag_value-stays v w) still

  pub Moves-get_boolean_kv : (key : Bytes) → Moves (get_boolean_kv N formats key)
  unfolding get_boolean_kv lookup_kv kv_result
  Moves-get_boolean_kv key =
      Moves-bind _ _ (Moves-lookup_db (kv_request key))
        (λ resp. Moves-bind _ _ (Moves-or_crash resp.kv_result _) (λ kv. Moves-flag_value kv.value))

  Moves-parse_id :
      (format_uint : ℕ → Bytes) (parse_uint : Bytes → Option ℕ) (v : Bytes)
      → Moves (parse_id N formats format_uint parse_uint v)
  unfolding parse_id
  Moves-parse_id format_uint parse_uint v w = elim (Option-cases (parse_uint v)) [
    | inl bad ↦ subst (λ x. Follows N formats lawful (now N w) (now N x)) (ground arith) still
    | inr (n, e) ↦ subst (λ x. Follows N formats lawful (now N w) (now N x)) (ground arith) still
  ]

  pub Moves-get_deployment_id :
      (format_uint : ℕ → Bytes) (parse_uint : Bytes → Option ℕ)
      → Moves (get_deployment_id N formats format_uint parse_uint)
  unfolding get_deployment_id lookup_kv kv_result
  Moves-get_deployment_id format_uint parse_uint =
      Moves-bind _ _ (Moves-lookup_db (kv_request deployment_id_key)) (λ resp.
        Moves-bind _ _ (Moves-or_crash resp.kv_result _)
          (λ kv. Moves-parse_id format_uint parse_uint kv.value))

  pub Moves-get_scheduler_context : Moves (get_scheduler_context N formats)
  unfolding get_scheduler_context
  Moves-get_scheduler_context =
      Moves-bind _ _ (Moves-read (blank_request LookupRequestType.scheduler_context))
        (λ b. Moves-or_crash (formats.context.unmarshal b) _)

  pub Moves-propose :
      (session : N.Session) (u : Update) → Moves (propose_drummer_update N formats session u)
  unfolding propose_drummer_update
  Moves-propose session u =
      Moves-bind _ _ (Moves-or_crash (formats.update.marshal u) _) (λ cmd w.
        Moved-or_fail w (N.sync_propose session cmd w) (lawful.propose-Grows session cmd w))

  pub Moves-make_drummer_vote :
      (session : N.Session) (kv : Kv) → Moves (make_drummer_vote N formats session kv)
  unfolding make_drummer_vote
  Moves-make_drummer_vote session kv = Moves-propose session (kv_update kv)

  Moved-session_of :
      (w : N.World) (r : N.World × (Error ⊎ N.Session))
      → Follows N formats lawful (now N w) (now N r.0)
      → Moved w (session_of N r)
  Moved-session_of w (w1, inl e) m = m
  Moved-session_of w (w1, inr s) m = m

  pub Moves-get_session : (session : Option N.Session) → Moves (get_session N session)
  unfolding get_session
  Moves-get_session none w = Moved-session_of w (N.sync_get_session w) (lawful.get_session-Grows w)
  Moves-get_session (some s) w = still

  pub Moves-reset_session : (session : Option N.Session) → Moves (reset_session N session)
  unfolding reset_session
  Moves-reset_session none w = still
  Moves-reset_session (some s) w = lawful.close_session-Grows s w

  pub Moves-client_proposal_completed :
      (session : Option N.Session) → Moves (client_proposal_completed N session)
  unfolding client_proposal_completed
  Moves-client_proposal_completed none w = still
  Moves-client_proposal_completed (some s) w = still

  -- A call that is made and whose error is caught.
  pub attempt-eq-inr {ℓ} :
      {A : Type ℓ} (call : N.World → N.World × Reply A) (w w' : N.World) (a : A)
      → attempt call w ≡ (w', value (inr a))
      → call w ≡ (w', value a)
  unfolding attempt
  attempt-eq-inr {A = A} call w w' a h = go (call w) h
    where
      go : (r : N.World × Reply A) → capture r ≡ (w', value (inr a)) → r ≡ (w', value a)
      go (w1, value b) e = ground arith
      go (w1, failed e') e = absurd (ground arith)
      go (w1, crashed p) e = absurd (ground arith)
