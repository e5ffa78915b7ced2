-- ===== src/Sessions.antt =====
-- drummer.go: `sessionUser`, which holds the client session of a worker, and the capture of an error
-- by its caller.
use drummer.Base.{Option, none, some, ◌⊎◌, inl, inr, no_session}
use drummer.Raft.{Error, Reply, value, failed, crashed, Call, pure, crash, NodeHost}

-- `a, err := call()`
abbrev pub capture {ℓ} : {W : Type 0} {A : Type ℓ} → W × Reply A → W × Reply (Error ⊎ A)
capture (w, value a) = (w, value (inr a))
capture (w, failed e) = (w, value (inl e))
capture (w, crashed p) = (w, crashed p)

unfoldable pub attempt {ℓ} :
    {W : Type 0} {A : Type ℓ} → (W → W × Reply A) → W → W × Reply (Error ⊎ A)
attempt call w = capture (call w)

module _ (N : NodeHost) where
  -- The session that `SyncGetSession` gives, if any; its error is dropped.
  abbrev pub session_of : N.World × (Error ⊎ N.Session) → N.World × Reply (Option N.Session)
  session_of (w, inl e) = (w, value none)
  session_of (w, inr s) = (w, value (some s))

  -- `getSession`: the session that the user has afterwards, which it also returns.
  unfoldable pub get_session : Option N.Session → Call N.World (Option N.Session)
  get_session none w = session_of (N.sync_get_session w)
  get_session (some s) w = (w, value (some s))

  -- `resetSession`: the user has no session afterwards.
  unfoldable pub reset_session : Option N.Session → Call N.World (Option N.Session)
  reset_session none w = (w, value none)
  reset_session (some s) w = ((N.sync_close_session s w).0, value none)

  -- `clientProposalCompleted`
  unfoldable pub client_proposal_completed : Option N.Session → Call N.World (Option N.Session)
  client_proposal_completed none = crash no_session
  client_proposal_completed (some s) = pure (some (N.proposal_completed s))
