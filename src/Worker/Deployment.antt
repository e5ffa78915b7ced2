-- ===== src/Worker/Deployment.antt =====
-- drummer.go: `setDeploymentID` of a worker, which tries until the server has an id. An attempt is
-- given the id that the random source would draw, and whether the worker is told to stop.
use drummer.Base.{
  ℕ, Bool, true, false, not, ◌||◌, List, Option, none, some, [], ◌∷◌, ◌⊎◌, inl, inr, ◌==◌,
  if◌then◌else◌, nat_eq, Bytes,
}
use drummer.Db.Lookups.{Formats}
use drummer.Raft.{Error, Call, ◌>>=◌, pure, NodeHost}
use drummer.Server.Requests as Requests
use drummer.Sessions.{attempt, get_session, reset_session, client_proposal_completed}
use drummer.Worker.{Drummer}

-- The last lines, on the variable `did` of the function.
unfoldable pub learn : {S : Type 0} → ℕ → Drummer S → Drummer S
learn did d = if did == 0 then d else record d { deployment_id = did }

module _ (N : NodeHost) (formats : Formats) (format_uint : ℕ → Bytes)
    (parse_uint : Bytes → Option ℕ) where
  -- An iteration, behind the call of the server: whether it returns, and the worker.
  unfoldable pub after_setting :
      Drummer N.Session → Bool → Error ⊎ ℕ → Call N.World (Bool × Drummer N.Session)
  after_setting d true (inl e) = pure (true, d)
  after_setting d false (inl e) = do
    session ← reset_session N d.session
    pure (false, record d { session = session })
  after_setting d stopped (inr did) = do
    session ← client_proposal_completed N d.session
    pure (not (did == 0), record d { session = session })

  unfoldable pub set_with :
      Drummer N.Session → ℕ → Bool → Option N.Session → Call N.World (Bool × Drummer N.Session)
  set_with d drawn stopped none = pure (false, record d { session = none })
  set_with d drawn stopped (some s) = do
    result ← attempt (Requests.set_deployment_id N formats format_uint parse_uint s drawn)
    after_setting (record d { session = some s }) stopped result

  -- An iteration; it also returns where the sleep that ends it finds the worker stopped.
  unfoldable pub set_once : Drummer N.Session → ℕ → Bool → Call N.World (Bool × Drummer N.Session)
  set_once d drawn stopped = do
    session ← get_session N d.session
    (done, d') ← set_with d drawn stopped session
    pure (done || stopped, d')

  -- `none` where the attempts end before the loop does.
  unfoldable pub set_loop :
      List (ℕ × Bool) → Drummer N.Session → Call N.World (Option (Drummer N.Session))
  set_loop [] d = pure none
  set_loop ((drawn, stopped) ∷ later) d = do
    (done, d') ← set_once d drawn stopped
    if done then pure (some d') else set_loop later d'

  -- The loop assigns to a `did` of its own, so the function's one is still 0 when the loop is over.
  unfoldable pub set_deployment_id :
      List (ℕ × Bool) → Drummer N.Session → Call N.World (Option (Drummer N.Session))
  set_deployment_id attempts d = do
    ended ← set_loop attempts d
    pure (elim ended [ none ↦ none | some d' ↦ some (learn 0 d') ])
