-- ===== src/Worker.antt =====
-- drummer.go: the worker of a drummer: the ticks that it proposes while it leads, its rounds, and how
-- it sets the deployment id first. What is random is drawn from arguments, and so is whether the
-- worker is told to stop.
pub mod Deployment
pub mod Reads
pub mod Guards
pub mod Rounds
use drummer.Base.{
  ℕ, zero, suc, Bool, true, false, not, List, Option, none, some, [], ◌∷◌, length, ◌⊎◌, inl, inr,
  ltb, leb, ◌==◌, if◌then◌else◌, nat_eq, add_u64, Bytes, zero_tick, Panic,
}
use drummer.Settings.{tick_interval_second, loop_interval_second}
use drummer.Pb.{NodeHostRequest, NodeHostCollection, Update, UpdateType, Config}
use drummer.ShardImage.{Replica}
use drummer.Selector.{Draws}
use drummer.Scheduler.{Scheduler, Attempt, refused, panicked, running, update_scheduler_context}
use drummer.Scheduler as Scheduler
use drummer.Cycle as Cycle
use drummer.Db.State.{SchedulerContext}
use drummer.Db.Lookups.{Formats}
use drummer.Raft.{
  Error, canceled, session_not_ready, Reply, value, failed, crashed, Call, ◌>>=◌, pure, crash,
  NodeHost,
}
use drummer.Server.{blank_update, propose_drummer_update}
use drummer.Server.Requests.{
  get_bootstrapped, get_launched, get_node_host_collection, get_scheduler_context,
  set_deployment_id,
}
use drummer.Sessions.{attempt, get_session, reset_session, client_proposal_completed}

-- The parts of `Drummer` that the worker changes, and the counter of its loop.
pub record Drummer (S : Type 0) : Type 0 where
  pub scheduler : Scheduler
  pub deployment_id : ℕ
  pub session : Option S
  pub count : ℕ

abbrev pub tick_update : Update
tick_update = blank_update UpdateType.tick

abbrev pub requests_update : List NodeHostRequest → Update
requests_update reqs = record (blank_update UpdateType.requests) {
  requests = some (record { requests = reqs });
}

-- What `schedule` makes of the flag, whose error it drops but for one.
unfoldable pub launched_seen : Error ⊎ Bool → Option Bool
launched_seen (inl canceled) = none
launched_seen (inl e) = some false
launched_seen (inr launched) = some launched

-- `err != nil`
unfoldable pub if_returned {ℓ} : {A : Type ℓ} → Error ⊎ A → Option A
if_returned (inl e) = none
if_returned (inr a) = some a

-- The scheduler after a cycle.
unfoldable pub scheduler_after :
    (List Replica → List Replica) → Scheduler → Option SchedulerContext → Scheduler
scheduler_after sort s none = s
scheduler_after sort s (some sc) = update_scheduler_context sort s sc

-- The requests of a cycle; `none` where the values of the random source end before it does.
unfoldable pub decided :
    {W : Type 0} → Attempt (List NodeHostRequest) → Call W (Option (List NodeHostRequest))
decided (Scheduler.value reqs) = pure (some reqs)
decided (refused e) = pure (some [])
decided (panicked p) = crash p
decided running = pure none

module _ (N : NodeHost) (formats : Formats) where
  -- A worker after a proposal, and what the proposal returned.
  abbrev pub Proposed : Type 0
  Proposed = (Error ⊎ ℕ) × Drummer N.Session

  -- The lines behind a proposal.
  unfoldable pub after_proposal : Drummer N.Session → Error ⊎ ℕ → Call N.World Proposed
  after_proposal d (inl e) = do
    session ← reset_session N d.session
    pure (inl e, record d { session = session })
  after_proposal d (inr v) = do
    session ← client_proposal_completed N d.session
    pure (inr v, record d { session = session })

  unfoldable pub propose_with :
      Drummer N.Session → Update → Option N.Session → Call N.World Proposed
  propose_with d u none = pure (inl session_not_ready, record d { session = none })
  propose_with d u (some s) = do
    result ← attempt (propose_drummer_update N formats s u)
    after_proposal (record d { session = some s }) result

  unfoldable pub propose : Drummer N.Session → Update → Call N.World Proposed
  propose d u = do session ← get_session N d.session; propose_with d u session

  unfoldable pub check_tick : Proposed → Call N.World Proposed
  check_tick (inl e, d) = pure (inl e, d)
  check_tick (inr zero, d) = crash zero_tick
  check_tick (inr (suc t), d) = pure (inr (suc t), d)

  unfoldable pub tick : Drummer N.Session → Call N.World Proposed
  tick d = do result ← propose d tick_update; check_tick result

  unfoldable pub update_requests : Drummer N.Session → List NodeHostRequest → Call N.World Proposed
  update_requests d [] = pure (inr 0, d)
  update_requests d (r ∷ reqs) = propose d (requests_update (r ∷ reqs))

  -- `bootstrapped`, which is false where the flag cannot be read.
  unfoldable pub bootstrapped : Call N.World Bool
  bootstrapped = do
    flag ← attempt (get_bootstrapped N formats)
    pure (elim flag [ inl e ↦ false | inr b ↦ b ])

  unfoldable pub enough : Error ⊎ NodeHostCollection → Bool
  enough (inl e) = false
  enough (inr c) = leb 3 (length c.collection)

  unfoldable pub has_enough_node_host_connected : Call N.World Bool
  has_enough_node_host_connected = do
    collection ← attempt (get_node_host_collection N formats)
    pure (enough collection)

  -- The reads of `schedule`: the copy is not asked for where the first ends the cycle.
  unfoldable pub read_context : Option Bool → Call N.World (Option SchedulerContext)
  read_context none = pure none
  read_context (some launched) = do
    sc ← attempt (get_scheduler_context N formats)
    pure (if_returned sc)

  module _ (sort : List Replica → List Replica) where
    -- `schedule`: the requests, and the worker afterwards.
    unfoldable pub schedule :
        Drummer N.Session → Draws → Call N.World (Option (List NodeHostRequest) × Drummer N.Session)
    schedule d draws = do
      flag ← attempt (get_launched N formats)
      sc ← read_context (launched_seen flag)
      reqs ← decided (Cycle.schedule sort d.scheduler (launched_seen flag) sc draws)
      pure (reqs, record d { scheduler = scheduler_after sort d.scheduler sc })

    -- The guards of a round, and its cycle.
    unfoldable pub scheduled :
        Drummer N.Session
        → Draws
        → Bool
        → Call N.World (Option (List NodeHostRequest) × Drummer N.Session)
    scheduled d draws false = pure (some [], d)
    scheduled d draws true = schedule d draws

    unfoldable pub when_enough :
        Drummer N.Session
        → Draws
        → Bool
        → Call N.World (Option (List NodeHostRequest) × Drummer N.Session)
    when_enough d draws false = pure (some [], d)
    when_enough d draws true = do ready ← bootstrapped; scheduled d draws ready

    unfoldable pub decide :
        Drummer N.Session → Draws → Call N.World (Option (List NodeHostRequest) × Drummer N.Session)
    decide d draws = do connected ← has_enough_node_host_connected; when_enough d draws connected

    -- The end of a round. The error of the write is only logged.
    unfoldable pub write :
        Option (List NodeHostRequest) × Drummer N.Session
        → Call N.World (Option (Drummer N.Session))
    write (none, d) = pure none
    write (some reqs, d) = do (count, d') ← update_requests d reqs; pure (some d')

    -- The lines of a round behind its tick, whose error is only logged.
    unfoldable pub behind_tick :
        Draws → ℕ → Drummer N.Session → Call N.World (Option (Drummer N.Session))
    behind_tick draws count d =
        if ltb count loop_interval_second
        then pure (some d)
        else (do decision ← decide (record d { count = 0 }) draws; write decision)

    -- A round of `drummerMain`, of a worker that leads or not; `none` where the values of the random
    -- source end before it does.
    unfoldable pub round :
        Bool → Drummer N.Session → Draws → Call N.World (Option (Drummer N.Session))
    round false d draws = pure (some (record d { count = add_u64 d.count tick_interval_second }))
    round true d draws = do
      (result, d') ← tick (record d { count = add_u64 d.count tick_interval_second })
      behind_tick draws (add_u64 d.count tick_interval_second) d'
