-- ===== src/Election.antt =====
-- election.go: the election of the drummer that leads, by votes on one record of the DB. `Leaders`
-- and `Ownership` prove. A turn of the worker is a function of the manager and of the tick.
pub mod Moves
pub mod Detection
pub mod Leaders
pub mod Ownership
use drummer.Base.{
  ℕ, ◌+◌, zero, suc, Bool, true, false, ◌&&◌, Option, none, some, ltb, ◌==◌, if◌then◌else◌, nat_eq,
  Bytes, Outcome, ok, panic, add_u64, election_unknown_state, campaign_by_leader, ◌⊎◌, inl, inr,
  panic_if,
}
use drummer.Pb.{Kv}
use drummer.Db.State.{election_key, db_kv_updated}
use drummer.Db.Lookups.{Formats}
use drummer.Raft.{Error, Reply, value, failed, crashed, Call, ◌>>=◌, pure, crash, NodeHost}
use drummer.Server.Requests.{get_election_info, make_drummer_vote}
use drummer.Sessions.{attempt, get_session, reset_session, client_proposal_completed}

abbrev pub dead_leader_min_round : ℕ
dead_leader_min_round = 3

pub data NodeState : Type 0 where
  follower leader : NodeState

pub record LeaderInfo : Type 0 where
  pub instance_id : ℕ
  pub tick : ℕ
  pub static_round : ℕ

-- The manager, over the type of its sessions.
pub record ElectionManager (S : Type 0) : Type 0 where
  pub instance_id : ℕ
  pub current_leader : Option LeaderInfo
  pub state : NodeState
  pub session : Option S

-- What a follower makes of a leader that it sees.
unfoldable pub set_leader_info : Option LeaderInfo → LeaderInfo → Outcome LeaderInfo
set_leader_info none l = ok (record l { static_round = 0 })
set_leader_info (some current) l =
    if current.instance_id == l.instance_id && ltb current.tick l.tick
    then ok (record current { tick = l.tick; static_round = 0 })
    else if current.instance_id == l.instance_id && current.tick == l.tick
    then ok (record current { static_round = add_u64 current.static_round 1 })
    else if current.instance_id == l.instance_id
    then panic election_unknown_state
    else ok (record l { static_round = 0 })

unfoldable pub leader_dead : Option LeaderInfo → Bool
leader_dead none = false
leader_dead (some l) = ltb dead_leader_min_round l.static_round

unfoldable pub restart : Option LeaderInfo → Option LeaderInfo
restart none = none
restart (some l) = some (record l { static_round = 0 })

module _ {S : Type 0} where
  unfoldable pub is_leader : ElectionManager S → Bool
  is_leader d = elim d.state [ NodeState.follower ↦ false | NodeState.leader ↦ true ]

  unfoldable pub become_follower : Option LeaderInfo → ElectionManager S → ElectionManager S
  become_follower l d = record d { current_leader = restart l; state = NodeState.follower }

  unfoldable pub reset_follower : ElectionManager S → ElectionManager S
  reset_follower d = record d {
    current_leader = restart d.current_leader;
    state = NodeState.follower;
  }

  unfoldable pub become_leader : ElectionManager S → ElectionManager S
  become_leader d = record d { current_leader = none; state = NodeState.leader }

  -- The record that `renewLeadership` and `campaign` vote for.
  unfoldable pub vote : ElectionManager S → ℕ → ℕ → Kv
  vote d old_instance_id tick = record {
    key = election_key;
    value = election_key;
    instance_id = d.instance_id;
    tick = tick;
    old_instance_id = old_instance_id;
    finalized = false;
  }

  -- `oldInstanceID` of `campaign`.
  unfoldable pub old_instance_id : ElectionManager S → ℕ
  old_instance_id d = elim d.current_leader [ none ↦ 0 | some l ↦ l.instance_id ]

abbrev pub seen_leader : Kv → LeaderInfo
seen_leader kv = record { instance_id = kv.instance_id; tick = kv.tick; static_round = 0 }

module _ (N : NodeHost) (formats : Formats) where
  -- The manager after a renewal, and the error of the renewal.
  abbrev pub Renewal : Type 0
  Renewal = Option Error × ElectionManager N.Session

  -- The lines of `renewLeadership` behind the vote. A vote that was not taken makes a follower, and
  -- yet it is no error.
  unfoldable pub after_renewal : ElectionManager N.Session → Error ⊎ ℕ → Call N.World Renewal
  after_renewal d (inl e) = do
    session ← reset_session N d.session
    pure (some e, become_follower none (record d { session = session }))
  after_renewal d (inr code) = do
    session ← client_proposal_completed N d.session
    pure (
      none,
      if code == db_kv_updated
          then record d { session = session }
          else become_follower none (record d { session = session }),
    )

  unfoldable pub renew_with :
      ElectionManager N.Session → ℕ → Option N.Session → Call N.World Renewal
  renew_with d tick none = pure (some Error.session_not_ready, record d { session = none })
  renew_with d tick (some s) = do
    result ← attempt (make_drummer_vote N formats s (vote d 0 tick))
    after_renewal (record d { session = some s }) result

  unfoldable pub renew_leadership : ElectionManager N.Session → ℕ → Call N.World Renewal
  renew_leadership d tick = do session ← get_session N d.session; renew_with d tick session

  -- `leaderMain`, behind the read of the record.
  unfoldable pub leader_reads :
      ElectionManager N.Session → ℕ → Error ⊎ Kv → Call N.World (ElectionManager N.Session)
  leader_reads d tick (inl e) = pure (become_follower none d)
  leader_reads d tick (inr kv) =
      if kv.instance_id == d.instance_id
      then (do (err, d') ← renew_leadership d tick; pure d')
      else pure (become_follower (some (seen_leader kv)) d)

  unfoldable pub leader_main :
      ElectionManager N.Session → ℕ → Call N.World (ElectionManager N.Session)
  leader_main d tick = do info ← attempt (get_election_info N formats); leader_reads d tick info

  -- The end of `campaign`, behind the second read.
  unfoldable pub campaign_reads : ElectionManager N.Session → Error ⊎ Kv → ElectionManager N.Session
  campaign_reads d (inl e) = reset_follower d
  campaign_reads d (inr kv) = if kv.instance_id == d.instance_id then become_leader d else d

  -- `campaign`, behind the vote.
  unfoldable pub campaign_lost :
      ElectionManager N.Session → Call N.World (ElectionManager N.Session)
  campaign_lost d = do
    session ← reset_session N d.session
    pure (reset_follower (record d { session = session }))

  unfoldable pub campaign_won : ElectionManager N.Session → Call N.World (ElectionManager N.Session)
  campaign_won d = do
    session ← client_proposal_completed N d.session
    info ← attempt (get_election_info N formats)
    pure (campaign_reads (record d { session = session }) info)

  unfoldable pub after_campaign :
      ElectionManager N.Session → Error ⊎ ℕ → Call N.World (ElectionManager N.Session)
  after_campaign d (inl e) = campaign_lost d
  after_campaign d (inr code) = if code == db_kv_updated then campaign_won d else campaign_lost d

  unfoldable pub campaign_with :
      ElectionManager N.Session → ℕ → Option N.Session → Call N.World (ElectionManager N.Session)
  campaign_with d tick none = pure (record d { session = none })
  campaign_with d tick (some s) = do
    result ← attempt (make_drummer_vote N formats s (vote d (old_instance_id d) tick))
    after_campaign (record d { session = some s }) result

  unfoldable pub campaign : ElectionManager N.Session → ℕ → Call N.World (ElectionManager N.Session)
  campaign d tick =
      if is_leader d
      then crash campaign_by_leader
      else (do session ← get_session N d.session; campaign_with d tick session)

  -- The branch of `followerMain` on a record of its own.
  unfoldable pub after_own : Renewal → Call N.World (ElectionManager N.Session)
  after_own (some e, d) = pure (reset_follower d)
  after_own (none, d) = pure (become_leader d)

  -- The branch on the record of another.
  unfoldable pub follow :
      ElectionManager N.Session → ℕ → Outcome LeaderInfo → Call N.World (ElectionManager N.Session)
  follow d tick (panic p) = crash p
  follow d tick (ok l) =
      let d' = record d { current_leader = some l } in
      if leader_dead (some l) then campaign d' tick else pure d'

  unfoldable pub follower_reads :
      ElectionManager N.Session → ℕ → Error ⊎ Kv → Call N.World (ElectionManager N.Session)
  follower_reads d tick (inl e) = pure (reset_follower d)
  follower_reads d tick (inr kv) =
      if kv.instance_id == 0
      then campaign d tick
      else if kv.instance_id == d.instance_id
      then (do renewal ← renew_leadership d tick; after_own renewal)
      else follow d tick (set_leader_info d.current_leader (seen_leader kv))

  unfoldable pub follower_main :
      ElectionManager N.Session → ℕ → Call N.World (ElectionManager N.Session)
  follower_main d tick = do info ← attempt (get_election_info N formats); follower_reads d tick info

  -- What `workerMain` does at a tick.
  unfoldable pub turn : ElectionManager N.Session → ℕ → Call N.World (ElectionManager N.Session)
  turn d tick = if is_leader d then leader_main d tick else follower_main d tick
