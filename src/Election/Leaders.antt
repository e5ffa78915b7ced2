-- ===== src/Election/Leaders.antt =====
-- election.go: what backs the leader that a turn of the worker ends with.
use drummer.Base.{
  ℕ, suc, ◌≡◌, refl, sym, ◌∙◌, true, false, ◌⊎◌, inl, inr, Option, none, some, Outcome, ok, panic,
  ◌==◌, nat_eq, bytes_eq, arith, Bool-cases, subst,
}
use drummer.Pb.{Kv}
use drummer.Db.State.{election_key, db_kv_updated}
use drummer.Db.KeyValue.{stored}
use drummer.Db.Lookups.{Formats}
use drummer.Raft.{
  Moment, now, Grows, still, Error, value, pure, resume, resume-eq-value, NodeHost, IsLawful,
}
use drummer.Server.Requests.{get_election_info, make_drummer_vote}
use drummer.Server.Laws.{Follows}
use drummer.Server.Moves.{
  Moves-eq, Moves-attempt, Moves-get_election_info, Moves-make_drummer_vote, Moves-get_session,
  Moves-client_proposal_completed,
}
use drummer.Sessions.{attempt, get_session, reset_session, client_proposal_completed}
use drummer.Election.{
  NodeState, LeaderInfo, ElectionManager, Renewal, is_leader, become_follower, reset_follower, vote,
  old_instance_id, seen_leader, renew_leadership, leader_reads, leader_main, campaign_reads,
  campaign_lost, campaign_won, after_campaign, campaign_with, campaign, after_own, follow,
  follower_reads, follower_main, turn, set_leader_info, leader_dead,
}
use drummer.Election.Moves.{
  Owned, Owned-wider, get_election_info-Owned, Moves-renew_leadership, info-Owned,
}

is_leader-state :
    {S : Type 0} (d : ElectionManager S) → is_leader d ≡ false → d.state ≡ NodeState.follower
unfolding is_leader
is_leader-state d f = ground arith

is_leader-leader :
    {S : Type 0} (d : ElectionManager S) → d.state ≡ NodeState.leader → is_leader d ≡ true
unfolding is_leader
is_leader-leader d f = ground arith

module _ (N : NodeHost) (formats : Formats) (lawful : IsLawful N formats) where
  leader_main-Owned :
      (d d' : ElectionManager N.Session) (tick i : ℕ) (w w' : N.World)
      → leader_main N formats d tick w ≡ (w', value d')
      → d'.state ≡ NodeState.leader
      → d.instance_id ≡ suc i
      → Owned N formats lawful (suc i) (now N w) (now N w')
  unfolding leader_main leader_reads become_follower
  leader_main-Owned d d' tick i w w' h leads e =
      let (w1, info, asked, h') =
        resume-eq-value _ (attempt (get_election_info N formats) w) w' d' h in
      go w1 info asked h'
    where
      go :
          (w1 : N.World) (info : Error ⊎ Kv)
          → attempt (get_election_info N formats) w ≡ (w1, value info)
          → leader_reads N formats d tick info w1 ≡ (w', value d')
          → Owned N formats lawful (suc i) (now N w) (now N w')
      go w1 (inl err) asked h' = absurd (ground arith)
      go w1 (inr kv) asked h' = elim (Bool-cases (kv.instance_id == d.instance_id)) [
        | inl own ↦
            let (w2, (err, d2), renewed, h2) =
              resume-eq-value (λ x. pure x.1) (renew_leadership N formats d tick w1) w' d'
                (ground arith) in
            info-Owned N formats lawful w w1 w' kv i asked (ground arith) (
              subst (λ x. Follows N formats lawful (now N w1) (now N x)) (ground arith)
                (Moves-eq N formats lawful (renew_leadership N formats d tick) w1 w2 _
                  (Moves-renew_leadership N formats lawful d tick) renewed))
        | inr other ↦ absurd (ground arith)
      ]

  campaign_lost-state :
      (d d' : ElectionManager N.Session) (w w' : N.World)
      → campaign_lost N formats d w ≡ (w', value d')
      → d'.state ≡ NodeState.follower
  unfolding campaign_lost reset_follower
  campaign_lost-state d d' w w' h =
      let (w1, s, asked, h') = resume-eq-value _ (reset_session N d.session w) w' d' h in
      unfold resume in ground arith

  campaign_reads-own :
      (d : ElectionManager N.Session) (info : Error ⊎ Kv)
      → d.state ≡ NodeState.follower
      → (campaign_reads N formats d info).state ≡ NodeState.leader
      → (kv : Kv) × (info ≡ inr kv) × (kv.instance_id ≡ d.instance_id)
  unfolding campaign_reads reset_follower
  campaign_reads-own d (inl e) f h = absurd (ground arith)
  campaign_reads-own d (inr kv) f h = (kv, refl, ground arith)

  campaign_won-Owned :
      (d d' : ElectionManager N.Session) (i : ℕ) (w w' : N.World)
      → campaign_won N formats d w ≡ (w', value d')
      → d.state ≡ NodeState.follower
      → d'.state ≡ NodeState.leader
      → d.instance_id ≡ suc i
      → Owned N formats lawful (suc i) (now N w) (now N w')
  unfolding campaign_won
  campaign_won-Owned d d' i w w' h follows leads e =
      let (w1, s, completed, h1) =
        resume-eq-value _ (client_proposal_completed N d.session w) w' d' h in
      let (w2, info, asked, h2) =
        resume-eq-value _ (attempt (get_election_info N formats) w1) w' d' h1 in
      let d1 = record d { session = s } in
      let end : d' ≡ campaign_reads N formats d1 info = unfold resume in ground arith in
      let same : w2 ≡ w' = unfold resume in ground arith in
      let (kv, read, own) = campaign_reads-own d1 info follows (ground arith) in
      Owned-wider N formats lawful (suc i) (now N w) (now N w1) (now N w2) (now N w')
        (Moves-eq N formats lawful (client_proposal_completed N d.session) w w1 _
          (Moves-client_proposal_completed N formats lawful d.session) completed)
        (get_election_info-Owned N formats lawful w1 w2 kv i (ground arith) (ground arith))
        (subst (λ x. Follows N formats lawful (now N w2) (now N x)) same still)

  after_campaign-Owned :
      (d d' : ElectionManager N.Session) (result : Error ⊎ ℕ) (i : ℕ) (w w' : N.World)
      → after_campaign N formats d result w ≡ (w', value d')
      → d.state ≡ NodeState.follower
      → d'.state ≡ NodeState.leader
      → d.instance_id ≡ suc i
      → Owned N formats lawful (suc i) (now N w) (now N w')
  unfolding after_campaign
  after_campaign-Owned d d' (inl err) i w w' h follows leads e =
      let lost = campaign_lost-state d d' w w' h in absurd (ground arith)
  after_campaign-Owned d d' (inr code) i w w' h follows leads e =
      elim (Bool-cases (code == db_kv_updated)) [
        | inl taken ↦ campaign_won-Owned d d' i w w' (ground arith) follows leads e
        | inr other ↦
            let lost = campaign_lost-state d d' w w' (ground arith) in absurd (ground arith)
      ]

  campaign_with-Owned :
      (d d' : ElectionManager N.Session) (tick : ℕ) (session : Option N.Session) (i : ℕ)
      (w w' : N.World)
      → campaign_with N formats d tick session w ≡ (w', value d')
      → d.state ≡ NodeState.follower
      → d'.state ≡ NodeState.leader
      → d.instance_id ≡ suc i
      → Owned N formats lawful (suc i) (now N w) (now N w')
  unfolding campaign_with
  campaign_with-Owned d d' tick none i w w' h follows leads e = absurd (ground arith)
  campaign_with-Owned d d' tick (some s) i w w' h follows leads e =
      let call = attempt (make_drummer_vote N formats s (vote d (old_instance_id d) tick)) in
      let (w1, result, voted, h1) = resume-eq-value _ (call w) w' d' h in
      Owned-wider N formats lawful (suc i) (now N w) (now N w1) (now N w') (now N w')
        (Moves-eq N formats lawful call w w1 _
          (Moves-attempt N formats lawful _
            (Moves-make_drummer_vote N formats lawful s (vote d (old_instance_id d) tick)))
          voted)
        (after_campaign-Owned (record d { session = some s }) d' result i w1 w' h1 follows leads e)
        still

  campaign-Owned :
      (d d' : ElectionManager N.Session) (tick i : ℕ) (w w' : N.World)
      → campaign N formats d tick w ≡ (w', value d')
      → is_leader d ≡ false
      → d'.state ≡ NodeState.leader
      → d.instance_id ≡ suc i
      → Owned N formats lawful (suc i) (now N w) (now N w')
  unfolding campaign
  campaign-Owned d d' tick i w w' h follows leads e =
      let (w1, session, got, h1) =
        resume-eq-value (campaign_with N formats d tick) (get_session N d.session w) w' d'
          (ground arith) in
      Owned-wider N formats lawful (suc i) (now N w) (now N w1) (now N w') (now N w')
        (Moves-eq N formats lawful (get_session N d.session) w w1 _
          (Moves-get_session N formats lawful d.session) got)
        (campaign_with-Owned d d' tick session i w1 w' h1 (is_leader-state d follows) leads e) still

  follow-Owned :
      (d d' : ElectionManager N.Session) (tick i : ℕ) (seen : Outcome LeaderInfo) (w w' : N.World)
      → follow N formats d tick seen w ≡ (w', value d')
      → is_leader d ≡ false
      → d'.state ≡ NodeState.leader
      → d.instance_id ≡ suc i
      → Owned N formats lawful (suc i) (now N w) (now N w')
  unfolding follow is_leader
  follow-Owned d d' tick i (panic p) w w' h follows leads e = absurd (ground arith)
  follow-Owned d d' tick i (ok l) w w' h follows leads e =
      elim (Bool-cases (leader_dead (some l))) [
        | inl dead ↦
            campaign-Owned (record d { current_leader = some l }) d' tick i w w' (ground arith)
              follows leads e
        | inr alive ↦ absurd (ground (arith, is_leader-state d follows))
      ]

  after_own-world :
      (renewal : Renewal N formats) (d' : ElectionManager N.Session) (w w' : N.World)
      → after_own N formats renewal w ≡ (w', value d')
      → w ≡ w'
  unfolding after_own
  after_own-world (some err, d1) d' w w' h = ground arith
  after_own-world (none, d1) d' w w' h = ground arith

  follower_main-Owned :
      (d d' : ElectionManager N.Session) (tick i : ℕ) (w w' : N.World)
      → follower_main N formats d tick w ≡ (w', value d')
      → is_leader d ≡ false
      → d'.state ≡ NodeState.leader
      → d.instance_id ≡ suc i
      → Owned N formats lawful (suc i) (now N w) (now N w')
  unfolding follower_main follower_reads reset_follower
  follower_main-Owned d d' tick i w w' h follows leads e =
      let (w1, info, asked, h') =
        resume-eq-value _ (attempt (get_election_info N formats) w) w' d' h in
      let moved =
        Moves-eq N formats lawful (attempt (get_election_info N formats)) w w1 _
          (Moves-attempt N formats lawful _ (Moves-get_election_info N formats lawful)) asked in
      go w1 info asked h' moved
    where
      go :
          (w1 : N.World) (info : Error ⊎ Kv)
          → attempt (get_election_info N formats) w ≡ (w1, value info)
          → follower_reads N formats d tick info w1 ≡ (w', value d')
          → Follows N formats lawful (now N w) (now N w1)
          → Owned N formats lawful (suc i) (now N w) (now N w')
      go w1 (inl err) asked h' moved = absurd (ground arith)
      go w1 (inr kv) asked h' moved = elim (Bool-cases (kv.instance_id == 0)) [
        | inl vacant ↦
            Owned-wider N formats lawful (suc i) (now N w) (now N w1) (now N w') (now N w') moved
              (campaign-Owned d d' tick i w1 w' (ground arith) follows leads e) still
        | inr held ↦ elim (Bool-cases (kv.instance_id == d.instance_id)) [
          | inl own ↦
              let (w2, renewal, renewed, h2) =
                resume-eq-value (after_own N formats) (renew_leadership N formats d tick w1) w' d'
                  (ground arith) in
              info-Owned N formats lawful w w1 w' kv i asked (ground arith) (
                subst (λ x. Follows N formats lawful (now N w1) (now N x))
                  (after_own-world renewal d' w2 w' h2)
                  (Moves-eq N formats lawful (renew_leadership N formats d tick) w1 w2 _
                    (Moves-renew_leadership N formats lawful d tick) renewed))
          | inr other ↦
              Owned-wider N formats lawful (suc i) (now N w) (now N w1) (now N w') (now N w') moved
                (follow-Owned d d' tick i (set_leader_info d.current_leader (seen_leader kv)) w1 w'
                  (ground arith) follows leads e)
                still
        ]
      ]

  -- A worker that has a nonzero id and that leads when its turn is over, whatever it was before and
  -- whatever the others did in the meantime, has been named by the election's record of the DB as the
  -- owner of the leadership at some moment of the turn: a moment of the history that the DB really
  -- took, as its log pins it.
  pub turn-Owned :
      (d d' : ElectionManager N.Session) (tick i : ℕ) (w w' : N.World)
      → turn N formats d tick w ≡ (w', value d')
      → d'.state ≡ NodeState.leader
      → d.instance_id ≡ suc i
      → (x : Moment) × Grows formats (now N w) x
        × Grows formats x (now N w')
        × ((kv : Kv) × (stored formats.kv x.db election_key ≡ some kv)
            × (kv.instance_id ≡ d.instance_id))
  unfolding turn
  turn-Owned d d' tick i w w' h leads e =
      let (x, before, later, (kv, there, owns)) = owned in
      (x, before, later, (kv, there, owns ∙ sym e))
    where
      owned : Owned N formats lawful (suc i) (now N w) (now N w')
      owned = elim (Bool-cases (is_leader d)) [
        | inl leading ↦ leader_main-Owned d d' tick i w w' (ground arith) leads e
        | inr following ↦ follower_main-Owned d d' tick i w w' (ground arith) following leads e
      ]
