-- ===== src/Tests/Elections.antt =====
-- An election by a worker alone, and what a follower makes of another's record.
use drummer.Base.{
  ◌⊎◌, ℕ, ◌≡◌, refl, false, List, [], ◌∷◌, none, some, ok, panic, u64_mod, Bytes, ◌<◌, ltb,
}
use drummer.Pb.{Kv}
use drummer.Db.State.{Db, new_db, election_key}
use drummer.Db.Operations.{update}
use drummer.Db.KeyValue.{stored}
use drummer.Db.History.{here}
use drummer.Raft.{Moment, Grows}
use drummer.Db.Lookups.{Formats, kv_response, empty_kv}
use drummer.Server.{kv_update, kv_request}
use drummer.Election.{
  NodeState, LeaderInfo, ElectionManager, set_leader_info, leader_dead, restart, is_leader,
  become_follower, reset_follower, become_leader, vote, old_instance_id, seen_leader, after_renewal,
  renew_with, renew_leadership, leader_reads, leader_main, campaign_reads, campaign_lost,
  campaign_won, after_campaign, campaign_with, campaign, after_own, follow, follower_reads,
  follower_main, turn,
}
use drummer.Election.Leaders.{turn-Owned}
use drummer.Election.Ownership.{Reach-Takeover}
use drummer.Election.Detection.{watch, stuck, Ticks, watch-leader_dead}
use drummer.Tests.Samples.{kv_format}
use drummer.Tests.Formats.{known_formats}
use drummer.Tests.Hosts.{local, local-IsLawful}
use drummer.Tests.Servers.{server_program}

election_program : Unit {0}
unfolding server_program set_leader_info leader_dead restart is_leader become_follower
    reset_follower become_leader vote old_instance_id after_renewal renew_with renew_leadership
    leader_reads leader_main campaign_reads campaign_lost campaign_won after_campaign campaign_with
    campaign after_own follow follower_reads follower_main turn
election_program = tt

-- Instance 7, at first a follower.
abbrev worker : ElectionManager (Unit {0})
worker = record {
  instance_id = 7;
  current_leader = none;
  state = NodeState.follower;
  session = none;
}

abbrev first_vote : Kv
first_vote = record {
  key = election_key;
  value = election_key;
  instance_id = 7;
  tick = 2;
  old_instance_id = 0;
  finalized = false;
}

abbrev vote_formats : Formats
vote_formats =
    known_formats (kv_update first_vote ∷ []) (kv_request election_key ∷ [])
      (kv_response empty_kv ∷ kv_response first_vote ∷ []) []

abbrev at_first : Moment
at_first = record { db = new_db 0 1; log = [] }

abbrev elected : Moment
elected = (turn (local vote_formats) vote_formats worker 2 at_first).0

turn-Owned_example :
    (x : Moment) × Grows vote_formats at_first x
    × Grows vote_formats x elected
    × ((kv : Kv) × (stored kv_format x.db election_key ≡ some kv) × (kv.instance_id ≡ 7))
unfolding election_program
turn-Owned_example =
    turn-Owned (local vote_formats) vote_formats (local-IsLawful vote_formats) worker
      (record worker { state = NodeState.leader; session = some tt }) 2 6 at_first elected refl refl
      refl

watch-leader_dead_example :
    ((n : ℕ)
      → n < u64_mod
      → (l : LeaderInfo) × (watch (seen_leader first_vote) (stuck n first_vote) ≡ ok l)
        × (leader_dead (some l) ≡ ltb 3 n))
    × ((kvs : List Kv)
        → Ticks 7 2 kvs
        → (l : LeaderInfo) × (watch (seen_leader first_vote) kvs ≡ ok l)
          × (leader_dead (some l) ≡ false))
watch-leader_dead_example = watch-leader_dead first_vote

-- Instance 9 takes the record over from instance 7.
abbrev second_vote : Kv
second_vote = record first_vote { instance_id = 9; tick = 8; old_instance_id = 7 }

abbrev takeover : Formats
takeover = known_formats (kv_update first_vote ∷ kv_update second_vote ∷ []) [] [] []

abbrev after : Bytes → Db → Db
after cmd d = elim (update kv_format takeover.update.unmarshal d cmd) [
  | ok (d', v) ↦ d'
  | panic p ↦ d
]

held : Db
unfolding election_program
held = after (0 ∷ []) (new_db 0 1)

taken : Db
unfolding election_program held
taken = after (1 ∷ []) held

Reach-Takeover_example :
    (old new : Kv) × (stored kv_format held election_key ≡ some old)
    × (stored kv_format taken election_key ≡ some new)
    × ((new ≡ old)
        ⊎ ((old.finalized ≡ false)
            × (new.key ≡ election_key)
            × ((new.instance_id ≡ old.instance_id) ⊎ (new.old_instance_id ≡ old.instance_id))))
unfolding election_program held taken
Reach-Takeover_example =
    Reach-Takeover kv_format takeover.update.unmarshal held held taken first_vote election_key
      (1 ∷ []) 0 refl here refl
