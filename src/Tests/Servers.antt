-- ===== src/Tests/Servers.antt =====
-- The server over a NodeHost of one DB: the bootstrap flag, the deployment id and an election.
use drummer.Base.{
  All, false, ℕ, ◌≡◌, refl, [], ◌∷◌, Option, none, some, any, Bytes, bytes, nat_eq, bytes_eq,
  bytes_beq, arith,
}
use drummer.Base.Map.{lookup, has, insert}
use drummer.Pb.{Kv, UpdateType, ChangeResponseCode}
use drummer.Db.State.{new_db, assert_not_failed, bootstrapped, bootstrapped_key, deployment_id_key}
use drummer.Db.Operations.{
  update, apply, replace_kv, apply_kv_update, create_shard, try_create_shard, apply_shard_update,
}
use drummer.Db.KeyValue.{stored, verdict}
use drummer.Db.History.{here}
use drummer.Db.Lookups.{Formats, find_kv, handle_kv_lookup, answer, lookup_query, kv_response}
use drummer.Raft.{value, resume, Moment, still}
use drummer.Server.Finality.{WritesFinal}
use drummer.Server.{
  blank_update, kv_update, kv_request, finalized_kv, read, lookup_db, lookup_kv, kv_result,
  propose_drummer_update, propose_finalized_kv, try_get_session, get_session,
}
use drummer.Server.Requests.{
  change_response, finalized_response, flag_value, closing, with_session, submit_change,
  set_finalized_kv, set_bootstrapped, get_election_info, make_drummer_vote, parse_id,
  get_deployment_id, set_deployment_id,
}
use drummer.Server.Agreement.{set_bootstrapped-submit_change, set_deployment_id-agree}
use drummer.Sessions as Sessions
use drummer.Sessions.{attempt, reset_session, client_proposal_completed}
use drummer.Tests.Samples.{kv_of, put_bytes, take_bytes, marshal_kv, unmarshal_kv, define}
use drummer.Tests.Formats.{
  decide, nat_discrete, find, sample, put_sample, take_sample, known_formats,
}
use drummer.Tests.Hosts.{local_read, local_propose, local, local-IsLawful}

unfoldable pub server_program : Unit {0}
unfolding lookup has insert any bytes_beq new_db assert_not_failed bootstrapped update apply
    replace_kv apply_kv_update create_shard try_create_shard apply_shard_update stored verdict
    find_kv handle_kv_lookup answer lookup_query resume read lookup_db lookup_kv kv_result
    propose_drummer_update propose_finalized_kv try_get_session get_session change_response
    finalized_response flag_value closing with_session submit_change set_finalized_kv
    set_bootstrapped get_election_info make_drummer_vote parse_id get_deployment_id
    set_deployment_id attempt Sessions.get_session reset_session client_proposal_completed kv_of
    put_bytes take_bytes marshal_kv unmarshal_kv decide nat_discrete find sample put_sample
    take_sample local_read local_propose
server_program = tt

abbrev start : Moment
start = record { db = new_db 0 1; log = [] }

-- A numeral of one byte.
abbrev numeral : ℕ → Bytes
numeral n = n ∷ []

abbrev number : Bytes → Option ℕ
number [] = none
number (n ∷ b) = some n

abbrev first_id : Kv
first_id = finalized_kv deployment_id_key (numeral 77) 0

abbrev second_id : Kv
second_id = finalized_kv deployment_id_key (numeral 88) 0

-- The formats of the runs on the deployment id. They know a write that is not finalized as well.
abbrev id_formats : Formats
id_formats =
    known_formats
      (kv_update first_id
        ∷ kv_update second_id
        ∷ kv_update (record first_id { finalized = false })
        ∷ [])
      (kv_request deployment_id_key ∷ []) (kv_response first_id ∷ []) []

-- The formats of the runs on the flag.
abbrev flag_formats : Formats
flag_formats =
    known_formats
      (kv_update (finalized_kv bootstrapped_key (bytes "true") 0)
        ∷ record (blank_update UpdateType.shard) { change = some define }
        ∷ [])
      [] [] []

booted : Moment
unfolding server_program
booted = (set_bootstrapped (local flag_formats) flag_formats start).0

late :
    (submit_change (local flag_formats) flag_formats define booted).1
    ≡ value (record { code = ChangeResponseCode.bootstrapped })
unfolding server_program booted
late = refl

set_bootstrapped-submit_change_example :
    (ChangeResponseCode.bootstrapped ≡ ChangeResponseCode.bootstrapped)
    × ((submit_change (local flag_formats) flag_formats define booted).0.db.shards
        ≡ booted.db.shards)
unfolding server_program booted
set_bootstrapped-submit_change_example =
    set_bootstrapped-submit_change (local flag_formats) flag_formats (local-IsLawful flag_formats)
      define start booted booted (submit_change (local flag_formats) flag_formats define booted).0
      (record { code = ChangeResponseCode.ok }) (record { code = ChangeResponseCode.bootstrapped })
      refl here refl

-- The commands of the two servers, on top of each other.
both_commands : All (WritesFinal id_formats) ((1 ∷ []) ∷ (0 ∷ []) ∷ [])
unfolding server_program
both_commands = (
  λ u kv decoded type written key. ground arith,
  (λ u kv decoded type written key. ground arith, tt),
)

-- The first server draws 77, the second 88.
named : Moment
unfolding server_program
named = (set_deployment_id (local id_formats) id_formats numeral number tt 77 start).0

named_again : Moment
unfolding server_program named
named_again = (set_deployment_id (local id_formats) id_formats numeral number tt 88 named).0

abbrev given : ℕ
given = 77

-- The world that a read leaves, once both have set the id.
named_last : Moment
unfolding server_program named named_again
named_last = (get_deployment_id (local id_formats) id_formats numeral number named_again).0

set_deployment_id-agree_example : (given ≡ given) × (given ≡ given)
unfolding server_program named named_again named_last
set_deployment_id-agree_example =
    set_deployment_id-agree (local id_formats) id_formats (local-IsLawful id_formats) numeral number
      (λ n. refl) tt tt given 88 given given given start named named named_again named_again
      named_last (λ kv there. absurd (ground arith)) both_commands refl still refl still refl
