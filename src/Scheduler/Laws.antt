-- ===== src/Scheduler/Laws.antt =====
-- scheduler.go: what a repair is.
use drummer.Base.{
  ℕ, ◌+◌, ◌%◌, ◌≡◌, ◌<◌, true, List, some, [], ◌∷◌, length, none, false, map, get_elem?, nat_eq,
  Bytes, arith, Bool-cases, Option-cases, inl, inr, subst,
}
use drummer.Base.Map.{values}
use drummer.Pb.{NodeHostRequest, RequestType}
use drummer.ShardImage.{Replica}
use drummer.ShardImage.Repair.{
  ShardRepair, available, delete_required, create_required, add_required,
}
use drummer.NodeHostImage.{NodeHostSpec}
use drummer.Selector.{Draws}
use drummer.Scheduler.{
  value, >>=-eq-value, Scheduler, get_shard_size, get_app_name, get_repair_create_request,
  get_create_request,
}
use drummer.Scheduler.Repairs.{
  first_replica, random_address, random_id, delete_request, add_request, get_repair_delete_request,
  get_repair_add_request, get_replacement_node, add_on, repair_delete, repair_create, repair_add,
  repair_shard,
}

-- `x` stands in the list.
abbrev pub IsIn {ℓ} : {A : Type ℓ} → List A → A → Type ℓ
IsIn xs x = (i : ℕ) × (get_elem? xs i ≡ some x)

-- What the repair of a shard may be. A replica is deleted or added only where the shard has a
-- quorum of running replicas, by a request to one of them that holds at the known configuration
-- alone; it is deleted only where the shard is too large.
pub data IsRepair (s : Scheduler) (cr : ShardRepair) : List NodeHostRequest → Type 0 where
  nothing : IsRepair s cr []
  deletes :
      (size : ℕ) (n member : Replica)
      → get_shard_size s cr.shard_id ≡ value size
      → size < length cr.failed_replicas + length cr.ok_replicas
      → available cr ≡ true
      → IsIn cr.failed_replicas n
      → IsIn cr.ok_replicas member
      → IsRepair s cr (
          record {
            change = some (record {
              type = RequestType.delete;
              shard_id = cr.shard_id;
              members = n.replica_id ∷ [];
              app_name = [];
              conf_change_id = cr.shard.config_change_index;
            });
            replica_id_list = [];
            address_list = [];
            instantiate_replica_id = 0;
            raft_address = member.address;
            join = false;
            restore = false;
            app_name = [];
            config = none;
          }
          ∷ [])
  starts :
      (n : Replica) (app_name : Bytes)
      → get_app_name s cr.shard_id ≡ value app_name
      → IsIn cr.replicas_to_start n
      → IsRepair s cr (
          record {
            change = some (record {
              type = RequestType.create;
              shard_id = cr.shard.shard_id;
              members = map (λ (m : Replica). m.replica_id) (values cr.shard.replicas);
              app_name = [];
              conf_change_id = 0;
            });
            replica_id_list = map (λ (m : Replica). m.replica_id) (values cr.shard.replicas);
            address_list = map (λ (m : Replica). m.address) (values cr.shard.replicas);
            instantiate_replica_id = n.replica_id;
            raft_address = n.address;
            join = true;
            restore = false;
            app_name = app_name;
            config = some s.config;
          }
          ∷ [])
  adds :
      (new_replica_id : ℕ) (v : NodeHostSpec) (member : Replica)
      → available cr ≡ true
      → length cr.replicas_to_start ≡ 0
      → 0 < length cr.failed_replicas
      → IsIn cr.ok_replicas member
      → IsRepair s cr (
          record {
            change = some (record {
              type = RequestType.add;
              shard_id = cr.shard_id;
              members = new_replica_id ∷ [];
              app_name = [];
              conf_change_id = cr.shard.config_change_index;
            });
            replica_id_list = [];
            address_list = v.address ∷ [];
            instantiate_replica_id = 0;
            raft_address = member.address;
            join = false;
            restore = false;
            app_name = [];
            config = none;
          }
          ∷ [])

first_replica-IsIn : (ns : List Replica) (n : Replica) → first_replica ns ≡ value n → IsIn ns n
unfolding first_replica
first_replica-IsIn [] n h = absurd (ground arith)
first_replica-IsIn (m ∷ ns) n h = (0, ground arith)

random_address-IsIn :
    (ns : List Replica) (draws : Draws) (address : Bytes) (draws' : Draws)
    → random_address ns draws ≡ value (address, draws')
    → (n : Replica) × IsIn ns n × (address ≡ n.address)
unfolding random_address
random_address-IsIn ns [] address draws' h = absurd (ground arith)
random_address-IsIn ns (r ∷ draws) address draws' h =
    elim (Option-cases (get_elem? ns (r % length ns))) [
      | inl missing ↦ absurd (ground arith)
      | inr (n, found) ↦ (n, (r % length ns, found), ground arith)
    ]

repair_delete-IsRepair :
    (s : Scheduler) (cr : ShardRepair) (size : ℕ) (draws : Draws) (reqs : List NodeHostRequest)
    (draws' : Draws)
    → get_shard_size s cr.shard_id ≡ value size
    → delete_required cr size ≡ true
    → repair_delete cr draws ≡ value (reqs, draws')
    → IsRepair s cr reqs
unfolding repair_delete get_repair_delete_request delete_required
repair_delete-IsRepair s cr size draws reqs draws' sized required h =
    let (n, e, h') = >>=-eq-value (first_replica cr.failed_replicas) _ (reqs, draws') h in
    let ((req, rest), e', h'') =
      >>=-eq-value (get_repair_delete_request n cr draws) _ (reqs, draws') h' in
    let ((address, rest'), e'', h''') =
      >>=-eq-value (random_address cr.ok_replicas draws) _ (req, rest) e' in
    let (member, stands, same) = random_address-IsIn cr.ok_replicas draws address rest' e'' in
    let only : delete_request cr n member.address ∷ [] ≡ reqs = ground arith in
    subst (IsRepair s cr) only (
      deletes size n member sized (ground arith) (ground arith)
        (first_replica-IsIn cr.failed_replicas n e) stands)

repair_create-IsRepair :
    (s : Scheduler) (cr : ShardRepair) (draws : Draws) (reqs : List NodeHostRequest)
    (draws' : Draws)
    → repair_create s cr draws ≡ value (reqs, draws')
    → IsRepair s cr reqs
unfolding repair_create get_repair_create_request get_create_request
repair_create-IsRepair s cr draws reqs draws' h =
    let (n, e, h') = >>=-eq-value (first_replica cr.replicas_to_start) _ (reqs, draws') h in
    let (app_name, e', h'') = >>=-eq-value (get_app_name s cr.shard_id) _ (reqs, draws') h' in
    let only : get_repair_create_request s n cr.shard app_name ∷ [] ≡ reqs = ground arith in
    subst (IsRepair s cr) only (starts n app_name e' (first_replica-IsIn cr.replicas_to_start n e))

add_on-IsRepair :
    (s : Scheduler) (cr : ShardRepair) (selected : List NodeHostSpec) (draws : Draws)
    (req : NodeHostRequest) (draws' : Draws)
    → add_required cr ≡ true
    → add_on cr selected draws ≡ value (req, draws')
    → IsRepair s cr (req ∷ [])
unfolding add_on add_required random_id
add_on-IsRepair s cr [] draws req draws' required h = absurd (ground arith)
add_on-IsRepair s cr (v ∷ w ∷ vs) draws req draws' required h = absurd (ground arith)
add_on-IsRepair s cr (v ∷ []) draws req draws' required h =
    let ((address, mid), e, h') =
      >>=-eq-value (random_address cr.ok_replicas draws) _ (req, draws') h in
    let ((id, last), e', h'') = >>=-eq-value (random_id mid) _ (req, draws') h' in
    let (member, stands, same) = random_address-IsIn cr.ok_replicas draws address mid e in
    let only : add_request cr id v.address member.address ≡ req = ground arith in
    subst (λ r. IsRepair s cr (r ∷ [])) only
      (adds id v member (ground arith) (ground arith) (ground arith) stands)

repair_add-IsRepair :
    (s : Scheduler) (cr : ShardRepair) (draws : Draws) (reqs : List NodeHostRequest)
    (draws' : Draws)
    → add_required cr ≡ true
    → repair_add s cr draws ≡ value (reqs, draws')
    → IsRepair s cr reqs
unfolding repair_add get_repair_add_request
repair_add-IsRepair s cr draws reqs draws' required h =
    let (n, e, h') = >>=-eq-value (first_replica cr.failed_replicas) _ (reqs, draws') h in
    let ((req, rest), e', h'') =
      >>=-eq-value (get_repair_add_request s n cr draws) _ (reqs, draws') h' in
    let ((selected, mid), e'', h''') =
      >>=-eq-value (get_replacement_node s n draws) _ (req, rest) e' in
    let only : req ∷ [] ≡ reqs = ground arith in
    subst (IsRepair s cr) only (add_on-IsRepair s cr selected mid req rest required h''')

-- The requests that `repair` writes for a shard, where it writes them: none, or one that deletes a
-- failed replica of a shard that is too large, or one that starts a waiting replica, or one that
-- adds a replica to a shard with a failed one and none that waits. A replica is deleted or added
-- only where a quorum runs, by way of a running replica, at the configuration that is known.
pub repair_shard-IsRepair :
    (s : Scheduler) (cr : ShardRepair) (draws : Draws) (reqs : List NodeHostRequest)
    (draws' : Draws)
    → repair_shard s cr draws ≡ value (reqs, draws')
    → IsRepair s cr reqs
unfolding repair_shard
repair_shard-IsRepair s cr draws reqs draws' h =
    let (size, e, h') = >>=-eq-value (get_shard_size s cr.shard_id) _ (reqs, draws') h in
    elim (Bool-cases (delete_required cr size)) [
      | inl first ↦ repair_delete-IsRepair s cr size draws reqs draws' e first (ground arith)
      | inr other ↦ elim (Bool-cases (create_required cr)) [
        | inl second ↦ repair_create-IsRepair s cr draws reqs draws' (ground arith)
        | inr other' ↦ elim (Bool-cases (add_required cr)) [
          | inl third ↦ repair_add-IsRepair s cr draws reqs draws' third (ground arith)
          | inr other'' ↦ let only : [] ≡ reqs = ground arith in subst (IsRepair s cr) only nothing
        ]
      ]
    ]
