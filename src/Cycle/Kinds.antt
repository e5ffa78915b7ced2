-- ===== src/Cycle/Kinds.antt =====
-- scheduler.go, drummer.go and db.go: the requests of a cycle as `isLaunchRequests` of the DB, which
-- panics on a mix of launch requests with others, tells them apart.
use drummer.Base.{
  ℕ, ◌+◌, ◌≡◌, refl, false, inl, inr, List, [], ◌∷◌, ◌++◌, map, nat_eq, ok, arith, Bool-cases,
  Outcome-cases,
}
use drummer.Base.Map.{has}
use drummer.Pb.{NodeHostRequest}
use drummer.ShardImage.{Replica, ReplicaToKill}
use drummer.ShardImage.Repair.{ShardRepair, delete_required, create_required, add_required}
use drummer.NodeHostImage.{IdSet, NodeHostSpec}
use drummer.Selector.{Draws}
use drummer.Db.Operations.{is_launch_request, count_launch_requests, is_launch_requests}
use drummer.Scheduler.{
  value, >>=-eq-value, Scheduler, get_app_name, get_shard_size, get_kill_request,
  kill_zombie_replicas, get_create_request, get_repair_create_request, get_restore_create_request,
}
use drummer.Scheduler.Repairs.{
  first_replica, get_repair_delete_request, get_repair_add_request, get_replacement_node, add_on,
  random_address, random_id, repair_delete, repair_create, repair_add, repair_shard,
  repair_unless_restored, repair_all, repair,
}
use drummer.Scheduler.Restores.{
  restore_replicas, mark, unavailable_to_restore, failed_to_restore, restore_unavailable,
  restore_unavailable_shards, restore_failed_shards, restore_failed, restore,
}
use drummer.Cycle.{restored_shards, validated, maintain_shards}

pub count-append :
    (xs ys : List NodeHostRequest) (m n : ℕ)
    → count_launch_requests xs ≡ ok m
    → count_launch_requests ys ≡ ok n
    → count_launch_requests (xs ++ ys) ≡ ok (m + n)
unfolding count_launch_requests
count-append [] ys m n h k = ground arith
count-append (x ∷ xs) ys m n h k = elim (Outcome-cases (is_launch_request x)) [
  | inl (p, failed) ↦ absurd (ground arith)
  | inr (b, e) ↦ elim (Outcome-cases (count_launch_requests xs)) [
    | inl (p, failed) ↦ absurd (ground arith)
    | inr (c, e') ↦ ground (arith, count-append xs ys c n e' k)
  ]
]

restore_replicas-count :
    (s : Scheduler) (cr : ShardRepair) (ns : List Replica) (reqs : List NodeHostRequest)
    → restore_replicas s cr ns ≡ value reqs
    → count_launch_requests reqs ≡ ok 0
unfolding restore_replicas count_launch_requests is_launch_request get_restore_create_request
    get_create_request
restore_replicas-count s cr [] reqs h = ground arith
restore_replicas-count s cr (n ∷ ns) reqs h =
    let (app_name, named, h') = >>=-eq-value (get_app_name s cr.shard_id) _ reqs h in
    let (rest, done, h'') = >>=-eq-value (restore_replicas s cr ns) _ reqs h' in
    ground (arith, restore_replicas-count s cr ns rest done)

restore_unavailable-count :
    (s : Scheduler) (crs : List ShardRepair) (ids : IdSet) (reqs : List NodeHostRequest)
    (ids' : IdSet)
    → restore_unavailable s crs ids ≡ value (reqs, ids')
    → count_launch_requests reqs ≡ ok 0
unfolding restore_unavailable count_launch_requests
restore_unavailable-count s [] ids reqs ids' h = ground arith
restore_unavailable-count s (cr ∷ crs) ids reqs ids' h =
    let nl = unavailable_to_restore s cr in
    let (own, e, h') = >>=-eq-value (restore_replicas s cr nl) _ (reqs, ids') h in
    let ((rest, ids''), e', h'') =
      >>=-eq-value (restore_unavailable s crs (mark cr.shard_id nl ids)) _ (reqs, ids') h' in
    ground (
      arith,
      count-append own rest 0 0 (restore_replicas-count s cr nl own e)
          (restore_unavailable-count s crs (mark cr.shard_id nl ids) rest ids'' e'),
    )

restore_failed_shards-count :
    (s : Scheduler) (done : IdSet) (crs : List ShardRepair) (reqs : List NodeHostRequest)
    → restore_failed_shards s done crs ≡ value reqs
    → count_launch_requests reqs ≡ ok 0
unfolding restore_failed_shards count_launch_requests
restore_failed_shards-count s done [] reqs h = ground arith
restore_failed_shards-count s done (cr ∷ crs) reqs h =
    let nl = failed_to_restore s done cr in
    let (own, e, h') = >>=-eq-value (restore_replicas s cr nl) _ reqs h in
    let (rest, e', h'') = >>=-eq-value (restore_failed_shards s done crs) _ reqs h' in
    ground (
      arith,
      count-append own rest 0 0 (restore_replicas-count s cr nl own e)
          (restore_failed_shards-count s done crs rest e'),
    )

restore-count :
    (s : Scheduler) (reqs : List NodeHostRequest)
    → restore s ≡ value reqs
    → count_launch_requests reqs ≡ ok 0
unfolding restore restore_unavailable_shards restore_failed
restore-count s reqs h =
    let ((ureqs, done), e, h') =
      >>=-eq-value (restore_unavailable s s.shards_to_repair []) _ reqs h in
    let (more, e', h'') =
      >>=-eq-value (restore_failed_shards s done s.shards_to_repair) _ reqs h' in
    ground (
      arith,
      count-append ureqs more 0 0 (restore_unavailable-count s s.shards_to_repair [] ureqs done e)
          (restore_failed_shards-count s done s.shards_to_repair more e'),
    )

repair_delete-count :
    (cr : ShardRepair) (draws : Draws) (reqs : List NodeHostRequest) (draws' : Draws)
    → repair_delete cr draws ≡ value (reqs, draws')
    → count_launch_requests reqs ≡ ok 0
unfolding repair_delete get_repair_delete_request count_launch_requests is_launch_request
repair_delete-count cr draws reqs draws' h =
    let (n, e, h') = >>=-eq-value (first_replica cr.failed_replicas) _ (reqs, draws') h in
    let ((req, rest), e', h'') =
      >>=-eq-value (get_repair_delete_request n cr draws) _ (reqs, draws') h' in
    let ((address, rest'), e'', h''') =
      >>=-eq-value (random_address cr.ok_replicas draws) _ (req, rest) e' in
    ground arith

repair_create-count :
    (s : Scheduler) (cr : ShardRepair) (draws : Draws) (reqs : List NodeHostRequest)
    (draws' : Draws)
    → repair_create s cr draws ≡ value (reqs, draws')
    → count_launch_requests reqs ≡ ok 0
unfolding repair_create get_repair_create_request get_create_request count_launch_requests
    is_launch_request
repair_create-count s cr draws reqs draws' h =
    let (n, e, h') = >>=-eq-value (first_replica cr.replicas_to_start) _ (reqs, draws') h in
    let (app_name, e', h'') = >>=-eq-value (get_app_name s cr.shard_id) _ (reqs, draws') h' in
    ground arith

add_on-count :
    (cr : ShardRepair) (selected : List NodeHostSpec) (draws : Draws) (req : NodeHostRequest)
    (draws' : Draws)
    → add_on cr selected draws ≡ value (req, draws')
    → is_launch_request req ≡ ok false
unfolding add_on is_launch_request
add_on-count cr [] draws req draws' h = absurd (ground arith)
add_on-count cr (v ∷ w ∷ vs) draws req draws' h = absurd (ground arith)
add_on-count cr (v ∷ []) draws req draws' h =
    let ((address, mid), e, h') =
      >>=-eq-value (random_address cr.ok_replicas draws) _ (req, draws') h in
    let ((id, last), e', h'') = >>=-eq-value (random_id mid) _ (req, draws') h' in ground arith

repair_add-count :
    (s : Scheduler) (cr : ShardRepair) (draws : Draws) (reqs : List NodeHostRequest)
    (draws' : Draws)
    → repair_add s cr draws ≡ value (reqs, draws')
    → count_launch_requests reqs ≡ ok 0
unfolding repair_add get_repair_add_request count_launch_requests
repair_add-count s cr draws reqs draws' h =
    let (n, e, h') = >>=-eq-value (first_replica cr.failed_replicas) _ (reqs, draws') h in
    let ((req, rest), e', h'') =
      >>=-eq-value (get_repair_add_request s n cr draws) _ (reqs, draws') h' in
    let ((selected, mid), e'', h''') =
      >>=-eq-value (get_replacement_node s n draws) _ (req, rest) e' in
    ground (arith, add_on-count cr selected mid req rest h''')

repair_shard-count :
    (s : Scheduler) (cr : ShardRepair) (draws : Draws) (reqs : List NodeHostRequest)
    (draws' : Draws)
    → repair_shard s cr draws ≡ value (reqs, draws')
    → count_launch_requests reqs ≡ ok 0
unfolding repair_shard count_launch_requests
repair_shard-count s cr draws reqs draws' h =
    let (size, e, h') = >>=-eq-value (get_shard_size s cr.shard_id) _ (reqs, draws') h in
    elim (Bool-cases (delete_required cr size)) [
      | inl first ↦ repair_delete-count cr draws reqs draws' (ground arith)
      | inr other ↦ elim (Bool-cases (create_required cr)) [
        | inl second ↦ repair_create-count s cr draws reqs draws' (ground arith)
        | inr other' ↦ elim (Bool-cases (add_required cr)) [
          | inl third ↦ repair_add-count s cr draws reqs draws' (ground arith)
          | inr other'' ↦ ground arith
        ]
      ]
    ]

repair_all-count :
    (s : Scheduler) (restored : IdSet) (crs : List ShardRepair) (draws : Draws)
    (reqs : List NodeHostRequest) (draws' : Draws)
    → repair_all s restored crs draws ≡ value (reqs, draws')
    → count_launch_requests reqs ≡ ok 0
unfolding repair_all repair_unless_restored count_launch_requests
repair_all-count s restored [] draws reqs draws' h = ground arith
repair_all-count s restored (cr ∷ crs) draws reqs draws' h =
    let ((own, mid), e, h') =
      >>=-eq-value (repair_unless_restored s restored cr draws) _ (reqs, draws') h in
    let ((rest, last), e', h'') =
      >>=-eq-value (repair_all s restored crs mid) _ (reqs, draws') h' in
    let own_count : count_launch_requests own ≡ ok 0 =
      elim (Bool-cases (has cr.shard_id restored)) [
        | inl skip ↦ ground arith
        | inr keep ↦ repair_shard-count s cr draws own mid (ground arith)
      ] in
    ground (
      arith,
      count-append own rest 0 0 own_count (repair_all-count s restored crs mid rest last e'),
    )

kill-count : (ntks : List ReplicaToKill) → count_launch_requests (map get_kill_request ntks) ≡ ok 0
unfolding count_launch_requests is_launch_request get_kill_request
kill-count [] = refl
kill-count (ntk ∷ ntks) = ground (arith, kill-count ntks)

-- The requests of a cycle that maintains the shards are no launch requests, so the DB takes them as
-- ordinary ones and does not panic on them.
pub maintain_shards-kind :
    (s : Scheduler) (draws : Draws) (reqs : List NodeHostRequest)
    → maintain_shards s draws ≡ value reqs
    → is_launch_requests (record { requests = reqs }) ≡ ok false
unfolding maintain_shards validated repair kill_zombie_replicas is_launch_requests
maintain_shards-kind s draws reqs h =
    let (restores, e, h') = >>=-eq-value (restore s) _ reqs h in
    let (restored, e', h'') = >>=-eq-value (restored_shards restores []) _ reqs h' in
    let ((repairs, rest), e'', h''') =
      >>=-eq-value (repair_all s restored s.shards_to_repair draws) _ reqs h'' in
    let kills = map get_kill_request s.replicas_to_kill in
    let same : (restores ++ repairs) ++ kills ≡ reqs = ground arith in
    let none_of_two : count_launch_requests (restores ++ repairs) ≡ ok 0 =
      count-append restores repairs 0 0 (restore-count s restores e)
        (repair_all-count s restored s.shards_to_repair draws repairs rest e'') in
    ground (
      arith,
      count-append (restores ++ repairs) kills 0 0 none_of_two (kill-count s.replicas_to_kill),
    )
