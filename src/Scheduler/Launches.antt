-- ===== src/Scheduler/Launches.antt =====
-- scheduler.go: the first launch of the defined shards. A count of a region is taken to fit an
-- `int`, as `int(regions.Count[idx])` keeps it then.
use drummer.Base.{
  ℕ, false, List, Option, none, some, [], ◌∷◌, ◌++◌, length, ltb, if◌then◌else◌, Bytes, nil_pointer,
  index_out_of_range,
}
use drummer.Pb as Pb
use drummer.Pb.{Regions, RequestType, NodeHostRequest}
use drummer.Settings.{node_host_ttl}
use drummer.NodeHostImage.{NodeHostSpec}
use drummer.Filter.{drummer_region_filter}
use drummer.Selector.{Draws}
use drummer.Scheduler.{Attempt, value, refused, panicked, ◌>>=◌, not_enough_in_regions, Scheduler}
use drummer.Scheduler.Repairs.{choose}

-- The loop over the regions. A region with no count is an index out of range.
unfoldable pub select_in_regions :
    Scheduler → ℕ → List Bytes → List ℕ → Draws → Attempt (List NodeHostSpec × Draws)
select_in_regions s shard_id [] counts draws = value ([], draws)
select_in_regions s shard_id (reg ∷ regs) [] draws = panicked index_out_of_range
select_in_regions s shard_id (reg ∷ regs) (cnt ∷ counts) draws = do
  (region_replicas, draws') ←
      choose (drummer_region_filter reg shard_id s.tick node_host_ttl) s.node_host_list cnt draws
  (rest, draws'') ← select_in_regions s shard_id regs counts draws'
  value (region_replicas ++ rest, draws'')

-- The addresses of the members: `selected[idx].Address` for each index of a member.
unfoldable pub member_addresses : List ℕ → List NodeHostSpec → Attempt (List Bytes)
member_addresses [] selected = value []
member_addresses (m ∷ ms) [] = panicked index_out_of_range
member_addresses (m ∷ ms) (v ∷ vs) = do rest ← member_addresses ms vs; value (v.address ∷ rest)

abbrev pub launch_request : Scheduler → Pb.Shard → List Bytes → ℕ → NodeHostSpec → NodeHostRequest
launch_request s shard address_list m target_node = record {
  change = some (record {
    type = RequestType.create;
    shard_id = shard.shard_id;
    members = shard.members;
    app_name = [];
    conf_change_id = 0;
  });
  replica_id_list = shard.members;
  address_list = address_list;
  instantiate_replica_id = m;
  raft_address = target_node.address;
  join = false;
  restore = false;
  app_name = shard.app_name;
  config = some s.config;
}

-- The loop over `selected`, which reads `shard.Members[idx]` at each of its indices.
unfoldable pub launch_requests :
    Scheduler → Pb.Shard → List Bytes → List ℕ → List NodeHostSpec → Attempt (List NodeHostRequest)
launch_requests s shard addresses ms [] = value []
launch_requests s shard addresses [] (v ∷ vs) = panicked index_out_of_range
launch_requests s shard addresses (m ∷ ms) (v ∷ vs) = do
  rest ← launch_requests s shard addresses ms vs
  value (launch_request s shard addresses m v ∷ rest)

-- The round of the loop over the shards, behind the test for enough nodehosts.
unfoldable pub launch_members :
    Scheduler → Pb.Shard → List NodeHostSpec → Draws → Attempt (List NodeHostRequest × Draws)
launch_members s shard selected draws = do
  addresses ← member_addresses shard.members selected
  reqs ← launch_requests s shard addresses shard.members selected
  value (reqs, draws)

unfoldable pub launch_on :
    Scheduler → Pb.Shard → List NodeHostSpec → Draws → Attempt (List NodeHostRequest × Draws)
launch_on s shard selected draws =
    if ltb (length selected) (length shard.members)
    then refused not_enough_in_regions
    else launch_members s shard selected draws

-- One round of the loop. `regions` is a nil pointer where none are set.
unfoldable pub launch_shard :
    Scheduler → Option Regions → Pb.Shard → Draws → Attempt (List NodeHostRequest × Draws)
launch_shard s none shard draws = panicked nil_pointer
launch_shard s (some regions) shard draws = do
  (selected, draws') ← select_in_regions s shard.shard_id regions.region regions.count draws
  launch_on s shard selected draws'

unfoldable pub get_launch_requests :
    Scheduler → List Pb.Shard → Option Regions → Draws → Attempt (List NodeHostRequest × Draws)
get_launch_requests s [] regions draws = value ([], draws)
get_launch_requests s (shard ∷ shards) regions draws = do
  (reqs, draws') ← launch_shard s regions shard draws
  (rest, draws'') ← get_launch_requests s shards regions draws'
  value (reqs ++ rest, draws'')

unfoldable pub launch : Scheduler → Draws → Attempt (List NodeHostRequest × Draws)
launch s draws = get_launch_requests s s.shards s.regions draws
