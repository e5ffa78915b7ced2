-- ===== src/Tests/Choices.antt =====
-- The filters and the selector, over three nodehosts.
use drummer.Base as Base
use drummer.Base.{
  ℕ, zero, suc, ◌≡◌, ◌≢◌, refl, ◌<◌, ◌↔◌, ◌⊎◌, ◌%◌, Bool, true, false, ◌&&◌, ◌||◌, ltb, bytes_eq,
  List, [], ◌∷◌, Option, none, some, length, any, All, Bytes, bytes, nat_eq, ◌==◌, sub_u64, arith,
  get_elem?, not, bytes_beq,
}
use drummer.Base.Map.{has, lookup}
use drummer.Settings.{node_host_ttl}
use drummer.ShardImage.{entity_failed}
use drummer.NodeHostImage.{NodeHostSpec, available}
use drummer.Filter.{
  NodeHostFilter, filter, filter_all, without_shard, is_live, in_region, drummer_filter,
  drummer_region_filter,
}
use drummer.Filter.Laws.{filter-drummer_region_filter, is_live_iff_available}
use drummer.Selector.{Draws, contains, select, pick, find_suitable_node_host}
use drummer.Selector.Choice.{
  IsDistinct, find_suitable_node_host_valid, find_suitable_node_host_total,
}

program : Unit {0}
unfolding lookup has Base.filter any sub_u64 entity_failed available filter filter_all without_shard
    is_live in_region contains select pick find_suitable_node_host bytes_beq
program = tt

abbrev host : Bytes → ℕ → NodeHostSpec
host address tick = record {
  address = address;
  rpc_address = [];
  region = bytes "r1";
  tick = tick;
  persistent_log = [];
  shards = [];
}

-- The first two are live at tick 100, and the third is not.
abbrev hosts : List NodeHostSpec
hosts = host (bytes "a1") 90 ∷ host (bytes "a2") 95 ∷ host (bytes "a3") 10 ∷ []

abbrev live : NodeHostFilter
live = drummer_filter 1 100 60

-- The source draws position 0 twice before it draws position 1.
abbrev draws : Draws
draws = 4 ∷ 0 ∷ 7 ∷ 9 ∷ []

abbrev both : List NodeHostSpec
both = host (bytes "a1") 90 ∷ host (bytes "a2") 95 ∷ []

chosen_hosts : find_suitable_node_host live hosts 2 draws ≡ some (both, 9 ∷ [])
unfolding program
chosen_hosts = refl

too_many : find_suitable_node_host live hosts 3 draws ≡ some ([], draws)
unfolding program
too_many = refl

-- A nodehost that was heard of exactly 60 ticks ago is available and not live.
exactly_at_ttl :
    (is_live 100 node_host_ttl (host [] 40) ≡ false) × (available (host [] 40) 100 ≡ true)
unfolding program
exactly_at_ttl = (refl, refl)

filter-drummer_region_filter_example :
    filter (drummer_region_filter (bytes "r1") 1 100 60) hosts
    ≡ Base.filter
        (λ v. (ltb (sub_u64 100 v.tick) 60 && not (has 1 v.shards)) && bytes "r1" == v.region)
        hosts
filter-drummer_region_filter_example = filter-drummer_region_filter (bytes "r1") 1 100 60 hosts

is_live_iff_available_example :
    ((is_live 100 node_host_ttl (host [] 40) ≡ true)
      ↔ ((available (host [] 40) 100 ≡ true) × (sub_u64 100 40 ≢ node_host_ttl)))
    × (available (host [] 40) 100
        ≡ (is_live 100 node_host_ttl (host [] 40) || sub_u64 100 40 == node_host_ttl))
is_live_iff_available_example = is_live_iff_available 100 (host [] 40)

abbrev IsRecent : NodeHostSpec → Type 0
IsRecent v = 50 < v.tick

both-IsRecent : All IsRecent (filter live hosts)
unfolding program
both-IsRecent = (omega arith, (omega arith, tt))

find_suitable_node_host_valid_example :
    ((length (filter live hosts) < 2) × (both ≡ []))
    ⊎ ((chosen : List ℕ) × IsDistinct chosen
        × (both ≡ pick (filter live hosts) chosen)
        × (length both ≡ 2)
        × All IsRecent both)
find_suitable_node_host_valid_example =
    find_suitable_node_host_valid live hosts 2 draws both (9 ∷ []) IsRecent (omega arith)
      both-IsRecent chosen_hosts

draws_reach :
    (i : ℕ)
    → i < length (filter live hosts)
    → any (λ r. i == r % length (filter live hosts)) draws ≡ true
unfolding program
draws_reach zero lt = refl
draws_reach (suc zero) lt = refl
draws_reach (suc (suc i)) lt = absurd (omega arith)

find_suitable_node_host_total_example :
    (r : List NodeHostSpec × Draws) × (find_suitable_node_host live hosts 2 draws ≡ some r)
find_suitable_node_host_total_example = find_suitable_node_host_total live hosts 2 draws draws_reach
