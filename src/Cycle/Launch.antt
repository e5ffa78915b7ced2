-- ===== src/Cycle/Launch.antt =====
-- scheduler.go, drummer.go and db.go: the requests of a launch as `isLaunchRequests` of the DB
-- tells them.
use drummer.Base.{
  ◌∙◌, sym, ap, subst, false, ◌++◌, ℕ, ◌≡◌, ◌≤◌, inl, inr, List, Option, none, some, [], ◌∷◌,
  length, ltb, nat_eq, ok, arith, Bool-cases, Bytes, length-append, beq_refl,
}
use drummer.Pb as Pb
use drummer.Pb.{NodeHostRequest, RequestType, Regions}
use drummer.NodeHostImage.{NodeHostSpec}
use drummer.Selector.{Draws}
use drummer.Db.Operations.{is_launch_request, count_launch_requests, is_launch_requests}
use drummer.Scheduler.{value, >>=-eq-value, Scheduler}
use drummer.Scheduler.Launches.{
  launch_requests, launch_members, launch_on, launch_shard, get_launch_requests, launch,
  member_addresses, launch_request, select_in_regions,
}
use drummer.Cycle.Kinds.{count-append}

launch_requests-count :
    (s : Scheduler) (shard : Pb.Shard) (addresses : List Bytes) (ms : List ℕ)
    (vs : List NodeHostSpec) (reqs : List NodeHostRequest)
    → launch_requests s shard addresses ms vs ≡ value reqs
    → (count_launch_requests reqs ≡ ok (length reqs))
      × (length reqs ≡ length vs)
      × (length vs ≤ length ms)
unfolding launch_requests count_launch_requests is_launch_request
launch_requests-count s shard addresses ms [] reqs h = (ground arith, ground arith, omega arith)
launch_requests-count s shard addresses [] (v ∷ vs) reqs h = absurd (ground arith)
launch_requests-count s shard addresses (m ∷ ms) (v ∷ vs) reqs h =
    let (rest, e, h') = >>=-eq-value (launch_requests s shard addresses ms vs) _ reqs h in
    let (c, l, le) = launch_requests-count s shard addresses ms vs rest e in
    (ground arith, ground arith, omega arith)

launch_on-count :
    (s : Scheduler) (shard : Pb.Shard) (selected : List NodeHostSpec) (draws : Draws)
    (reqs : List NodeHostRequest) (draws' : Draws)
    → launch_on s shard selected draws ≡ value (reqs, draws')
    → (count_launch_requests reqs ≡ ok (length reqs)) × (length reqs ≡ length shard.members)
unfolding launch_on launch_members
launch_on-count s shard selected draws reqs draws' h =
    elim (Bool-cases (ltb (length selected) (length shard.members))) [
      | inl few ↦ absurd (ground arith)
      | inr enough ↦
          let h' : launch_members s shard selected draws ≡ value (reqs, draws') = ground arith in
          let (addresses, e, h'') =
            >>=-eq-value (member_addresses shard.members selected) _ (reqs, draws') h' in
          let (own, e', h''') =
            >>=-eq-value (launch_requests s shard addresses shard.members selected) _ (reqs, draws')
              h'' in
          let (c, l, le) = launch_requests-count s shard addresses shard.members selected own e' in
          (ground arith, ground arith)
    ]

launch_shard-count :
    (s : Scheduler) (regions : Option Regions) (shard : Pb.Shard) (draws : Draws)
    (reqs : List NodeHostRequest) (draws' : Draws)
    → launch_shard s regions shard draws ≡ value (reqs, draws')
    → (count_launch_requests reqs ≡ ok (length reqs)) × (length reqs ≡ length shard.members)
unfolding launch_shard
launch_shard-count s none shard draws reqs draws' h = absurd (ground arith)
launch_shard-count s (some regions) shard draws reqs draws' h =
    let ((selected, mid), e, h') =
      >>=-eq-value (select_in_regions s shard.shard_id regions.region regions.count draws) _
        (reqs, draws') h in
    launch_on-count s shard selected mid reqs draws' h'

-- One request for each member and the address at its place: it asks the nodehost at the address to
-- start that member, of a shard with the given members at the given addresses.
unfoldable pub starts :
    Scheduler → Pb.Shard → List Bytes → List ℕ → List Bytes → List NodeHostRequest
starts s c all (m ∷ ms) (a ∷ targets) =
    record {
      change = some (record {
        type = RequestType.create;
        shard_id = c.shard_id;
        members = c.members;
        app_name = [];
        conf_change_id = 0;
      });
      replica_id_list = c.members;
      address_list = all;
      instantiate_replica_id = m;
      raft_address = a;
      join = false;
      restore = false;
      app_name = c.app_name;
      config = some s.config;
    }
    ∷ starts s c all ms targets
starts s c all _ _ = []

-- The requests of a launch of the shards, in their order: each shard gets as many addresses as it has
-- members, and each of its members is to be started at the address of its place.
pub data IsLaunch (s : Scheduler) : List Pb.Shard → List NodeHostRequest → Type 0 where
  no_more : IsLaunch s [] []
  next_shard :
      {cs : List Pb.Shard} {rest : List NodeHostRequest} (c : Pb.Shard) (addresses : List Bytes)
      → length addresses ≡ length c.members
      → IsLaunch s cs rest
      → IsLaunch s (c ∷ cs) (starts s c addresses c.members addresses ++ rest)

launch_requests-starts :
    (s : Scheduler) (c : Pb.Shard) (all : List Bytes) (ms : List ℕ) (vs : List NodeHostSpec)
    (targets : List Bytes) (reqs : List NodeHostRequest)
    → member_addresses ms vs ≡ value targets
    → launch_requests s c all ms vs ≡ value reqs
    → (reqs ≡ starts s c all ms targets) × (length targets ≡ length ms)
unfolding member_addresses launch_requests starts
launch_requests-starts s c all [] [] targets reqs e h = (ground arith, ground arith)
launch_requests-starts s c all [] (v ∷ vs) targets reqs e h = absurd (ground arith)
launch_requests-starts s c all (m ∷ ms) [] targets reqs e h = absurd (ground arith)
launch_requests-starts s c all (m ∷ ms) (v ∷ vs) targets reqs e h =
    let (places', e', e'') = >>=-eq-value (member_addresses ms vs) _ targets e in
    let (rest, h', h'') = >>=-eq-value (launch_requests s c all ms vs) _ reqs h in
    let (same, size) = launch_requests-starts s c all ms vs places' rest e' h' in
    let here : v.address ∷ places' ≡ targets = ground arith in
    let own : launch_request s c all m v ∷ rest ≡ reqs = ground arith in
    (
      sym own
          ∙ ap (λ l. launch_request s c all m v ∷ l) same
          ∙ ap (λ l. starts s c all (m ∷ ms) l) here,
      sym (ap length here) ∙ ground arith,
    )

launch_on-starts :
    (s : Scheduler) (c : Pb.Shard) (selected : List NodeHostSpec) (draws : Draws)
    (reqs : List NodeHostRequest) (draws' : Draws)
    → launch_on s c selected draws ≡ value (reqs, draws')
    → (targets : List Bytes) × (reqs ≡ starts s c targets c.members targets)
      × (length targets ≡ length c.members)
unfolding launch_on launch_members
launch_on-starts s c selected draws reqs draws' h =
    elim (Bool-cases (ltb (length selected) (length c.members))) [
      | inl few ↦ absurd (ground arith)
      | inr enough ↦
          let h' : launch_members s c selected draws ≡ value (reqs, draws') = ground arith in
          let (targets, e, h'') =
            >>=-eq-value (member_addresses c.members selected) _ (reqs, draws') h' in
          let (own, e', h''') =
            >>=-eq-value (launch_requests s c targets c.members selected) _ (reqs, draws') h'' in
          let (same, size) =
            launch_requests-starts s c targets c.members selected targets own e e' in
          let here : own ≡ reqs = ground arith in (targets, sym here ∙ same, size)
    ]

launch_shard-starts :
    (s : Scheduler) (regions : Option Regions) (c : Pb.Shard) (draws : Draws)
    (reqs : List NodeHostRequest) (draws' : Draws)
    → launch_shard s regions c draws ≡ value (reqs, draws')
    → (targets : List Bytes) × (reqs ≡ starts s c targets c.members targets)
      × (length targets ≡ length c.members)
unfolding launch_shard
launch_shard-starts s none c draws reqs draws' h = absurd (ground arith)
launch_shard-starts s (some regions) c draws reqs draws' h =
    let ((selected, mid), e, h') =
      >>=-eq-value (select_in_regions s c.shard_id regions.region regions.count draws) _
        (reqs, draws') h in
    launch_on-starts s c selected mid reqs draws' h'

get_launch_requests-IsLaunch :
    (s : Scheduler) (shards : List Pb.Shard) (regions : Option Regions) (draws : Draws)
    (reqs : List NodeHostRequest) (draws' : Draws)
    → get_launch_requests s shards regions draws ≡ value (reqs, draws')
    → (count_launch_requests reqs ≡ ok (length reqs)) × IsLaunch s shards reqs
unfolding get_launch_requests count_launch_requests
get_launch_requests-IsLaunch s [] regions draws reqs draws' h =
    let empty : [] ≡ reqs = ground arith in (ground arith, subst (IsLaunch s []) empty no_more)
get_launch_requests-IsLaunch s (c ∷ cs) regions draws reqs draws' h =
    let ((own, mid), e, h') = >>=-eq-value (launch_shard s regions c draws) _ (reqs, draws') h in
    let ((rest, last), e', h'') =
      >>=-eq-value (get_launch_requests s cs regions mid) _ (reqs, draws') h' in
    let (counted, size) = launch_shard-count s regions c draws own mid e in
    let (counted', others) = get_launch_requests-IsLaunch s cs regions mid rest last e' in
    let (targets, same, sizes) = launch_shard-starts s regions c draws own mid e in
    let all : own ++ rest ≡ reqs = ground arith in
    (
      ground (
        arith,
        count-append own rest (length own) (length rest) counted counted',
        length-append own rest,
      ),
      subst (IsLaunch s (c ∷ cs)) (sym (ap (λ l. l ++ rest) same) ∙ all)
          (next_shard c targets sizes others),
    )

-- A launch that succeeds asks, shard by shard, for each member of each shard to be started: member by
-- member in their order, at one address each, all with the members and the addresses of the shard, its
-- application and the configuration of the scheduler, and neither joining nor restoring. These are
-- launch requests, so the DB takes them as a launch and does not panic on them, unless there are none.
pub launch-IsLaunch :
    (s : Scheduler) (draws : Draws) (reqs : List NodeHostRequest) (draws' : Draws)
    → launch s draws ≡ value (reqs, draws')
    → IsLaunch s s.shards reqs
      × (is_launch_requests (record { requests = reqs }) ≡ ok (ltb 0 (length reqs)))
unfolding launch is_launch_requests
launch-IsLaunch s draws reqs draws' h =
    let (counted, all) = get_launch_requests-IsLaunch s s.shards s.regions draws reqs draws' h in
    (all, ground (arith, beq_refl (length reqs)))
