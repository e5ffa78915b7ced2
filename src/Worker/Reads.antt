-- ===== src/Worker/Reads.antt =====
-- server.go and drummer.go: what the reads of a round say of the DB, over a lawful NodeHost.
use drummer.Base.{
  bytes_beq, bytes_beq_iff, ℕ, ◌≡◌, refl, sym, ◌∙◌, ◌⊎◌, inl, inr, Bool, true, false, List, Option,
  none, some, [], ◌∷◌, unmarshal_failed, Bytes, bytes, bytes_eq, Outcome, ok, panic, arith,
  Option-cases, Outcome-cases, Bool-cases, subst, ◌||◌, ◌==◌, if◌then◌else◌, leb, length,
}
use drummer.Base.Map.{lookup, has, values}
use drummer.Pb.{Kv, LookupRequestType, NodeHostCollection, Regions}
use drummer.Db.State.{Db, SchedulerContext, bootstrapped, bootstrapped_key, launched_key}
use drummer.Db.Lookups.{Formats, find_kv, find_regions, answer, handle_scheduler_context_lookup}
use drummer.Raft.{Grows, Moment, now, value, resume, resume-eq-value, NodeHost, IsLawful}
use drummer.Server.{blank_request, read, lookup_kv, kv_result}
use drummer.Server.Requests.{
  flag_value, get_boolean_kv, get_bootstrapped, get_launched, get_scheduler_context,
  get_node_host_collection,
}
use drummer.Server.Laws.{Follows, or_crash-eq-value, read_lem, lookup_kv_lem}

-- The copy of a DB, but for the regions.
abbrev pub copy_of : Db → Option Regions → SchedulerContext
copy_of d regions = record {
  tick = d.tick;
  shards = d.shards;
  regions = regions;
  shard_image = d.shard_image;
  node_host_image = d.node_host_image;
  node_host_info = d.node_host_info;
}

-- What JSON makes of the copy of a DB.
abbrev pub Copied : Formats → Db → SchedulerContext → Type 0
Copied formats d sc =
    (regions : Option Regions) × (b : Bytes) × (find_regions formats d ≡ ok regions)
    × (formats.context.marshal (copy_of d regions) ≡ some b)
    × (formats.context.unmarshal b ≡ some sc)

flag_value-empty : {W : Type 0} (w : W) → flag_value [] w ≡ (w, value false)
unfolding flag_value drummer.Base.bytes_beq
flag_value-empty w = refl

-- A flag that is read is read as true exactly where it is written `true`.
flag_value-reads :
    {W : Type 0} (v : Bytes) (w w' : W) (b : Bool)
    → flag_value v w ≡ (w', value b)
    → b ≡ (v == bytes "true")
unfolding flag_value bytes_beq
flag_value-reads v w w' b h = elim (Bool-cases (v == bytes "true")) [
  | inl exact ↦
      let same : v ≡ bytes "true" = ground (arith, bytes_beq_iff v (bytes "true")) in
      let read : flag_value (bytes "true") w ≡ (w', value b) =
        subst (λ x. flag_value x w ≡ (w', value b)) same h in
      rw exact (ground arith)
  | inr differs ↦ rw differs (ground arith)
]

flag_value-world :
    {W : Type 0} (v : Bytes) (w w' : W) (b : Bool) → flag_value v w ≡ (w', value b) → w ≡ w'
unfolding flag_value
flag_value-world v w w' b h = ground arith

module _ (N : NodeHost) (formats : Formats) (lawful : IsLawful N formats) where
  -- A copy that is read is one of the DB at some moment of the call.
  pub get_scheduler_context_lem :
      (w w' : N.World) (sc : SchedulerContext)
      → get_scheduler_context N formats w ≡ (w', value sc)
      → (d : Moment) × Follows N formats lawful (now N w) d
        × Follows N formats lawful d (now N w')
        × Copied formats d.db sc
  unfolding get_scheduler_context answer handle_scheduler_context_lookup
  get_scheduler_context_lem w w' sc h =
      let req = blank_request LookupRequestType.scheduler_context in
      let (w1, b, asked, h') = resume-eq-value _ (read N formats req w) w' sc h in
      let (d, before, later, e) = read_lem N formats lawful req w w1 b asked in
      elim (Outcome-cases (find_regions formats d.db)) [
        | inl (p, stuck) ↦ absurd (ground arith)
        | inr (regions, found) ↦
            let encoded : formats.context.marshal (copy_of d.db regions) ≡ some b =
              elim (Option-cases (formats.context.marshal (copy_of d.db regions))) [
                | inl refused ↦ absurd (ground arith)
                | inr (b', e') ↦ ground arith
              ] in
            let (decoded, same) =
              or_crash-eq-value (formats.context.unmarshal b) unmarshal_failed w1 w' sc h' in
            (
              d,
              before,
              subst (λ x. Follows N formats lawful d (now N x)) same later,
              (regions, b, found, encoded, decoded),
            )
      ]

  -- The reports that a drummer counts are those of a copy of the DB at some moment of the call.
  pub get_node_host_collection_lem :
      (w w' : N.World) (c : NodeHostCollection)
      → get_node_host_collection N formats w ≡ (w', value c)
      → (d : Moment) × (seen : SchedulerContext) × Follows N formats lawful (now N w) d
        × Follows N formats lawful d (now N w')
        × Copied formats d.db seen
        × (c.collection ≡ values seen.node_host_info)
  unfolding get_node_host_collection
  get_node_host_collection_lem w w' c h =
      let (w1, sc, asked, h') = resume-eq-value _ (get_scheduler_context N formats w) w' c h in
      let (d, before, later, copied) = get_scheduler_context_lem w w1 sc asked in
      (
        d,
        sc,
        before,
        subst (λ x. Follows N formats lawful d (now N x)) (ground arith) later,
        copied,
        ground arith,
      )

  -- Where the flag reads true, the DB was bootstrapped at some moment of the call.
  pub get_bootstrapped_lem :
      (w w' : N.World)
      → get_bootstrapped N formats w ≡ (w', value true)
      → (d : Moment) × Follows N formats lawful (now N w) d
        × Follows N formats lawful d (now N w')
        × (bootstrapped d.db ≡ true)
  unfolding get_bootstrapped get_boolean_kv kv_result bootstrapped has find_kv
  get_bootstrapped_lem w w' h =
      let (w1, resp, asked, h1) =
        resume-eq-value _ (lookup_kv N formats bootstrapped_key w) w' true h in
      let (d, kv, before, later, found, e) =
        lookup_kv_lem N formats lawful bootstrapped_key w w1 resp asked in
      let read : flag_value kv.value w1 ≡ (w', value true) = unfold resume in ground arith in
      let same = flag_value-world kv.value w1 w' true read in
      (
        d,
        before,
        subst (λ x. Follows N formats lawful d (now N x)) same later,
        elim (Option-cases (lookup bootstrapped_key d.db.kv_map)) [
          | inl absent ↦ absurd (ground (arith, flag_value-empty w1))
          | inr (b, there) ↦ ground arith
        ],
      )

  -- The flag of the launch is what its record says at some moment of the call.
  pub get_launched_lem :
      (w w' : N.World) (launched : Bool)
      → get_launched N formats w ≡ (w', value launched)
      → (m : Moment) × (kv : Kv) × Grows formats (now N w) m
        × Grows formats m (now N w')
        × (find_kv formats.response formats.kv m.db launched_key ≡ ok kv)
        × (launched ≡ (kv.value == bytes "true"))
  unfolding get_launched get_boolean_kv kv_result
  get_launched_lem w w' launched h =
      let (w1, resp, asked, h1) =
        resume-eq-value _ (lookup_kv N formats launched_key w) w' launched h in
      let (m, kv, before, later, found, e) =
        lookup_kv_lem N formats lawful launched_key w w1 resp asked in
      let read : flag_value kv.value w1 ≡ (w', value launched) = unfold resume in ground arith in
      let same = flag_value-world kv.value w1 w' launched read in
      (
        m,
        kv,
        before,
        subst (λ x. Grows formats m (now N x)) same later,
        found,
        flag_value-reads kv.value w1 w' launched read,
      )
