-- ===== src/Db/Launch.antt =====
-- db.go: `applyRequestsUpdate`, the launch requests among them.
use drummer.Base.{
  ℕ, ◌*◌, ◌≡◌, true, false, some, Bytes, bytes_eq, ok, Codec, arith, Option-cases, Outcome-cases,
  Bool-cases, [], inl, inr, length, add_u64,
}
use drummer.Base.Map.{has, insert}
use drummer.Pb.{Kv, NodeHostRequestCollection}
use drummer.Settings.{launch_deadline_tick, tick_interval_second}
use drummer.Db.State.{Db, launched, launched_key}
use drummer.Db.Operations.{
  is_launch_requests, group_by_address, put_requests, launched_kv, set_launched, start_launch,
  apply_requests_update, apply_kv_update,
}

-- The DB with the requests of a collection put in the place of those that their addresses had.
abbrev pub with_requests : Db → NodeHostRequestCollection → Db
with_requests d reqs = record d {
  requests = put_requests (group_by_address reqs.requests []) d.requests;
}

-- The same, marked as launched by the bytes `b` of the flag's record.
abbrev pub with_launch : Db → NodeHostRequestCollection → Bytes → Db
with_launch d reqs b = record (with_requests d reqs) {
  kv_map = insert launched_key b d.kv_map;
  launch_deadline = add_u64 d.tick (launch_deadline_tick * tick_interval_second);
}

module _ (codec : Codec Kv) where
  set_launched_cases :
      (d d' : Db)
      → launched d ≡ false
      → set_launched codec d ≡ ok d'
      → (b : Bytes) × (codec.marshal (launched_kv codec) ≡ some b)
        × (d' ≡ record d { kv_map = insert launched_key b d.kv_map })
  unfolding set_launched apply_kv_update launched has
  set_launched_cases d d' fresh h = elim (Option-cases (codec.marshal (launched_kv codec))) [
    | inl refused ↦ absurd (ground arith)
    | inr (b, encoded) ↦ (b, encoded, ground arith)
  ]

  -- What an accepted collection of requests does: an ordinary one and the first launch are stored,
  -- and a launch of a launched DB is ignored.
  pub data Accepted (d : Db) (reqs : NodeHostRequestCollection) (d' : Db) (v : ℕ) : Type 0 where
    ordinary :
        is_launch_requests reqs ≡ ok false
        → d' ≡ with_requests d reqs
        → v ≡ length reqs.requests
        → Accepted d reqs d' v
    first_launch :
        (b : Bytes)
        → is_launch_requests reqs ≡ ok true
        → launched d ≡ false
        → codec.marshal (launched_kv codec) ≡ some b
        → d' ≡ with_launch d reqs b
        → v ≡ length reqs.requests
        → Accepted d reqs d' v
    ignored :
        is_launch_requests reqs ≡ ok true
        → launched d ≡ true
        → d' ≡ d
        → v ≡ 0
        → Accepted d reqs d' v

  pub apply_requests_update-Accepted :
      (d : Db) (reqs : NodeHostRequestCollection) (d' : Db) (v : ℕ)
      → apply_requests_update codec d reqs ≡ ok (d', v)
      → Accepted d reqs d' v
  unfolding apply_requests_update start_launch launched
  apply_requests_update-Accepted d reqs d' v h = elim (Outcome-cases (is_launch_requests reqs)) [
    | inl (p, failed) ↦ absurd (ground arith)
    | inr (false, kind) ↦ ordinary kind (ground arith) (ground arith)
    | inr (true, kind) ↦ elim (Bool-cases (launched d)) [
      | inl old ↦ ignored kind old (ground arith) (ground arith)
      | inr new ↦ elim (Outcome-cases (set_launched codec (with_requests d reqs))) [
        | inl (p, failed) ↦ absurd (ground arith)
        | inr (d'', done) ↦
            let (b, encoded, e) =
              set_launched_cases (with_requests d reqs) d'' (new_requests new) done in
            first_launch b kind new encoded (ground arith) (ground arith)
      ]
    ]
  ]
    where
      new_requests : launched d ≡ false → launched (with_requests d reqs) ≡ false
      new_requests new = new
