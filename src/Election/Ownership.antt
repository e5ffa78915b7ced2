-- ===== src/Election/Ownership.antt =====
-- election.go and db.go: how a record of the DB, such as that of the election, changes its owner.
use drummer.Base.{
  refl, ℕ, ◌≡◌, ◌∙◌, false, ◌⊎◌, inl, inr, Option, some, Bytes, ◌==◌, bytes_eq, bytes_beq_iff,
  nat_eq, ok, Codec, arith, Bool-cases, ◌&&◌,
}
use drummer.Base.Map.{insert}
use drummer.Pb.{Kv, Update}
use drummer.Db.State.{Db, launched_key}
use drummer.Db.Operations.{update, apply_kv_update}
use drummer.Db.KeyValue.{stored, written, verdict, apply_kv_update-written}
use drummer.Db.Launch.{ordinary, first_launch, ignored, apply_requests_update-Accepted}
use drummer.Db.Frame.{
  Applied, by_shard, by_kv, by_report, by_requests, by_tick, update-Applied,
  apply_tick_update-frame, apply_node_host_info_update-frame, apply_shard_update-frame,
}
use drummer.Db.History.{Reach, here, next, stored-congr, stored-insert-launched}

-- What one command may make of the record under a key: it stays, or a write to the key replaces a
-- record that is not finalized, by its owner or by one that names the owner as the old one.
abbrev Takeover : Bytes → Kv → Kv → Type 0
Takeover k old new =
    (new ≡ old)
    ⊎ ((old.finalized ≡ false)
        × (new.key ≡ k)
        × ((new.instance_id ≡ old.instance_id) ⊎ (new.old_instance_id ≡ old.instance_id)))

module _ (codec : Codec Kv) where
  written-Takeover :
      (k : Bytes) (old w : Kv) (d d' : Db) (v : ℕ)
      → apply_kv_update codec d w ≡ ok (d', v)
      → stored codec d k ≡ some old
      → (new : Kv) × (stored codec d' k ≡ some new) × Takeover k old new
  unfolding written verdict
  written-Takeover k old w d d' v h there =
      let (answer, reads, rest) = apply_kv_update-written codec d w d' v h in
      elim (Bool-cases (w.key == k && (verdict (stored codec d w.key) w == 0))) [
        | inr kept ↦ (old, ground (arith, reads k), inl refl)
        | inl taken ↦
            let same : w.key ≡ k = ground (arith, bytes_beq_iff w.key k) in
            let mine : stored codec d w.key ≡ some old = rw same there in
            let free : old.finalized ≡ false = ground arith in
            let by : (w.instance_id ≡ old.instance_id) ⊎ (w.old_instance_id ≡ old.instance_id) =
              elim (Bool-cases (old.instance_id == w.instance_id)) [
                | inl own ↦ inl (ground arith)
                | inr other ↦ inr (ground arith)
              ] in
            (w, ground (arith, reads k), inr (free, same, by))
      ]

  kept-Takeover :
      (k : Bytes) (old : Kv) (d d' : Db)
      → stored codec d' k ≡ some old
      → (new : Kv) × (stored codec d' k ≡ some new) × Takeover k old new
  kept-Takeover k old d d' there = (old, there, inl refl)

  Applied-Takeover :
      (k : Bytes) (old : Kv) (d d' : Db) (v : ℕ)
      → Applied codec d d' v
      → stored codec d k ≡ some old
      → (new : Kv) × (stored codec d' k ≡ some new) × Takeover k old new
  Applied-Takeover k old d d' v (by_shard c h) there =
      kept-Takeover k old d d'
        (stored-congr codec d d' k (apply_shard_update-frame d c d' v h).0 ∙ there)
  Applied-Takeover k old d d' v (by_kv w h) there = written-Takeover k old w d d' v h there
  Applied-Takeover k old d d' v (by_report nhi h) there = kept-Takeover k old d d' (
      stored-congr codec d d' k (apply_node_host_info_update-frame d nhi d' v h).same_kv_map
      ∙ there)
  Applied-Takeover k old d d' v (by_requests reqs h) there =
      elim (apply_requests_update-Accepted codec d reqs d' v h) [
        | ordinary kind e' n ↦
            kept-Takeover k old d d' (stored-congr codec d d' k (ground arith) ∙ there)
        | first_launch b kind new encoded e' n ↦ kept-Takeover k old d d' (
            stored-congr codec (record d { kv_map = insert launched_key b d.kv_map }) d' k
              (ground arith)
            ∙ stored-insert-launched codec d b k old new there)
        | ignored kind present e' n ↦ kept-Takeover k old d d' (rw e' there)
      ]
  Applied-Takeover k old d d' v (by_tick h) there =
      kept-Takeover k old d d'
        (stored-congr codec d d' k (apply_tick_update-frame d d' v h).0.same_kv_map ∙ there)

  Reach-has :
      (unmarshal_update : Bytes → Option Update) (d x : Db) (first : Kv) (k : Bytes)
      → stored codec d k ≡ some first
      → Reach codec unmarshal_update d x
      → (old : Kv) × (stored codec x k ≡ some old)
  Reach-has um d x first k there here = (first, there)
  Reach-has um d x first k there (next {d' = d1} cmd v r e) =
      let (old, held) = Reach-has um d d1 first k there r in
      let (new, held', how) =
        Applied-Takeover k old d1 x v (update-Applied codec um d1 cmd x v e).1 held in
      (new, held')

  -- A key that has a record has one at each point of every history of commands that the DB accepts,
  -- and a command makes another record of it only where the one that stands there is not finalized
  -- and the new one is written to the key by its owner, or by one that names its owner as the old one.
  pub Reach-Takeover :
      (unmarshal_update : Bytes → Option Update) (d x x' : Db) (first : Kv) (k cmd : Bytes) (v : ℕ)
      → stored codec d k ≡ some first
      → Reach codec unmarshal_update d x
      → update codec unmarshal_update x cmd ≡ ok (x', v)
      → (old new : Kv) × (stored codec x k ≡ some old)
        × (stored codec x' k ≡ some new)
        × ((new ≡ old)
            ⊎ ((old.finalized ≡ false)
                × (new.key ≡ k)
                × ((new.instance_id ≡ old.instance_id) ⊎ (new.old_instance_id ≡ old.instance_id))))
  Reach-Takeover um d x x' first k cmd v there r e =
      let (old, held) = Reach-has um d x first k there r in
      let (new, held', how) =
        Applied-Takeover k old x x' v (update-Applied codec um x cmd x' v e).1 held in
      (old, new, held, held', how)
