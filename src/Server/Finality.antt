-- ===== src/Server/Finality.antt =====
-- db.go: histories whose commands write only finalized records of the deployment id.
use drummer.Base.{
  ℕ, ◌≡◌, refl, ◌∙◌, inl, inr, true, some, Bytes, bytes_eq, bytes_beq_iff, ok, arith, Bool-cases,
  Option-cases, subst, sym, bytes_beq, All, ◌&&◌, ◌==◌, nat_eq,
}
use drummer.Base.Map.{insert, lookup-insert}
use drummer.Db.Launch.{ordinary, first_launch, ignored, apply_requests_update-Accepted}
use drummer.Db.Frame.{
  apply_tick_update-frame, apply_node_host_info_update-frame, apply_shard_update-frame,
}
use drummer.Pb.{Kv, Update, NodeHostRequestCollection, UpdateType}
use drummer.Db.State.{Db, launched_key, assert_not_failed, deployment_id_key}
use drummer.Db.Operations.{update, apply_requests_update, apply, apply_kv_update}
use drummer.Db.KeyValue.{stored, verdict, written, apply_kv_update-written}
use drummer.Db.History.{stored-congr}
use drummer.Db.Lookups.{Formats}
use drummer.Raft.{Moment, Grows, still, grown}

module _ (formats : Formats) where
  -- The record of the id in the DB, if there is one, is finalized.
  abbrev pub AllFinal : Db → Type 0
  AllFinal d = (kv : Kv) → stored formats.kv d deployment_id_key ≡ some kv → kv.finalized ≡ true

  -- A command that, where it writes a record of the id, writes one that is finalized.
  abbrev pub WritesFinal : Bytes → Type 0
  WritesFinal cmd =
      (u : Update) (kv : Kv)
      → formats.update.unmarshal cmd ≡ some u
      → u.type ≡ UpdateType.kv
      → u.kv_update ≡ some kv
      → kv.key ≡ deployment_id_key
      → kv.finalized ≡ true

  pub Grows-All : {a b : Moment} → Grows formats a b → All WritesFinal b.log → All WritesFinal a.log
  Grows-All still all = all
  Grows-All (grown {m' = m'} cmd v r e l) all = Grows-All r (subst (All WritesFinal) l all).1

  written-AllFinal :
      (d d' : Db) (w : Kv) (v : ℕ)
      → apply_kv_update formats.kv d w ≡ ok (d', v)
      → (w.key ≡ deployment_id_key → w.finalized ≡ true)
      → AllFinal d
      → AllFinal d'
  unfolding written
  written-AllFinal d d' w v h final all kv there =
      let (answer, reads, rest) = apply_kv_update-written formats.kv d w d' v h in
      let read_there = reads deployment_id_key in
      elim (Bool-cases
        (w.key == deployment_id_key && (verdict (stored formats.kv d w.key) w == 0))) [
          | inl taken ↦
              let own = final (ground (arith, bytes_beq_iff w.key deployment_id_key)) in
              ground arith
          | inr kept ↦ all kv (ground arith)
        ]

  kept-AllFinal :
      (d d' : Db)
      → stored formats.kv d' deployment_id_key ≡ stored formats.kv d deployment_id_key
      → AllFinal d
      → AllFinal d'
  kept-AllFinal d d' same all kv there = all kv (sym same ∙ there)

  requests-AllFinal :
      (reqs : NodeHostRequestCollection) (d d' : Db) (v : ℕ)
      → apply_requests_update formats.kv d reqs ≡ ok (d', v)
      → AllFinal d
      → AllFinal d'
  requests-AllFinal reqs d d' v h = elim (apply_requests_update-Accepted formats.kv d reqs d' v h) [
    | ordinary kind e n ↦ kept-AllFinal d d' (stored-congr formats.kv d d' _ (ground arith))
    | first_launch b kind new encoded e n ↦ kept-AllFinal d d' (
        stored-congr formats.kv (record d { kv_map = insert launched_key b d.kv_map }) d' _
          (ground arith)
        ∙ unfold stored bytes_beq in
          ground (arith, lookup-insert deployment_id_key launched_key b d.kv_map))
    | ignored kind present e n ↦ kept-AllFinal d d' (stored-congr formats.kv d d' _ (ground arith))
  ]

  apply-AllFinal :
      (t : UpdateType) (u : Update) (d d' : Db) (v : ℕ)
      → u.type ≡ t
      → apply formats.kv d u ≡ ok (d', v)
      → ((kv : Kv)
          → t ≡ UpdateType.kv
          → u.kv_update ≡ some kv
          → kv.key ≡ deployment_id_key
          → kv.finalized ≡ true)
      → AllFinal d
      → AllFinal d'
  unfolding apply
  apply-AllFinal UpdateType.shard u d d' v t h final = elim (Option-cases u.change) [
    | inl absent ↦ absurd (ground arith)
    | inr (c, there) ↦
        kept-AllFinal d d'
          (stored-congr formats.kv d d' _ (apply_shard_update-frame d c d' v (ground arith)).0)
  ]
  apply-AllFinal UpdateType.kv u d d' v t h final = elim (Option-cases u.kv_update) [
    | inl absent ↦ absurd (ground arith)
    | inr (w, there) ↦ written-AllFinal d d' w v (ground arith) (final w refl there)
  ]
  apply-AllFinal UpdateType.nodehost_info u d d' v t h final = elim (Option-cases u.nodehost_info) [
    | inl absent ↦ absurd (ground arith)
    | inr (nhi, there) ↦ kept-AllFinal d d' (
        stored-congr formats.kv d d' _
          (apply_node_host_info_update-frame d nhi d' v (ground arith)).same_kv_map)
  ]
  apply-AllFinal UpdateType.requests u d d' v t h final = elim (Option-cases u.requests) [
    | inl absent ↦ absurd (ground arith)
    | inr (reqs, there) ↦ requests-AllFinal reqs d d' v (ground arith)
  ]
  apply-AllFinal UpdateType.tick u d d' v t h final =
      kept-AllFinal d d' (
        stored-congr formats.kv d d' _
          (apply_tick_update-frame d d' v (ground arith)).0.same_kv_map)
  apply-AllFinal (UpdateType.other n) u d d' v t h final = absurd (ground arith)

  update-AllFinal :
      (cmd : Bytes) (d d' : Db) (v : ℕ)
      → update formats.kv formats.update.unmarshal d cmd ≡ ok (d', v)
      → WritesFinal cmd
      → AllFinal d
      → AllFinal d'
  unfolding update assert_not_failed
  update-AllFinal cmd d d' v h final = elim (Option-cases (formats.update.unmarshal cmd)) [
    | inl bad ↦ absurd (ground arith)
    | inr (u, decoded) ↦
        apply-AllFinal u.type u d d' v refl (ground arith) (λ kv. final u kv decoded)
  ]

  pub Grows-AllFinal :
      {a b : Moment} → Grows formats a b → All WritesFinal b.log → AllFinal a.db → AllFinal b.db
  Grows-AllFinal still all first = first
  Grows-AllFinal (grown {m' = m'} {m'' = m''} cmd v r e l) all first =
      let (final, rest) = subst (All WritesFinal) l all in
      update-AllFinal cmd m'.db m''.db v e final (Grows-AllFinal r rest first)
