-- ===== src/Db/KeyValue.antt =====
-- db.go: `applyKVUpdate` against a store of records, each with an owner, that can be finalized.
use drummer.Base.{
  ℕ, ◌≡◌, inl, inr, ◌&&◌, ◌||◌, Option, none, some, ◌==◌, if◌then◌else◌, Bytes, nat_eq, bytes_eq,
  ok, Codec, arith, Option-cases,
}
use drummer.Base.Map.{lookup, insert, lookup-insert}
use drummer.Pb.{Kv}
use drummer.Db.State.{Db}
use drummer.Db.Operations.{apply_kv_update, replace_kv}

-- What a store of records answers to a write of `kv` where it has `old`.
unfoldable pub verdict : Option Kv → Kv → ℕ
verdict none kv = 0
verdict (some old) kv =
    if old.finalized
    then 1
    else if old.instance_id == kv.instance_id || old.instance_id == kv.old_instance_id
    then 0
    else 2

module _ (codec : Codec Kv) where
  -- The record that the DB has under a key.
  unfoldable pub stored : Db → Bytes → Option Kv
  stored d k = elim (lookup k d.kv_map) [ none ↦ none | some b ↦ codec.unmarshal b ]

  -- The store after a write of `kv`, by the key that is read.
  unfoldable pub written : Db → Kv → Bytes → Option Kv
  unfolding verdict
  written d kv j =
      if kv.key == j && (verdict (stored d kv.key) kv == 0) then some kv else stored d j

  pub stored-insert :
      (d : Db) (kv : Kv) (b : Bytes) (j : Bytes)
      → codec.marshal kv ≡ some b
      → stored (record d { kv_map = insert kv.key b d.kv_map }) j
        ≡ (if kv.key == j then some kv else stored d j)
  unfolding stored
  stored-insert d kv b j h =
      ground (arith, lookup-insert j kv.key b d.kv_map, codec.round_trip kv b h)

  -- What a write that does not panic returns, by what the key had.
  pub apply_kv_update_cases :
      (d : Db) (kv : Kv) (d' : Db) (code : ℕ)
      → apply_kv_update codec d kv ≡ ok (d', code)
      → (b : Bytes) × (codec.marshal kv ≡ some b)
        × (code ≡ verdict (stored d kv.key) kv)
        × (d' ≡ (if code == 0 then record d { kv_map = insert kv.key b d.kv_map } else d))
  unfolding apply_kv_update replace_kv stored verdict
  apply_kv_update_cases d kv d' code h = elim (Option-cases (codec.marshal kv)) [
    | inl refused ↦ absurd (ground arith)
    | inr (b, encoded) ↦ (b, encoded, ground arith, ground arith)
  ]

  -- A write that does not panic acts on the records as on a store with owners: its code is the
  -- verdict on the record that the key had, each key then reads what `written` says, and nothing
  -- else of the DB changes.
  pub apply_kv_update-written :
      (d : Db) (kv : Kv) (d' : Db) (code : ℕ)
      → apply_kv_update codec d kv ≡ ok (d', code)
      → (code ≡ verdict (stored d kv.key) kv)
        × ((j : Bytes) → stored d' j ≡ written d kv j)
        × (d' ≡ record d { kv_map = d'.kv_map })
  unfolding written
  apply_kv_update-written d kv d' code h =
      let (b, encoded, answer, after) = apply_kv_update_cases d kv d' code h in
      (answer, λ j. ground (arith, stored-insert d kv b j encoded), ground arith)
