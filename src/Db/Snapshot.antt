-- ===== src/Db/Snapshot.antt =====
-- db.go: `SaveSnapshot` and `RecoverFromSnapshot`. JSON is not part of the repository: the
-- two functions of its package are parameters. The tags `json:"-"` keep the two ids out of it.
use drummer.Base.{
  not, ◌==◌, nat_eq, Bytes, Outcome, ok, ◌>>=◌, ◌>>◌, panic_if, Option, or_panic, marshal_failed,
  unmarshal_failed, version_mismatch,
}
use drummer.Db.State.{Db, assert_not_failed}

-- The DB without the fields that JSON leaves out.
unfoldable pub without_ids : Db → Db
without_ids d = record d { shard_id = 0; replica_id = 0 }

module _ (marshal : Db → Option Bytes) (unmarshal : Bytes → Option Db) where
  unfoldable pub save_snapshot : Db → Outcome Bytes
  save_snapshot d = do assert_not_failed d; or_panic (marshal (without_ids d)) marshal_failed

  unfoldable pub recover_from_snapshot : Db → Bytes → Outcome Db
  recover_from_snapshot d data_read = do
    assert_not_failed d
    db ← or_panic (unmarshal data_read) unmarshal_failed
    panic_if (not (d.version == db.version)) version_mismatch
    ok (record d {
      tick = db.tick;
      version = db.version;
      failed = db.failed;
      launch_deadline = db.launch_deadline;
      shards = db.shards;
      kv_map = db.kv_map;
      shard_image = db.shard_image;
      node_host_image = db.node_host_image;
      node_host_info = db.node_host_info;
      requests = db.requests;
      outgoing = db.outgoing;
    })
