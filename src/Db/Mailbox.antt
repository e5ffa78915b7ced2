-- ===== src/Db/Mailbox.antt =====
-- db.go: how requests reach the nodehosts. `Requests` holds what is pending for an address, and a
-- report of the nodehost moves it to `Outgoing`, where the answer to the report is read.
use mathlib.Core.List.{append-nil, append_assoc}
use drummer.Base.{
  ℕ, ◌≡◌, ◌⊎◌, ap, refl, sym, ◌∙◌, true, not, ◌||◌, List, [], ◌∷◌, ◌++◌, length, filter, ◌==◌,
  if◌then◌else◌, Bytes, nat_eq, bytes_eq, bytes_beq_iff, ok, Codec, arith, Bool-cases, Option-cases,
  inl, inr,
}
use drummer.Base.Map.{
  Map, IsMap, lookup, has, insert, delete, lookup-insert, lookup-delete, insert-IsMap,
}
use drummer.Pb.{Kv, NodeHostInfo, NodeHostRequest, NodeHostRequestCollection}
use drummer.Db.State.{Db, launched, on_updated_shard_info}
use drummer.Db.Operations.{
  queue, apply_node_host_info_update, hand_over, group_by_address, put_requests, is_launch_requests,
  apply_requests_update,
}
use drummer.Db.Launch.{ordinary, first_launch, ignored, apply_requests_update-Accepted}

-- The requests of a collection that go to an address.
unfoldable pub addressed : Bytes → List NodeHostRequest → List NodeHostRequest
addressed a rs = filter (λ r. r.raft_address == a) rs

-- A report of a nodehost makes exactly what was pending for it outgoing, clears what was pending,
-- returns the number, and leaves the requests of every other address alone.
pub apply_node_host_info_update-mailbox :
    (d : Db) (nhi : NodeHostInfo) (d' : Db) (count : ℕ)
    → apply_node_host_info_update d nhi ≡ ok (d', count)
    → (count ≡ length (queue nhi.raft_address d.requests))
      × ((a : Bytes)
          → (queue a d'.outgoing
              ≡ (if nhi.raft_address == a then queue a d.requests else queue a d.outgoing))
            × (queue a d'.requests ≡ (if nhi.raft_address == a then [] else queue a d.requests)))
unfolding apply_node_host_info_update hand_over on_updated_shard_info queue
apply_node_host_info_update-mailbox d nhi d' count h =
    elim (Option-cases (lookup nhi.raft_address d.requests)) [
      | inl nothing ↦ (
        ground arith,
        λ a. (
          ground (
            arith,
            lookup-delete a nhi.raft_address d.outgoing,
            bytes_beq_iff nhi.raft_address a,
          ),
          ground (arith, bytes_beq_iff nhi.raft_address a),
        ),
      )
      | inr (reqs, pending) ↦ (
        ground arith,
        λ a. (
          ground (
            arith,
            lookup-delete a nhi.raft_address d.outgoing,
            lookup-insert a nhi.raft_address reqs (delete nhi.raft_address d.outgoing),
            bytes_beq_iff nhi.raft_address a,
          ),
          ground (
            arith,
            lookup-delete a nhi.raft_address d.requests,
            bytes_beq_iff nhi.raft_address a,
          ),
        ),
      )
    ]

queue-insert :
    (a k : Bytes) (q : List NodeHostRequest) (m : Map Bytes (List NodeHostRequest))
    → queue a (insert k q m) ≡ (if k == a then q else queue a m)
unfolding queue
queue-insert a k q m = ground (arith, lookup-insert a k q m)

queue-group_by_address :
    (a : Bytes) (rs : List NodeHostRequest) (m : Map Bytes (List NodeHostRequest))
    → queue a (group_by_address rs m) ≡ queue a m ++ addressed a rs
unfolding group_by_address addressed filter
queue-group_by_address a [] m = sym (append-nil (queue a m))
queue-group_by_address a (r ∷ rs) m =
    let k = r.raft_address in
    let m' = insert k (queue k m ++ r ∷ []) m in
    elim (Bool-cases (k == a)) [
      | inl same ↦
          rw (queue-group_by_address a rs m', queue-insert a k (queue k m ++ r ∷ []) m, same)
            (ap (λ x. (queue x m ++ r ∷ []) ++ addressed a rs) ((bytes_beq_iff k a).0 same)
              ∙ append_assoc (queue a m) (r ∷ []) (addressed a rs))
      | inr other ↦
          rw (queue-group_by_address a rs m', queue-insert a k (queue k m ++ r ∷ []) m, other) refl
    ]

group_by_address-IsMap :
    (rs : List NodeHostRequest) (m : Map Bytes (List NodeHostRequest))
    → IsMap m
    → IsMap (group_by_address rs m)
unfolding group_by_address
group_by_address-IsMap [] m w = w
group_by_address-IsMap (r ∷ rs) m w =
    let q = queue r.raft_address m ++ r ∷ [] in
    group_by_address-IsMap rs (insert r.raft_address q m) (insert-IsMap r.raft_address q m w)

-- No address has an empty list.
group_by_address-has :
    (a : Bytes) (rs : List NodeHostRequest) (m : Map Bytes (List NodeHostRequest))
    → has a (group_by_address rs m) ≡ (has a m || not (length (addressed a rs) == 0))
unfolding group_by_address addressed filter has
group_by_address-has a [] m = ground arith
group_by_address-has a (r ∷ rs) m =
    let q = queue r.raft_address m ++ r ∷ [] in
    ground (
      arith,
      group_by_address-has a rs (insert r.raft_address q m),
      lookup-insert a r.raft_address q m,
    )

queue-put_requests :
    (a : Bytes) (m all : Map Bytes (List NodeHostRequest))
    → IsMap m
    → queue a (put_requests m all) ≡ (if has a m then queue a m else queue a all)
unfolding put_requests has queue lookup
queue-put_requests a [] all w = refl
queue-put_requests a ((k, q) ∷ m) all w =
    ground (
      arith,
      queue-put_requests a m (insert k q all) w.1,
      lookup-insert a k q all,
      bytes_beq_iff k a,
    )

-- Accepted requests stand in the queue of their address, in their order and in the place of what was
-- pending for it; an address that gets none keeps its queue. Only a launch of a DB that is launched
-- already is passed over, and then nothing changes.
pub apply_requests_update-mailbox :
    (codec : Codec Kv) (d : Db) (reqs : NodeHostRequestCollection) (d' : Db) (v : ℕ)
    → apply_requests_update codec d reqs ≡ ok (d', v)
    → ((launched d ≡ true) × (is_launch_requests reqs ≡ ok true) × (d' ≡ d) × (v ≡ 0))
      ⊎ ((v ≡ length reqs.requests)
          × ((a : Bytes)
              → queue a d'.requests ≡ (
                  if length (addressed a reqs.requests) == 0
                  then queue a d.requests
                  else addressed a reqs.requests)))
unfolding queue has lookup
apply_requests_update-mailbox codec d reqs d' v h =
    elim (apply_requests_update-Accepted codec d reqs d' v h) [
      | ordinary kind e n ↦ inr (n, λ a. ground (arith, queues a))
      | first_launch b kind new encoded e n ↦ inr (n, λ a. ground (arith, queues a))
      | ignored kind old e n ↦ inl (old, kind, e, n)
    ]
  where
    queues :
        (a : Bytes)
        → queue a (put_requests (group_by_address reqs.requests []) d.requests) ≡ (
            if length (addressed a reqs.requests) == 0
            then queue a d.requests
            else addressed a reqs.requests)
    queues a = ground (
      arith,
      queue-put_requests a (group_by_address reqs.requests []) d.requests
          (group_by_address-IsMap reqs.requests [] tt),
      group_by_address-has a reqs.requests [],
      queue-group_by_address a reqs.requests [],
    )
