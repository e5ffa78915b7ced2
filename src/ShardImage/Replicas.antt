-- ===== src/ShardImage/Replicas.antt =====
-- shardimage.go: what it is for the replicas of one shard to be well formed, and which steps keep it.
use drummer.Base.{
  ℕ, ◌≡◌, refl, subst, Bool, true, false, List, [], ◌∷◌, some, ◌==◌, if◌then◌else◌, Bytes, nat_eq,
  bytes_eq, ==_iff, ok, >>=-eq-ok, arith, Option-cases, inl, inr,
}
use drummer.Base.Map.{
  Map, IsMap, lookup, insert, delete, modify, map_values, lookup-insert, lookup-delete,
  lookup-modify, lookup-map_values, insert-IsMap, delete-IsMap, modify-IsMap, map_values-IsMap,
}
use drummer.ShardImage.{Replica}
use drummer.ShardImage.Sync.{new_replica, delete_all, add_replica, add_replicas, get_replicas}

-- The replicas of shard `id`: each under its own id, and no two leaders.
pub record IsReplicas (id : ℕ) (rs : Map ℕ Replica) : Type 0 where
  pub is_map : IsMap rs
  pub named : (j : ℕ) (n : Replica) → lookup j rs ≡ some n → (n.replica_id ≡ j) × (n.shard_id ≡ id)
  pub one_leader :
      (i j : ℕ) (n m : Replica)
      → lookup i rs ≡ some n
      → lookup j rs ≡ some m
      → n.is_leader ≡ true
      → m.is_leader ≡ true
      → i ≡ j

pub IsReplicas-nil : (id : ℕ) → IsReplicas id []
unfolding lookup
IsReplicas-nil id = record { is_map = tt; named = λ j n h. cc; one_leader = λ i j n m h. cc }

-- A write of a replica that is no leader.
insert-IsReplicas :
    (id k : ℕ) (r : Replica) (rs : Map ℕ Replica)
    → r.replica_id ≡ k
    → r.shard_id ≡ id
    → r.is_leader ≡ false
    → IsReplicas id rs
    → IsReplicas id (insert k r rs)
insert-IsReplicas id k r rs e s l h = record {
  is_map = insert-IsMap k r rs h.is_map;
  named = λ j n found. ground (arith, lookup-insert j k r rs, ==_iff k j, h.named j n);
  one_leader = λ i j n m p q a b.
      ground (arith, lookup-insert i k r rs, lookup-insert j k r rs, h.one_leader i j n m);
}

delete-IsReplicas : (id k : ℕ) (rs : Map ℕ Replica) → IsReplicas id rs → IsReplicas id (delete k rs)
delete-IsReplicas id k rs h = record {
  is_map = delete-IsMap k rs h.is_map;
  named = λ j n found. ground (arith, lookup-delete j k rs, h.named j n);
  one_leader = λ i j n m p q a b.
      ground (arith, lookup-delete i k rs, lookup-delete j k rs, h.one_leader i j n m);
}

-- What an entry was before a change of the one under `k`.
modify_before :
    (k : ℕ) (f : Replica → Replica) (rs : Map ℕ Replica) (j : ℕ) (n : Replica)
    → lookup j (modify k f rs) ≡ some n
    → (m : Replica) × (lookup j rs ≡ some m) × (n ≡ (if k == j then f m else m))
modify_before k f rs j n found = elim (Option-cases (lookup j rs)) [
  | inl absent ↦ absurd (ground (arith, lookup-modify j k f rs))
  | inr (m, old) ↦ (m, old, ground (arith, lookup-modify j k f rs))
]

-- A change of a replica that keeps its ids and makes no leader of it.
pub modify-IsReplicas :
    (id k : ℕ) (f : Replica → Replica) (rs : Map ℕ Replica)
    → ((n : Replica) → ((f n).replica_id ≡ n.replica_id) × ((f n).shard_id ≡ n.shard_id))
    → ((n : Replica) → (f n).is_leader ≡ true → n.is_leader ≡ true)
    → IsReplicas id rs
    → IsReplicas id (modify k f rs)
modify-IsReplicas id k f rs ids leads h = record {
  is_map = modify-IsMap k f rs h.is_map;
  named = λ j n found.
      let (m, old, e) = modify_before k f rs j n found in ground (arith, ids m, h.named j m old);
  one_leader = λ i j n m p q a b.
      let (n', old_n, e) = modify_before k f rs i n p in
      let (m', old_m, e') = modify_before k f rs j m q in
      h.one_leader i j n' m' old_n old_m (ground (arith, leads n')) (ground (arith, leads m'));
}

pub delete_all-IsReplicas :
    (id : ℕ) (ids : List ℕ) (rs : Map ℕ Replica)
    → IsReplicas id rs
    → IsReplicas id (delete_all ids rs)
unfolding delete_all
delete_all-IsReplicas id [] rs h = h
delete_all-IsReplicas id (k ∷ ids) rs h =
    delete_all-IsReplicas id ids (delete k rs) (delete-IsReplicas id k rs h)

add_replica-IsReplicas :
    (id tick k : ℕ) (address : Bytes) (rs rs' : Map ℕ Replica)
    → add_replica id tick k address rs ≡ ok rs'
    → IsReplicas id rs
    → IsReplicas id rs'
unfolding add_replica new_replica
add_replica-IsReplicas id tick k address rs rs' e h = elim (Option-cases (lookup k rs)) [
  | inl new ↦
      subst (IsReplicas id) (ground arith)
        (insert-IsReplicas id k (new_replica id k address tick) rs refl refl refl h)
  | inr (n, known) ↦ subst (IsReplicas id) (ground arith) h
]

pub add_replicas-IsReplicas :
    (id tick : ℕ) (reported : Map ℕ Bytes) (rs rs' : Map ℕ Replica)
    → add_replicas id tick reported rs ≡ ok rs'
    → IsReplicas id rs
    → IsReplicas id rs'
unfolding add_replicas
add_replicas-IsReplicas id tick [] rs rs' e h = subst (IsReplicas id) (ground arith) h
add_replicas-IsReplicas id tick ((k, address) ∷ reported) rs rs' e h =
    let (mid, first, rest) = >>=-eq-ok (add_replica id tick k address rs) _ e in
    add_replicas-IsReplicas id tick reported mid rs' rest
      (add_replica-IsReplicas id tick k address rs mid first h)

-- The first record of a shard: nobody leads but the replica that reports itself as the leader.
get_replicas-IsReplicas :
    (id tick : ℕ) (reported : Map ℕ Bytes) (rs : Map ℕ Replica)
    → IsReplicas id rs
    → ((j : ℕ) (n : Replica) → lookup j rs ≡ some n → n.is_leader ≡ false)
    → IsReplicas id (get_replicas id tick reported rs)
      × ((j : ℕ) (n : Replica)
          → lookup j (get_replicas id tick reported rs) ≡ some n
          → n.is_leader ≡ false)
unfolding get_replicas new_replica
get_replicas-IsReplicas id tick [] rs h l = (h, l)
get_replicas-IsReplicas id tick ((k, address) ∷ reported) rs h l =
    let r = new_replica id k address tick in
    get_replicas-IsReplicas id tick reported (insert k r rs)
      (insert-IsReplicas id k r rs refl refl refl h)
      (λ j n found. ground (arith, lookup-insert j k r rs, l j n))

-- Where nobody leads, one replica may become the leader.
pub elect-IsReplicas :
    (id k : ℕ) (leader : Bool) (rs : Map ℕ Replica)
    → IsReplicas id rs
    → ((j : ℕ) (n : Replica) → lookup j rs ≡ some n → n.is_leader ≡ false)
    → IsReplicas id (modify k (λ n. record n { is_leader = leader }) rs)
elect-IsReplicas id k leader rs h l =
    let f : Replica → Replica = λ n. record n { is_leader = leader } in
    record {
      is_map = modify-IsMap k f rs h.is_map;
      named = λ j n found.
          let (m, old, e) = modify_before k f rs j n found in ground (arith, h.named j m old);
      one_leader = λ i j n m p q a b.
          let (n', old_n, e) = modify_before k f rs i n p in
          let (m', old_m, e') = modify_before k f rs j m q in
          ground (arith, l i n' old_n, l j m' old_m, ==_iff k i, ==_iff k j);
    }

pub first-IsReplicas-IsReplicas :
    (id tick k : ℕ) (leader : Bool) (reported : Map ℕ Bytes)
    → IsReplicas id
        (modify k (λ n. record n { is_leader = leader }) (get_replicas id tick reported []))
unfolding lookup
first-IsReplicas-IsReplicas id tick k leader reported =
    let (h, l) = get_replicas-IsReplicas id tick reported [] (IsReplicas-nil id) (λ j n e. cc) in
    elect-IsReplicas id k leader (get_replicas id tick reported []) h l

-- Where all step down, nobody leads.
pub step_down-IsReplicas :
    (id : ℕ) (rs : Map ℕ Replica)
    → IsReplicas id rs
    → IsReplicas id (map_values (λ n. record n { is_leader = false }) rs)
      × ((j : ℕ) (n : Replica)
          → lookup j (map_values (λ n. record n { is_leader = false }) rs) ≡ some n
          → n.is_leader ≡ false)
step_down-IsReplicas id rs h =
    let f : Replica → Replica = λ n. record n { is_leader = false } in
    let none_leads : (j : ℕ) (n : Replica)
        → lookup j (map_values f rs) ≡ some n
        → n.is_leader ≡ false =
      λ j n found. ground (arith, lookup-map_values j f rs) in
    (
      record {
        is_map = map_values-IsMap f rs h.is_map;
        named = λ j n found. elim (Option-cases (lookup j rs)) [
          | inl absent ↦ absurd (ground (arith, lookup-map_values j f rs))
          | inr (m, old) ↦ ground (arith, lookup-map_values j f rs, h.named j m old)
        ];
        one_leader = λ i j n m p q a b. absurd (ground (arith, none_leads i n p));
      },
      none_leads,
    )
