-- ===== src/Validation.antt =====
-- validation.go: the check that the requests of a cycle are put to. The last branch of the code asks
-- for the type of the first again, so nothing reaches it, and it is left out.
use drummer.Base.{
  ℕ, Bool, false, not, List, none, some, [], ◌∷◌, length, any, ◌==◌, nat_eq, Bytes, Outcome, ok,
  panic, ◌>>◌, panic_if, nil_pointer, invalid_request,
}
use drummer.Pb.{Request, RequestType, NodeHostRequest}

-- The two tests of the lengths of the lists.
unfoldable pub valid_lengths : RequestType → NodeHostRequest → Bool
valid_lengths RequestType.add req = length req.address_list == 1
valid_lengths _ req = length req.replica_id_list == length req.address_list

-- A first member that is there and is not 0.
unfoldable pub valid_first_member : List ℕ → Bool
valid_first_member [] = false
valid_first_member (m ∷ ms) = not (m == 0)

-- The tests that depend on the type.
unfoldable pub validate_change : Request → NodeHostRequest → Outcome (Unit {0})
validate_change change req = elim change.type [
  | RequestType.create ↦ (do
    panic_if (req.instantiate_replica_id == 0) invalid_request
    panic_if (length req.app_name == 0) invalid_request
    panic_if (length req.replica_id_list == 0) invalid_request)
  | RequestType.other n ↦ ok tt
  | _ ↦ (do
    panic_if (not (valid_first_member change.members)) invalid_request
    panic_if (change.shard_id == 0) invalid_request)
]

unfoldable pub validate_request : Request → NodeHostRequest → Outcome (Unit {0})
validate_request change req = do
  panic_if (not (valid_lengths change.type req)) invalid_request
  panic_if (any (λ nid. nid == 0) req.replica_id_list) invalid_request
  panic_if (any {A = Bytes} (λ addr. length addr == 0) req.address_list) invalid_request
  panic_if (length req.raft_address == 0) invalid_request
  validate_change change req

unfoldable pub validate_node_host_request : NodeHostRequest → Outcome (Unit {0})
validate_node_host_request req = elim req.change [
  | none ↦ panic nil_pointer
  | some change ↦ validate_request change req
]

-- The loop over the requests of a cycle.
unfoldable pub validate_all : List NodeHostRequest → Outcome (Unit {0})
validate_all [] = ok tt
validate_all (r ∷ rs) = do validate_node_host_request r; validate_all rs
