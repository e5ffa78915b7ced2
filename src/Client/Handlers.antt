-- ===== src/Client/Handlers.antt =====
-- client/nodehost.go and validation.go: what a request that drummer has validated can do to the client.
use drummer.Base.{
  ℕ, zero, suc, ◌≡◌, ◌≢◌, refl, Bool, true, false, not, ◌&&◌, List, [], ◌∷◌, length, Option, none,
  some, ◌⊎◌, inl, inr, ◌==◌, if◌then◌else◌, nat_eq, ==_iff, Bytes, bytes_eq, Panic, nil_pointer,
  index_out_of_range, remove_failed, request_failed, unknown_result, node_info_found, no_plugin,
  unknown_join_restore, unknown_request_type, arith, ok, panic, Outcome,
}
use drummer.Base.Map.{Map, lookup, insert}
use drummer.Pb.{Request, RequestType, NodeHostRequest, Config}
use drummer.Validation.{
  valid_lengths, valid_first_member, validate_change, validate_request, validate_node_host_request,
}
use drummer.Client.Requests.{
  LocalError, Completion, Plugin, LocalNodeHost, Ending, returned, waiting, panicked, peers, Start,
  start_with, ignored, refused, launch_with, start_for, completed, timeout, terminated, rejected,
  dropped, expired, unknown, shard_not_found, temporary, shard_not_stopped, other, removed,
  remove_data, stopped, handle_kill_request, completion, requested, handle_delete_request,
  handle_add_request, start_plugin, instantiate, handle_instantiate_request, handle_change,
  handle_request,
}

-- The panics that are about the local nodehost, and not about the request.
pub data IsLocal : Panic → Type 0 where
  removal : IsLocal remove_failed
  membership : IsLocal request_failed
  ending : IsLocal unknown_result
  present : IsLocal node_info_found
  missing : IsLocal no_plugin

abbrev pub IsSafe : Ending → Type 0
IsSafe returned = Unit
IsSafe waiting = Unit
IsSafe (panicked p) = IsLocal p

-- Each address has an id.
peers-defined :
    (addresses : List Bytes) (ids : List ℕ) (acc : Map ℕ Bytes)
    → length ids ≡ length addresses
    → (ps : Map ℕ Bytes) × (peers addresses ids acc ≡ some ps)
unfolding peers
peers-defined [] ids acc h = (acc, refl)
peers-defined (a ∷ addresses) [] acc h = absurd (omega arith)
peers-defined (a ∷ addresses) (id ∷ ids) acc h =
    peers-defined addresses ids (insert id a acc) (omega arith)

IsSafeStart : Start → Type 0
IsSafeStart (start_with ps) = Unit
IsSafeStart ignored = Unit
IsSafeStart (refused p) = IsLocal p

start_for-IsSafeStart :
    (req : NodeHostRequest) (has_info : Bool)
    → length req.replica_id_list ≡ length req.address_list
    → (req.join && req.restore) ≡ false
    → IsSafeStart (start_for req has_info)
unfolding start_for launch_with IsSafeStart
start_for-IsSafeStart req has_info same e =
    let (ps, defined) = peers-defined req.address_list req.replica_id_list [] same in
    go req.join req.restore has_info (peers req.address_list req.replica_id_list []) ps defined e
  where
    go :
        (join restore here : Bool) (o : Option (Map ℕ Bytes)) (ps : Map ℕ Bytes)
        → o ≡ some ps
        → (join && restore) ≡ false
        → IsSafeStart (
            if join && not restore
            then start_with []
            else if not join && restore
            then (if here then start_with [] else ignored)
            else if not join && not restore
            then (if here then refused node_info_found else launch_with o)
            else refused unknown_join_restore)
    go true true here o ps h e' = absurd (ground arith)
    go true false here o ps h e' = tt
    go false true true o ps h e' = tt
    go false true false o ps h e' = tt
    go false false true o ps h e' = present
    go false false false none ps h e' = absurd (ground arith)
    go false false false (some qs) ps h e' = tt

module _ (H : LocalNodeHost) where
  removed-IsSafe :
      (again : H.World → H.World × Ending) (r : H.World × (LocalError ⊎ Unit {0}))
      → ((w : H.World) → IsSafe (again w).1)
      → IsSafe (removed H again r).1
  unfolding removed
  removed-IsSafe again (w, inr u) safe = tt
  removed-IsSafe again (w, inl shard_not_stopped) safe = safe w
  removed-IsSafe again (w, inl shard_not_found) safe = removal
  removed-IsSafe again (w, inl temporary) safe = removal
  removed-IsSafe again (w, inl other) safe = removal

  remove_data-IsSafe :
      (tries shard_id replica_id : ℕ) (w : H.World)
      → IsSafe (remove_data H tries shard_id replica_id w).1
  unfolding remove_data
  remove_data-IsSafe zero shard_id replica_id w = tt
  remove_data-IsSafe (suc n) shard_id replica_id w =
      removed-IsSafe (remove_data H n shard_id replica_id) (H.remove_data shard_id replica_id w)
        (remove_data-IsSafe n shard_id replica_id)

  stopped-IsSafe :
      (tries shard_id replica_id : ℕ) (r : H.World × (LocalError ⊎ Unit {0}))
      → IsSafe (stopped H tries shard_id replica_id r).1
  unfolding stopped
  stopped-IsSafe tries shard_id replica_id (w, inl e) = tt
  stopped-IsSafe tries shard_id replica_id (w, inr u) =
      remove_data-IsSafe tries shard_id replica_id w

  completion-IsSafe :
      (action : H.World → H.World × Ending) (c : Completion) (w : H.World)
      → ((w' : H.World) → IsSafe (action w').1)
      → IsSafe (completion H action c w).1
  unfolding completion
  completion-IsSafe action completed w safe = safe w
  completion-IsSafe action timeout w safe = tt
  completion-IsSafe action terminated w safe = tt
  completion-IsSafe action rejected w safe = tt
  completion-IsSafe action dropped w safe = tt
  completion-IsSafe action expired w safe = tt
  completion-IsSafe action unknown w safe = ending

  requested-IsSafe :
      (action : H.World → H.World × Ending) (r : H.World × (LocalError ⊎ Completion))
      → ((w' : H.World) → IsSafe (action w').1)
      → IsSafe (requested H action r).1
  unfolding requested
  requested-IsSafe action (w, inr c) safe = completion-IsSafe action c w safe
  requested-IsSafe action (w, inl shard_not_found) safe = tt
  requested-IsSafe action (w, inl temporary) safe = tt
  requested-IsSafe action (w, inl shard_not_stopped) safe = membership
  requested-IsSafe action (w, inl other) safe = membership

  start_plugin-IsSafe :
      (p : Option Plugin) (o : Option Config) (c : Config) (shard_id : ℕ) (req : NodeHostRequest)
      (ps : Map ℕ Bytes) (w : H.World)
      → o ≡ some c
      → IsSafe (start_plugin H p o shard_id req ps w).1
  unfolding start_plugin
  start_plugin-IsSafe p none c shard_id req ps w e = absurd (ground arith)
  start_plugin-IsSafe none (some c') c shard_id req ps w e = missing
  start_plugin-IsSafe (some p) (some c') c shard_id req ps w e = tt

  instantiate-IsSafe :
      (plugins : Map Bytes Plugin) (shard_id : ℕ) (req : NodeHostRequest) (s : Start) (c : Config)
      (w : H.World)
      → req.config ≡ some c
      → IsSafeStart s
      → IsSafe (instantiate H plugins shard_id req s w).1
  unfolding instantiate IsSafeStart
  instantiate-IsSafe plugins shard_id req ignored c w e safe = tt
  instantiate-IsSafe plugins shard_id req (refused p) c w e safe = safe
  instantiate-IsSafe plugins shard_id req (start_with ps) c w e safe =
      start_plugin-IsSafe (lookup req.app_name plugins) req.config c shard_id req ps w e

  handle_kill_request-IsSafe :
      (tries : ℕ) (change : Request) (w : H.World)
      → valid_first_member change.members ≡ true
      → IsSafe (handle_kill_request H tries change w).1
  unfolding handle_kill_request
  handle_kill_request-IsSafe tries change w h = go change.members h
    where
      go :
          (ms : List ℕ)
          → valid_first_member ms ≡ true
          → IsSafe
              (elim ms as (λ x. H.World × Ending) [
                | [] ↦ (w, panicked index_out_of_range)
                | m ∷ more ↦ stopped H tries change.shard_id m (H.stop_replica change.shard_id m w)
              ]).1
      go [] v = absurd (unfold valid_first_member in ground arith)
      go (m ∷ ms) v = stopped-IsSafe tries change.shard_id m (H.stop_replica change.shard_id m w)

  handle_delete_request-IsSafe :
      (tries : ℕ) (change : Request) (w : H.World)
      → valid_first_member change.members ≡ true
      → IsSafe (handle_delete_request H tries change w).1
  unfolding handle_delete_request
  handle_delete_request-IsSafe tries change w h = go change.members h
    where
      go :
          (ms : List ℕ)
          → valid_first_member ms ≡ true
          → IsSafe
              (elim ms as (λ x. H.World × Ending) [
                | [] ↦ (w, panicked index_out_of_range)
                | m ∷ more ↦
                    requested H
                      (remove_data H tries change.shard_id m)
                      (H.request_delete_replica change.shard_id m change.conf_change_id w)
              ]).1
      go [] v = absurd (unfold valid_first_member in ground arith)
      go (m ∷ ms) v =
          requested-IsSafe (remove_data H tries change.shard_id m)
            (H.request_delete_replica change.shard_id m change.conf_change_id w)
            (remove_data-IsSafe tries change.shard_id m)

  handle_add_request-IsSafe :
      (change : Request) (addresses : List Bytes) (w : H.World)
      → valid_first_member change.members ≡ true
      → (length addresses == 1) ≡ true
      → IsSafe (handle_add_request H change addresses w).1
  unfolding handle_add_request
  handle_add_request-IsSafe change [] w h one = absurd (ground arith)
  handle_add_request-IsSafe change (url ∷ urls) w h one = go change.members h
    where
      go :
          (ms : List ℕ)
          → valid_first_member ms ≡ true
          → IsSafe
              (elim ms as (λ x. H.World × Ending) [
                | [] ↦ (w, panicked index_out_of_range)
                | m ∷ more ↦
                    requested H
                      (λ w'. (w', returned))
                      (H.request_add_replica change.shard_id m url change.conf_change_id w)
              ]).1
      go [] v = absurd (unfold valid_first_member in ground arith)
      go (m ∷ ms) v =
          requested-IsSafe (λ w'. (w', returned))
            (H.request_add_replica change.shard_id m url change.conf_change_id w) (λ w'. tt)

  handle_change-IsSafe :
      (plugins : Map Bytes Plugin) (tries : ℕ) (change : Request) (req : NodeHostRequest)
      (w : H.World)
      → ((n : ℕ) → change.type ≢ RequestType.other n)
      → validate_request change req ≡ ok tt
      → (change.type ≡ RequestType.create
          → (c : Config) × (req.config ≡ some c) × ((req.join && req.restore) ≡ false))
      → IsSafe (handle_change H plugins tries change req w).1
  unfolding handle_change handle_instantiate_request validate_request validate_change valid_lengths
  handle_change-IsSafe plugins tries change req w known v needs = go change.type refl
    where
      go :
          (t : RequestType)
          → change.type ≡ t
          → IsSafe
              ((elim t as (λ x. H.World → H.World × Ending) [
                | RequestType.create ↦ handle_instantiate_request H plugins change req
                | RequestType.delete ↦ handle_delete_request H tries change
                | RequestType.add ↦ handle_add_request H change req.address_list
                | RequestType.kill ↦ handle_kill_request H tries change
                | RequestType.other n ↦ (λ w'. (w', panicked unknown_request_type))
              ])
                w).1
      go RequestType.create e =
          let (c, has_config, combined) = needs e in
          instantiate-IsSafe plugins change.shard_id req
            (start_for req (H.has_node_info change.shard_id req.instantiate_replica_id w)) c w
            has_config
            (start_for-IsSafeStart req
              (H.has_node_info change.shard_id req.instantiate_replica_id w)
              (ground (arith, ==_iff (length req.replica_id_list) (length req.address_list)))
              combined)
      go RequestType.delete e = handle_delete_request-IsSafe tries change w (ground arith)
      go RequestType.add e =
          handle_add_request-IsSafe change req.address_list w (ground arith) (ground arith)
      go RequestType.kill e = handle_kill_request-IsSafe tries change w (ground arith)
      go (RequestType.other n) e = absurd (known n e)

  -- A request of a known type that passes drummer's validation, and that, where it is to create a
  -- replica, has a configuration and does not ask to join and to restore at once, makes the client
  -- panic, if at all, for a reason of the nodehost: its answers, the replica that it has already, or a
  -- plugin that it lacks. No list of the request is indexed out of range, and nothing missing is read.
  pub handle_request-IsSafe :
      (plugins : Map Bytes Plugin) (tries : ℕ) (change : Request) (req : NodeHostRequest)
      (w : H.World)
      → req.change ≡ some change
      → ((n : ℕ) → change.type ≢ RequestType.other n)
      → validate_node_host_request req ≡ ok tt
      → (change.type ≡ RequestType.create
          → (c : Config) × (req.config ≡ some c) × ((req.join && req.restore) ≡ false))
      → IsSafe (handle_request H plugins tries req w).1
  unfolding handle_request validate_node_host_request
  handle_request-IsSafe plugins tries change req w e known v needs = go req.change e v
    where
      go :
          (o : Option Request)
          → o ≡ some change
          → (elim o as (λ x. Outcome (Unit {0})) [
            | none ↦ panic nil_pointer
            | some ch ↦ validate_request ch req
          ])
            ≡ ok tt
          → IsSafe
              ((elim o as (λ x. H.World → H.World × Ending) [
                | none ↦ (λ w'. (w', panicked nil_pointer))
                | some ch ↦ handle_change H plugins tries ch req
              ])
                w).1
      go none h v' = absurd (ground arith)
      go (some ch) h v' =
          let same : ch ≡ change = ground arith in
          rw same (handle_change-IsSafe plugins tries change req w known (ground arith) needs)
