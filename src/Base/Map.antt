-- ===== src/Base/Map.antt =====
-- A Go map as an association list. The order of the list stands for the order of a `range` loop,
-- which the language leaves open: every theorem holds for each order.

use mathlib.Core.Path.{◌≡◌, refl, subst}
use mathlib.Core.Logic.{◌≢◌, inl, inr}
use mathlib.Core.Bool.{Bool, true, false}
use mathlib.Core.Option
use mathlib.Core.Option.{Option, none, some}
use mathlib.Core.List.{List, [], ◌∷◌, map}
use native.Mathlib.Omega.{arith}
use drummer.Base.Tests.{if◌then◌else◌, Bool-cases, Option-cases}
use drummer.Base.Lists.{length}
use drummer.Base.Equality.{Eq, ◌==◌, beq_refl, beq_false}

abbrev pub Map : Type 0 → Type 0 → Type 0
Map K V = List (K × V)

module _ {K V : Type 0} where
  abbrev pub keys : Map K V → List K
  keys m = map (λ e. e.0) m

  abbrev pub values : Map K V → List V
  values m = map (λ e. e.1) m

module _ {K V : Type 0} ⦃e : Eq K⦄ where
  -- `v, ok := m[k]`
  unfoldable pub lookup : K → Map K V → Option V
  lookup k [] = none
  lookup k ((j, v) ∷ m) = if j == k then some v else lookup k m

  -- `_, ok := m[k]`
  unfoldable pub has : K → Map K V → Bool
  has k m = elim (lookup k m) [ none ↦ false | some v ↦ true ]

  -- `m[k] = v`
  unfoldable pub insert : K → V → Map K V → Map K V
  insert k v [] = (k, v) ∷ []
  insert k v ((j, w) ∷ m) = if j == k then (j, v) ∷ m else (j, w) ∷ insert k v m

  -- `delete(m, k)`
  unfoldable pub delete : K → Map K V → Map K V
  delete k [] = []
  delete k ((j, w) ∷ m) = if j == k then delete k m else (j, w) ∷ delete k m

  -- No key stands twice, as in every Go map.
  abbrev pub IsMap : Map K V → Type 0
  IsMap [] = Unit
  IsMap ((k, v) ∷ m) = (lookup k m ≡ none) × IsMap m

  -- Every entry has the property.
  abbrev pub AllEntries : (K → V → Type 0) → Map K V → Type 0
  AllEntries P m = (k : K) (v : V) → lookup k m ≡ some v → P k v

  pub lookup-insert :
      (j k : K) (v : V) (m : Map K V)
      → lookup j (insert k v m) ≡ (if k == j then some v else lookup j m)
  unfolding lookup insert
  lookup-insert j k v [] = refl
  lookup-insert j k v ((i, w) ∷ m) =
      ground (arith, e.beq_iff k j, e.beq_iff i k, e.beq_iff i j, lookup-insert j k v m)

  pub lookup-insert_self : (k : K) (v : V) (m : Map K V) → lookup k (insert k v m) ≡ some v
  lookup-insert_self k v m = rw (lookup-insert k k v m, beq_refl k)

  pub lookup-insert_ne :
      (j k : K) (v : V) (m : Map K V) → k ≢ j → lookup j (insert k v m) ≡ lookup j m
  lookup-insert_ne j k v m h = rw (lookup-insert j k v m, beq_false k j h)

  pub lookup-delete :
      (j k : K) (m : Map K V) → lookup j (delete k m) ≡ (if k == j then none else lookup j m)
  unfolding lookup delete
  lookup-delete j k [] = ground arith
  lookup-delete j k ((i, w) ∷ m) =
      ground (arith, e.beq_iff k j, e.beq_iff i k, e.beq_iff i j, lookup-delete j k m)

  pub insert-IsMap : (k : K) (v : V) (m : Map K V) → IsMap m → IsMap (insert k v m)
  unfolding insert lookup
  insert-IsMap k v [] h = (refl, tt)
  insert-IsMap k v ((j, w) ∷ m) h = elim (Bool-cases (j == k)) [
    | inl same ↦ rw same h
    | inr other ↦ rw other (
      ground (arith, lookup-insert j k v m, e.beq_iff j k, e.beq_iff k j),
      insert-IsMap k v m h.1,
    )
  ]

  pub delete-IsMap : (k : K) (m : Map K V) → IsMap m → IsMap (delete k m)
  unfolding delete
  delete-IsMap k [] h = tt
  delete-IsMap k ((j, w) ∷ m) h = elim (Bool-cases (j == k)) [
    | inl same ↦ rw same (delete-IsMap k m h.1)
    | inr other ↦ rw other (ground (arith, lookup-delete j k m), delete-IsMap k m h.1)
  ]

  -- `m[k].field = x`, through the pointer that the map holds, where there is one.
  unfoldable pub modify : K → (V → V) → Map K V → Map K V
  modify k f m = elim (lookup k m) [ none ↦ m | some v ↦ insert k (f v) m ]

  pub lookup-modify :
      (j k : K) (f : V → V) (m : Map K V)
      → lookup j (modify k f m) ≡ (if k == j then Option.map f (lookup j m) else lookup j m)
  unfolding modify
  lookup-modify j k f m = elim (Option-cases (lookup k m)) [
    | inl absent ↦ ground (arith, e.beq_iff k j, absent)
    | inr (v, found) ↦ ground (arith, e.beq_iff k j, found, lookup-insert j k (f v) m)
  ]

  pub modify-IsMap : (k : K) (f : V → V) (m : Map K V) → IsMap m → IsMap (modify k f m)
  unfolding modify
  modify-IsMap k f m h = elim (Option-cases (lookup k m)) [
    | inl absent ↦ rw (absent, modify) h
    | inr (v, found) ↦ rw (found, modify) (insert-IsMap k (f v) m h)
  ]

  pub length-insert_of_some :
      (k : K) (v : V) (m : Map K V) → has k m ≡ true → length (insert k v m) ≡ length m
  unfolding insert has lookup
  length-insert_of_some k v [] h = cc
  length-insert_of_some k v ((j, w) ∷ m) h = ground (arith, length-insert_of_some k v m)

  pub length-modify : (k : K) (f : V → V) (m : Map K V) → length (modify k f m) ≡ length m
  unfolding modify has
  length-modify k f m = elim (Option-cases (lookup k m)) [
    | inl absent ↦ rw (absent, modify) refl
    | inr (v, found) ↦ rw (found, modify) (length-insert_of_some k (f v) m (rw (found, has) refl))
  ]

  -- `for _, v := range m { v.field = x }`
  unfoldable pub map_values : (V → V) → Map K V → Map K V
  map_values f [] = []
  map_values f ((k, v) ∷ m) = (k, f v) ∷ map_values f m

  pub lookup-map_values :
      (j : K) (f : V → V) (m : Map K V) → lookup j (map_values f m) ≡ Option.map f (lookup j m)
  unfolding map_values lookup
  lookup-map_values j f [] = refl
  lookup-map_values j f ((k, v) ∷ m) = ground (arith, lookup-map_values j f m)

  pub map_values-IsMap : (f : V → V) (m : Map K V) → IsMap m → IsMap (map_values f m)
  unfolding map_values
  map_values-IsMap f [] h = tt
  map_values-IsMap f ((k, v) ∷ m) h =
      (rw (lookup-map_values k f m, h.0) refl, map_values-IsMap f m h.1)

  -- A property of the entries survives a write of a value that has it.
  pub insert-AllEntries :
      (P : K → V → Type 0) (k : K) (v : V) (m : Map K V)
      → P k v
      → AllEntries P m
      → AllEntries P (insert k v m)
  insert-AllEntries P k v m p h j w found = elim (Bool-cases (k == j)) [
    | inl same ↦
        subst (λ x. P x w) ((e.beq_iff k j).0 same)
          (subst (P k) (ground (arith, lookup-insert j k v m)) p)
    | inr other ↦ h j w (ground (arith, lookup-insert j k v m))
  ]

  pub modify-AllEntries :
      (P : K → V → Type 0) (k : K) (f : V → V) (m : Map K V)
      → ((j : K) (v : V) → P j v → P j (f v))
      → AllEntries P m
      → AllEntries P (modify k f m)
  unfolding modify
  modify-AllEntries P k f m keep h = elim (Option-cases (lookup k m)) [
    | inl absent ↦ rw (absent, modify) h
    | inr (v, found) ↦ rw (found, modify) (insert-AllEntries P k (f v) m (keep k v (h k v found)) h)
  ]
