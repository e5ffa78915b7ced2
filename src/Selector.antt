-- ===== src/Selector.antt =====
-- selector.go: a random choice of nodehosts that pass a filter. The random source is not part of
-- the repository: it is the list of the values that its calls return, in order. A call returns
-- the values that are left, and `none` where the loop still runs as they end.
pub mod Choice
use drummer.Base.{
  ℕ, ◌%◌, ◌<◌, Bool, List, Option, none, some, [], ◌∷◌, ◌++◌, length, any, ltb, get_elem?, ◌==◌,
  if◌then◌else◌, Bytes, nat_eq,
}
use drummer.NodeHostImage.{NodeHostSpec}
use drummer.Filter.{NodeHostFilter, filter, drummer_filter, drummer_region_filter}

abbrev pub Draws : Type 0
Draws = List ℕ

-- The closure `contains`.
unfoldable pub contains : List ℕ → ℕ → Bool
contains input v = any (λ x. v == x) input

-- The loop `for len(selected) != count`, over a list of `n` nodehosts.
unfoldable pub select : ℕ → ℕ → List ℕ → Draws → Option (List ℕ × Draws)
select n count selected [] = if length selected == count then some (selected, []) else none
select n count selected (r ∷ draws) =
    let rest =
      select n count (if contains selected (r % n) then selected else selected ++ (r % n) ∷ [])
        draws in
    if length selected == count then some (selected, r ∷ draws) else rest

-- The loop that reads `filtered[idx]`, each index within the list.
unfoldable pub pick : List NodeHostSpec → List ℕ → List NodeHostSpec
pick filtered [] = []
pick filtered (idx ∷ selected) = elim (get_elem? filtered idx) [
  | none ↦ pick filtered selected
  | some v ↦ v ∷ pick filtered selected
]

unfoldable pub find_suitable_node_host :
    NodeHostFilter → List NodeHostSpec → ℕ → Draws → Option (List NodeHostSpec × Draws)
find_suitable_node_host f input count draws =
    let filtered = filter f input in
    if ltb (length filtered) count
    then some ([], draws)
    else (elim (select (length filtered) count [] draws) [
      | none ↦ none
      | some (selected, draws') ↦ some (pick filtered selected, draws')
    ])
