-- ===== src/Selector/Choice.antt =====
-- selector.go: the loop of the random choice, and the nodehosts that it picks.
use drummer.Base.{
  ℕ, zero, suc, ◌+◌, ◌≡◌, ◌≢◌, refl, sym, subst, ◌%◌, ◌≤◌, ◌<◌, ◌⊎◌, inl, inr, true, false, List,
  [], ◌∷◌, ◌++◌, Option, none, some, length, any, All, ltb, get_elem?, ◌==◌, if◌then◌else◌, nat_eq,
  ==_iff, arith, Bool-cases, Option-cases, length-append, All-append,
}
use drummer.NodeHostImage.{NodeHostSpec}
use drummer.Filter.{NodeHostFilter, filter}
use drummer.Selector.{Draws, contains, select, pick, find_suitable_node_host}

-- No index stands twice.
abbrev pub IsDistinct : List ℕ → Type 0
IsDistinct [] = Unit
IsDistinct (x ∷ xs) = (contains xs x ≡ false) × IsDistinct xs

contains-append :
    (xs ys : List ℕ) (v : ℕ)
    → contains (xs ++ ys) v ≡ (if contains xs v then true else contains ys v)
unfolding contains any
contains-append [] ys v = refl
contains-append (x ∷ xs) ys v = ground (arith, contains-append xs ys v)

IsDistinct-append :
    (xs : List ℕ) (v : ℕ) → contains xs v ≡ false → IsDistinct xs → IsDistinct (xs ++ v ∷ [])
unfolding contains any
IsDistinct-append [] v h d = (refl, tt)
IsDistinct-append (x ∷ xs) v h d =
    (ground (arith, contains-append xs (v ∷ []) x), IsDistinct-append xs v (ground arith) d.1)

-- What the loop keeps: the chosen indices are distinct and within the list.
pub select_valid :
    (n count : ℕ) (selected : List ℕ) (draws : Draws) (chosen : List ℕ) (draws' : Draws)
    → 0 < n
    → IsDistinct selected
    → All (λ i. i < n) selected
    → select n count selected draws ≡ some (chosen, draws')
    → (length chosen ≡ count) × IsDistinct chosen × All (λ i. i < n) chosen
unfolding select
select_valid n count selected [] chosen draws' pos d b h =
    elim (Bool-cases (length selected == count)) [
      | inl done ↦
          let same : selected ≡ chosen = ground arith in
          (ground arith, subst IsDistinct same d, subst (All (λ i. i < n)) same b)
      | inr more ↦ absurd (ground arith)
    ]
select_valid n count selected (r ∷ draws) chosen draws' pos d b h =
    elim (Bool-cases (length selected == count)) [
      | inl done ↦
          let same : selected ≡ chosen = ground arith in
          (ground arith, subst IsDistinct same d, subst (All (λ i. i < n)) same b)
      | inr more ↦ elim (Bool-cases (contains selected (r % n))) [
        | inl again ↦ select_valid n count selected draws chosen draws' pos d b (ground arith)
        | inr new ↦
            select_valid n count (selected ++ (r % n) ∷ []) draws chosen draws' pos
              (IsDistinct-append selected (r % n) new d)
              (All-append (λ i. i < n) selected ((r % n) ∷ []) b (grind arith, tt)) (ground arith)
      ]
    ]

-- Drops the first occurrence.
erase : ℕ → List ℕ → List ℕ
erase v [] = []
erase v (x ∷ xs) = if v == x then xs else x ∷ erase v xs

length-erase : (v : ℕ) (xs : List ℕ) → contains xs v ≡ true → length (erase v xs) + 1 ≡ length xs
unfolding contains any erase
length-erase v [] h = absurd (ground arith)
length-erase v (x ∷ xs) h = ground (arith, length-erase v xs)

contains-erase :
    (v i : ℕ) (xs : List ℕ) → i ≢ v → contains xs i ≡ true → contains (erase v xs) i ≡ true
unfolding contains any erase
contains-erase v i [] ne h = h
contains-erase v i (x ∷ xs) ne h = ground (arith, contains-erase v i xs)

-- A list that has all the numbers below `n` is no shorter than `n`.
pigeonhole : (n : ℕ) (xs : List ℕ) → ((i : ℕ) → i < n → contains xs i ≡ true) → n ≤ length xs
pigeonhole zero xs h = omega arith
pigeonhole (suc n) xs h =
    let shorter =
      pigeonhole n (erase n xs) (λ i p. contains-erase n i xs (omega arith) (h i (omega arith))) in
    omega (arith, length-erase n xs (h n (omega arith)))

-- Each index below `n` is chosen already or will be drawn.
abbrev Covers : ℕ → List ℕ → Draws → Type 0
Covers n selected draws =
    (i : ℕ) → i < n → (contains selected i ≡ true) ⊎ (any (λ r. i == r % n) draws ≡ true)

Covers-next :
    (n r : ℕ) (selected : List ℕ) (draws : Draws)
    → Covers n selected (r ∷ draws)
    → Covers n (selected ++ (r % n) ∷ []) draws
unfolding contains any
Covers-next n r selected draws covers i p =
    ground (arith, covers i p, ==_iff i (r % n), contains-append selected ((r % n) ∷ []) i)

select_total :
    (n count : ℕ) (selected : List ℕ) (draws : Draws)
    → length selected ≤ count
    → count ≤ n
    → Covers n selected draws
    → (r : List ℕ × Draws) × (select n count selected draws ≡ some r)
unfolding select any
select_total n count selected [] le fits covers =
    let all = pigeonhole n selected (λ i p. ground (arith, covers i p)) in
    ((selected, []), ground arith)
select_total n count selected (r ∷ draws) le fits covers =
    elim (Bool-cases (length selected == count)) [
      | inl done ↦ ((selected, r ∷ draws), ground arith)
      | inr more ↦ elim (Bool-cases (contains selected (r % n))) [
        | inl again ↦
            let (result, e) =
              select_total n count selected draws le fits
                (λ i p. ground (arith, covers i p, ==_iff i (r % n))) in
            (result, ground arith)
        | inr new ↦
            let (result, e) =
              select_total n count (selected ++ (r % n) ∷ []) draws
                (ground (arith, length-append selected ((r % n) ∷ []))) fits
                (Covers-next n r selected draws covers) in
            (result, ground arith)
      ]
    ]

get_elem?_valid :
    (P : NodeHostSpec → Type 0) (l : List NodeHostSpec) (i : ℕ)
    → All P l
    → i < length l
    → (v : NodeHostSpec) × (get_elem? l i ≡ some v) × P v
get_elem?_valid P [] i h lt = absurd (omega arith)
get_elem?_valid P (x ∷ xs) zero h lt = (x, refl, h.0)
get_elem?_valid P (x ∷ xs) (suc i) h lt = get_elem?_valid P xs i h.1 (omega arith)

pick_valid :
    (P : NodeHostSpec → Type 0) (filtered : List NodeHostSpec) (chosen : List ℕ)
    → All P filtered
    → All (λ i. i < length filtered) chosen
    → (length (pick filtered chosen) ≡ length chosen) × All P (pick filtered chosen)
unfolding pick
pick_valid P filtered [] h b = (refl, tt)
pick_valid P filtered (i ∷ chosen) h b =
    go (get_elem? filtered i) (get_elem?_valid P filtered i h b.0)
      (pick_valid P filtered chosen h b.1)
  where
    go :
        (found : Option NodeHostSpec)
        → (v : NodeHostSpec) × (found ≡ some v) × P v
        → (length (pick filtered chosen) ≡ length chosen) × All P (pick filtered chosen)
        → (length (elim found as (λ x. List NodeHostSpec) [
          | none ↦ pick filtered chosen
          | some v ↦ v ∷ pick filtered chosen
        ])
            ≡ suc (length chosen))
          × All P (elim found as (λ x. List NodeHostSpec) [
            | none ↦ pick filtered chosen
            | some v ↦ v ∷ pick filtered chosen
          ])
    go none (v, e, p) rest = absurd (ground arith)
    go (some w) (v, e, p) rest = (omega (arith, rest.0), (subst P (sym (ground arith)) p, rest.1))

-- A choice is empty where too few nodehosts pass the filter. Elsewhere it has as many as asked for,
-- picked at distinct positions of the filtered list, and what all filtered ones have, it has too.
pub find_suitable_node_host_valid :
    (f : NodeHostFilter) (input : List NodeHostSpec) (count : ℕ) (draws : Draws)
    (result : List NodeHostSpec) (draws' : Draws) (P : NodeHostSpec → Type 0)
    → 0 < count
    → All P (filter f input)
    → find_suitable_node_host f input count draws ≡ some (result, draws')
    → ((length (filter f input) < count) × (result ≡ []))
      ⊎ ((chosen : List ℕ) × IsDistinct chosen
          × (result ≡ pick (filter f input) chosen)
          × (length result ≡ count)
          × All P result)
unfolding find_suitable_node_host
find_suitable_node_host_valid f input count draws result draws' P pos all h =
    let filtered = filter f input in
    elim (Bool-cases (ltb (length filtered) count)) [
      | inl few ↦ inl (ground arith, ground arith)
      | inr enough ↦ elim (Option-cases (select (length filtered) count [] draws)) [
        | inl running ↦ absurd (ground arith)
        | inr ((chosen, rest), e) ↦
            let (len, distinct, within) =
              select_valid (length filtered) count [] draws chosen rest (ground arith) tt tt e in
            let same : pick filtered chosen ≡ result = ground arith in
            let (len', all') = pick_valid P filtered chosen all within in
            inr (
              chosen,
              distinct,
              sym same,
              subst (λ r. length r ≡ count) same (omega (arith, len, len')),
              subst (All P) same all',
            )
      ]
    ]

-- A choice ends, with any values of the random source that reach each position of the filtered
-- list.
pub find_suitable_node_host_total :
    (f : NodeHostFilter) (input : List NodeHostSpec) (count : ℕ) (draws : Draws)
    → ((i : ℕ)
        → i < length (filter f input)
        → any (λ r. i == r % length (filter f input)) draws ≡ true)
    → (r : List NodeHostSpec × Draws) × (find_suitable_node_host f input count draws ≡ some r)
unfolding find_suitable_node_host
find_suitable_node_host_total f input count draws reaches =
    let filtered = filter f input in
    elim (Bool-cases (ltb (length filtered) count)) [
      | inl few ↦ (([], draws), rw few refl)
      | inr enough ↦
          let ((chosen, rest), e) =
            select_total (length filtered) count [] draws (omega arith) (ground arith)
              (λ i p. inr (reaches i p)) in
          ((pick filtered chosen, rest), rw (enough, e) refl)
    ]
