-- ===== src/Client/Sizes.antt =====
-- client/nodehost.go and shardimage.go: two maps of one size.
use drummer.Base.{
  ℕ, suc, ◌≤◌, ◌≡◌, refl, Bool, true, false, inl, inr, [], ◌∷◌, length, none, ◌==◌, nat_eq, ==_iff,
  arith, Bool-cases, any,
}
use drummer.Base.Map.{Map, IsMap, lookup, has, delete, keys, lookup-delete, delete-IsMap}

module _ {V : Type 0} where
  delete_absent : (k : ℕ) (m : Map ℕ V) → lookup k m ≡ none → length (delete k m) ≡ length m
  unfolding lookup delete
  delete_absent k [] h = refl
  delete_absent k ((j, w) ∷ m) h = ground (arith, delete_absent k m)

  length-delete :
      (k : ℕ) (m : Map ℕ V) → IsMap m → has k m ≡ true → suc (length (delete k m)) ≡ length m
  unfolding lookup delete has
  length-delete k [] h e = absurd (ground arith)
  length-delete k ((j, w) ∷ m) h e = elim (Bool-cases (j == k)) [
    | inl same ↦ ground (arith, ==_iff j k, delete_absent k m)
    | inr other ↦ ground (arith, length-delete k m h.1)
  ]

  pub any-keys :
      (p : ℕ → Bool) (j : ℕ) (m : Map ℕ V) → any p (keys m) ≡ false → has j m ≡ true → p j ≡ false
  unfolding any has lookup
  any-keys p j [] h e = absurd (ground arith)
  any-keys p j ((k, v) ∷ m) h e = elim (Bool-cases (k == j)) [
    | inl same ↦ ground (arith, ==_iff k j)
    | inr other ↦ ground (arith, any-keys p j m)
  ]

-- A map of keys of another that is no smaller has all keys of it.
pub has-has :
    {V W : Type 0} (a : Map ℕ V) (b : Map ℕ W)
    → IsMap a
    → IsMap b
    → length b ≤ length a
    → ((j : ℕ) → has j a ≡ true → has j b ≡ true)
    → (j : ℕ) → has j b ≡ true
    → has j a ≡ true
unfolding has lookup
has-has [] [] va vb le sub j h = h
has-has [] (e ∷ b) va vb le sub j h = absurd (omega arith)
has-has ((k, v) ∷ a) b va vb le sub j h = elim (Bool-cases (k == j)) [
  | inl same ↦ ground arith
  | inr other ↦
      let size = length-delete k b vb (sub k (ground (arith, ==_iff k k))) in
      let rest =
        has-has a (delete k b) va.1 (delete-IsMap k b vb) (omega arith) (λ i p. sub_delete i p) j
          (ground (arith, lookup-delete j k b)) in
      ground arith
]
  where
    sub_delete : (i : ℕ) → has i a ≡ true → has i (delete k b) ≡ true
    sub_delete i p = ground (arith, lookup-delete i k b, sub i, ==_iff k i)
