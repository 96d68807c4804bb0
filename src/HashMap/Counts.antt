-- ===== src/HashMap/Counts.antt =====
-- How the number of values that pass a test changes.
use support_center.Prelude.{
  Key, suc, ◌≤◌, ap, ◌+◌, Bool, true, ◌≡◌, refl, none, some, [], ◌∷◌, if◌then◌else◌, arith,
  count_if, length,
}
use support_center.HashMap.{
  HashMap, get, insert, remove, contains_key, IsDistinct, values, modify, map_values,
}

module _ {ℓ κ} {K : Type ℓ} {V : Type κ} ⦃e : Key K⦄ where
  pub count_if-insert_new :
      (p : V → Bool) (m : HashMap K V) (k : K) (v : V)
      → get m k ≡ none
      → count_if p (values (insert m k v)) ≡ count_if p (values m) + (if p v then 1 else 0)
  unfolding get insert
  count_if-insert_new p [] k v h = ground arith
  count_if-insert_new p ((i, w) ∷ m) k v h = ground (arith, count_if-insert_new p m k v)

  pub remove_missing : (m : HashMap K V) (k : K) → get m k ≡ none → remove m k ≡ m
  unfolding get remove
  remove_missing [] k h = refl
  remove_missing ((i, w) ∷ m) k h = ground (arith, remove_missing m k)

  pub count_if-remove :
      (p : V → Bool) (m : HashMap K V) (k : K) (v : V)
      → IsDistinct m
      → get m k ≡ some v
      → count_if p (values m) ≡ count_if p (values (remove m k)) + (if p v then 1 else 0)
  unfolding contains_key remove
  count_if-remove p [] k v d h = cc
  count_if-remove p ((i, w) ∷ m) k v d h =
      ground (arith, e.same_iff i k, count_if-remove p m k v d.1, remove_missing m k)

  pub length-values : (m : HashMap K V) → length m ≡ count_if (λ v. true) (values m)
  length-values [] = refl
  length-values (x ∷ m) = ground (arith, length-values m)

  pub length-insert-le : (m : HashMap K V) (k : K) (v : V) → length (insert m k v) ≤ suc (length m)
  unfolding insert
  length-insert-le [] k v = omega arith
  length-insert-le ((i, w) ∷ m) k v = ground (arith, length-insert-le m k v)

  pub length-remove-le : (m : HashMap K V) (k : K) → length (remove m k) ≤ length m
  unfolding remove
  length-remove-le [] k = omega arith
  length-remove-le ((i, w) ∷ m) k = ground (arith, length-remove-le m k)

  pub length-modify :
      (change : V → V) (m : HashMap K V) (k : K) → length (modify change m k) ≡ length m
  unfolding modify
  length-modify change [] k = refl
  length-modify change ((i, w) ∷ m) k = ground (arith, length-modify change m k)

  pub length-map_values :
      (change : V → V) (m : HashMap K V) → length (map_values change m) ≡ length m
  unfolding map_values
  length-map_values change [] = refl
  length-map_values change ((i, w) ∷ m) = ap suc (length-map_values change m)
