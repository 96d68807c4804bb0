-- ===== src/HashMap/Laws.antt =====
-- What a look-up sees after each operation of a map, and that the keys stay distinct.
use support_center.Prelude.{
  Key, ◌==◌, ==_refl, Bool, false, ◌≡◌, refl, none, some, [], ◌∷◌, if◌then◌else◌, arith, retain,
}
use support_center.HashMap.{HashMap, get, insert, remove, modify, contains_key, IsDistinct}

module _ {ℓ κ} {K : Type ℓ} {V : Type κ} ⦃e : Key K⦄ where
  pub get-insert :
      (m : HashMap K V) (k j : K) (v : V)
      → get (insert m k v) j ≡ (if k == j then some v else get m j)
  unfolding get insert
  get-insert [] k j v = refl
  get-insert ((i, w) ∷ m) k j v =
      ground (arith, e.same_iff k j, e.same_iff i k, e.same_iff i j, get-insert m k j v)

  pub get-remove :
      (m : HashMap K V) (k j : K) → get (remove m k) j ≡ (if k == j then none else get m j)
  unfolding get remove
  get-remove [] k j = ground arith
  get-remove ((i, w) ∷ m) k j =
      ground (arith, e.same_iff k j, e.same_iff i k, e.same_iff i j, get-remove m k j)

  pub get-insert_self : (m : HashMap K V) (k : K) (v : V) → get (insert m k v) k ≡ some v
  get-insert_self m k v = rw (get-insert, ==_refl k)

  pub get-remove_self : (m : HashMap K V) (k : K) → get (remove m k) k ≡ none
  get-remove_self m k = rw (get-remove, ==_refl k)

  pub get-insert_ne :
      (m : HashMap K V) (k j : K) (v : V) → (k == j) ≡ false → get (insert m k v) j ≡ get m j
  get-insert_ne m k j v h = rw (get-insert, h)

  pub get-remove_ne : (m : HashMap K V) (k j : K) → (k == j) ≡ false → get (remove m k) j ≡ get m j
  get-remove_ne m k j h = rw (get-remove, h)

  pub insert-IsDistinct :
      (m : HashMap K V) (k : K) (v : V) → IsDistinct m → IsDistinct (insert m k v)
  unfolding contains_key insert
  insert-IsDistinct [] k v d = (refl, tt)
  insert-IsDistinct ((i, w) ∷ m) k v d =
      ground (arith, e.same_iff i k, e.same_iff k i, get-insert m k i v, insert-IsDistinct m k v)

  pub remove-IsDistinct : (m : HashMap K V) (k : K) → IsDistinct m → IsDistinct (remove m k)
  unfolding contains_key remove
  remove-IsDistinct [] k d = tt
  remove-IsDistinct ((i, w) ∷ m) k d =
      ground (arith, e.same_iff i k, e.same_iff k i, get-remove m k i, remove-IsDistinct m k)

  -- A key that is missing stays missing when entries are dropped.
  pub get-retain-none :
      (p : K × V → Bool) (m : HashMap K V) (k : K) → get m k ≡ none → get (retain p m) k ≡ none
  unfolding get
  get-retain-none p [] k h = h
  get-retain-none p ((i, w) ∷ m) k h = ground (arith, get-retain-none p m k)

  -- A test of the keys decides by key.
  pub get-retain_key :
      (q : K → Bool) (m : HashMap K V) (k : K)
      → get (retain (λ x. q x.0) m) k ≡ (if q k then get m k else none)
  unfolding get
  get-retain_key q [] k = ground arith
  get-retain_key q ((i, w) ∷ m) k = ground (arith, e.same_iff i k, get-retain_key q m k)

  -- A change in place shows at its key.
  pub get-modify_self :
      (change : V → V) (m : HashMap K V) (k : K) (v : V)
      → get m k ≡ some v
      → get (modify change m k) k ≡ some (change v)
  unfolding get modify
  get-modify_self change [] k v h = cc
  get-modify_self change ((i, w) ∷ m) k v h = ground (arith, get-modify_self change m k v)

  pub get-modify_ne :
      (change : V → V) (m : HashMap K V) (k j : K)
      → (k == j) ≡ false
      → get (modify change m k) j ≡ get m j
  unfolding get modify
  get-modify_ne change [] k j h = refl
  get-modify_ne change ((i, w) ∷ m) k j h =
      ground (arith, get-modify_ne change m k j, e.same_iff i k, e.same_iff i j, e.same_iff k j)

  pub get-modify-none :
      (change : V → V) (m : HashMap K V) (k : K) → get m k ≡ none → get (modify change m k) k ≡ none
  unfolding get modify
  get-modify-none change [] k h = refl
  get-modify-none change ((i, w) ∷ m) k h = ground (arith, get-modify-none change m k)

  pub retain-IsDistinct :
      (p : K × V → Bool) (m : HashMap K V) → IsDistinct m → IsDistinct (retain p m)
  unfolding contains_key
  retain-IsDistinct p [] d = tt
  retain-IsDistinct p ((i, w) ∷ m) d = ground (arith, get-retain-none p m i, retain-IsDistinct p m)

  -- `retain` keeps exactly the entries that pass the test.
  pub get-retain-some :
      (p : K × V → Bool) (m : HashMap K V) (k : K) (v : V)
      → IsDistinct m
      → get m k ≡ some v
      → get (retain p m) k ≡ (if p (k, v) then some v else none)
  unfolding contains_key
  get-retain-some p [] k v d h = cc
  get-retain-some p ((i, w) ∷ m) k v d h =
      ground (arith, e.same_iff i k, get-retain-some p m k v, get-retain-none p m k)

pub ruleset map_laws = (get-insert, get-remove)
