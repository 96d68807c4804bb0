-- ===== src/HashMap.antt =====
-- `std::collections::HashMap` as an association list. `insert` replaces in place and `remove` drops
-- the key, so the keys stay distinct. What the program computes by iterating follows the order of
-- the list, which stands for one of the orders in which the real map may be walked.
pub mod Laws
pub mod Counts
use support_center.Prelude.{
  Key, ◌==◌, Bool, false, ◌≡◌, Option, none, some, List, [], ◌∷◌, if◌then◌else◌, unwrap_or, is_some,
  map,
}

abbrev pub HashMap {ℓ κ} : Type ℓ → Type κ → Type (ℓ ⊔ κ)
HashMap K V = List (K × V)

module _ {ℓ κ} {K : Type ℓ} {V : Type κ} where
  abbrev pub values : HashMap K V → List V
  values m = map (λ e. e.1) m

  -- A change of every value, as a loop over `values_mut` makes it.
  unfoldable pub map_values : (V → V) → HashMap K V → HashMap K V
  map_values change [] = []
  map_values change ((key, v) ∷ rest) = (key, change v) ∷ map_values change rest

  abbrev pub keys : HashMap K V → List K
  keys m = map (λ e. e.0) m

module _ {ℓ κ} {K : Type ℓ} {V : Type κ} ⦃e : Key K⦄ where
  unfoldable pub get : HashMap K V → K → Option V
  get [] key = none
  get ((other, found) ∷ rest) key = if other == key then some found else get rest key

  unfoldable pub insert : HashMap K V → K → V → HashMap K V
  insert [] key new = (key, new) ∷ []
  insert ((other, old) ∷ rest) key new =
      if other == key then (key, new) ∷ rest else (other, old) ∷ insert rest key new

  unfoldable pub remove : HashMap K V → K → HashMap K V
  remove [] key = []
  remove ((other, old) ∷ rest) key =
      if other == key then remove rest key else (other, old) ∷ remove rest key

  unfoldable pub contains_key : HashMap K V → K → Bool
  unfolding get
  contains_key m k = is_some (get m k)

  -- A change through `get_mut`; nothing on a missing key.
  unfoldable pub modify : (V → V) → HashMap K V → K → HashMap K V
  modify change [] key = []
  modify change ((other, old) ∷ rest) key =
      if other == key then (other, change old) ∷ rest else (other, old) ∷ modify change rest key

  -- `entry(k).or_default()`, read: the value that the entry then holds.
  unfoldable pub entry : HashMap K V → K → V → V
  unfolding get
  entry m k d = unwrap_or (get m k) d

  -- No key stands twice.
  abbrev pub IsDistinct : HashMap K V → Type 0
  IsDistinct [] = Unit
  IsDistinct ((k, v) ∷ m) = (contains_key m k ≡ false) × IsDistinct m
