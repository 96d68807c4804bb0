-- ===== src/Locks/Rounds.antt =====
-- One round of `acquire`, and `drop`.
use support_center.Prelude.{
  ℕ, ◌≤◌, String, ◌≡◌, Bool, true, false, ◌&&◌, none, some, arith, if◌then◌else◌, nat_eq, string_eq,
  option_eq, pair_eq, ◌==◌,
}
use support_center.HashMap.{get}
use support_center.HashMap.Laws.{get-remove}
use support_center.Locks.{Locks, LeaseGuard, is_free, drop, token_of}

-- The lock can be taken now: nobody holds the key, or the lease of who holds it has lapsed.
abbrev pub IsFree : Locks → String → ℕ → Type 0
IsFree s key now = (t x : ℕ) → get s.holders key ≡ some (t, x) → x ≤ now

pub is_free_sound :
    (s : Locks) (key : String) (now : ℕ) → is_free (get s.holders key) now ≡ true → IsFree s key now
unfolding is_free
is_free_sound s key now h t x e = ground arith

-- The guard still owns its key.
abbrev pub owns : Locks → LeaseGuard → Bool
owns s g = token_of (get s.holders g.key) == some g.token

-- Dropping a guard frees its key if the guard still owns it, and changes nothing if its lease was
-- reclaimed by another owner; no other key is touched.
pub get-drop :
    (s : Locks) (g : LeaseGuard) (k : String)
    → s.poisoned ≡ false
    → get (drop g s).holders k ≡ (if g.key == k && owns s g then none else get s.holders k)
unfolding drop
get-drop s g k p = rw p (ground (arith, get-remove s.holders g.key k))
