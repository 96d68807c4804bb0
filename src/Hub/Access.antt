-- ===== src/Hub/Access.antt =====
-- The cache of access decisions: what a look-up returns after each operation.
use support_center.Prelude.{
  ℕ, ◌-◌, String, ◌≡◌, refl, Bool, none, some, ltb, if◌then◌else◌, retain, nat_eq, string_eq,
  option_eq, pair_eq,
}
use support_center.HashMap.Laws.{get-insert_self}
use support_center.Hub.{HubInner, access_cache_ttl}
use support_center.Hub.Users.{cached_access, cache_access, fresh_access, is_recent}

module _ (uid cid : String) (h : HubInner) where
  -- A decision that was stored is returned for less than five minutes, and not after.
  pub cached_access-cache_access :
      (allowed : Bool) (now later : ℕ)
      → cached_access uid cid later (cache_access uid cid allowed now h)
        ≡ (if ltb (later - now) access_cache_ttl then some allowed else none)
  unfolding cached_access cache_access fresh_access is_recent
  cached_access-cache_access allowed now later =
      rw
        (get-insert_self (retain (λ e. is_recent now e.1) h.access_cache) (uid, cid) (now, allowed))
        refl
