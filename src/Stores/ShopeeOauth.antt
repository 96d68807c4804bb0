-- ===== src/Stores/ShopeeOauth.antt =====
-- ShopeeOAuthStateStore: the one-time state of a shop's authorization.
use support_center.Prelude.{
  ℕ, ◌-◌, ◌*◌, String, ◌≡◌, refl, ◌∙◌, inl, inr, Bool, false, Option, none, some, List, [], ◌∷◌,
  ltb, if◌then◌else◌, Bool-cases, retain, All, nat_eq, string_eq, option_eq, pair_eq, ◌==◌,
  ==_sound,
}
use support_center.HashMap
use support_center.HashMap.{HashMap}
use support_center.HashMap.Laws.{get-remove_self, get-insert_ne, get-retain-none, get-remove_ne}

pub record ShopeeOauthEntry : Type 0 where
  pub user_id : String
  pub shop_id : ℕ
  pub team_id : Option ℕ
  pub created : ℕ

abbrev pub shopee_oauth_state_ttl : ℕ
shopee_oauth_state_ttl = 600 * 1000000000

abbrev pub ShopeeOauthStateStore : Type 0
ShopeeOauthStateStore = HashMap String ShopeeOauthEntry

abbrev pub is_live : ℕ → ShopeeOauthEntry → Bool
is_live now e = ltb (now - e.created) shopee_oauth_state_ttl

unfoldable pub put :
    String → String → ℕ → Option ℕ → ℕ → ShopeeOauthStateStore → ShopeeOauthStateStore
unfolding HashMap.insert
put token user_id shop_id team_id now entries =
    HashMap.insert (retain (λ e. is_live now e.1) entries) token
      (record { user_id = user_id; shop_id = shop_id; team_id = team_id; created = now })

unfoldable pub taken : ℕ → Option ShopeeOauthEntry → Option ShopeeOauthEntry
taken now none = none
taken now (some e) = if is_live now e then some e else none

unfoldable pub take :
    String → ℕ → ShopeeOauthStateStore → Option ShopeeOauthEntry × ShopeeOauthStateStore
unfolding taken HashMap.get HashMap.remove
take token now entries = (taken now (HashMap.get entries token), HashMap.remove entries token)

-- What may happen to the store between two uses of a token: other tokens are put and taken.
pub data Call : Type 0 where
  puts : String → String → ℕ → Option ℕ → ℕ → Call
  takes : String → ℕ → Call

unfoldable pub step : Call → ShopeeOauthStateStore → ShopeeOauthStateStore
unfolding put take
step (puts token user_id shop_id team_id now) entries =
    put token user_id shop_id team_id now entries
step (takes token now) entries = (take token now entries).1

unfoldable pub run : List Call → ShopeeOauthStateStore → ShopeeOauthStateStore
unfolding step
run [] entries = entries
run (c ∷ cs) entries = run cs (step c entries)

-- The call does not put this token.
abbrev pub Spares : String → Call → Type 0
Spares token (puts other user_id shop_id team_id now) = (other == token) ≡ false
Spares token (takes other now) = Unit

module _ (token : String) where
  step-none :
      (c : Call) (entries : ShopeeOauthStateStore)
      → Spares token c
      → HashMap.get entries token ≡ none
      → HashMap.get (step c entries) token ≡ none
  unfolding step put take
  step-none (puts other user_id shop_id team_id now) entries s e =
      get-insert_ne (retain (λ x. is_live now x.1) entries) other token _ s
      ∙ get-retain-none (λ x. is_live now x.1) entries token e
  step-none (takes other now) entries s e = elim (Bool-cases (other == token)) [
    | inl same ↦ rw (==_sound other token same) (get-remove_self entries token)
    | inr away ↦ get-remove_ne entries other token away ∙ e
  ]

  run-none :
      (cs : List Call) (entries : ShopeeOauthStateStore)
      → All (Spares token) cs
      → HashMap.get entries token ≡ none
      → HashMap.get (run cs entries) token ≡ none
  unfolding run
  run-none [] entries s e = e
  run-none (c ∷ cs) entries s e = run-none cs (step c entries) s.1 (step-none c entries s.0 e)

  -- A state token is good for one authorization: once it was taken, no later attempt gets it, whatever
  -- was put and taken in between, unless the same token is put again.
  pub take_once :
      (now later : ℕ) (cs : List Call) (entries : ShopeeOauthStateStore)
      → All (Spares token) cs
      → (take token later (run cs (take token now entries).1)).0 ≡ none
  unfolding take taken
  take_once now later cs entries s =
      rw (run-none cs (HashMap.remove entries token) s (get-remove_self entries token)) refl
