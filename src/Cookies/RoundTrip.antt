-- ===== src/Cookies/RoundTrip.antt =====
-- A cookie that is sent is read back.
use support_center.Prelude.{
  ℕ, ◌≡◌, refl, ap, ◌∙◌, Bool, true, false, not, ◌||◌, Option, none, some, List, [], ◌∷◌, ◌++◌,
  arith, if◌then◌else◌, All, nat_eq, string_eq, option_eq, pair_eq, ◌==◌,
}
use support_center.Chars.{Text, is_whitespace, trim_start, trim_end, trim, same_text}
use support_center.Cookies.{split, split_once, first_named, cookie_value}

-- No white space, separator or equality sign.
abbrev pub is_plain : ℕ → Bool
is_plain c = not (is_whitespace c || c == b';' || c == b'=')

abbrev pub IsPlain : Text → Type 0
IsPlain s = All (λ c. is_plain c ≡ true) s

abbrev pub pair_text : Text × Text → Text
pair_text (name, value) = name ++ b'=' ∷ value

-- The header that a browser sends of the cookies it has.
abbrev pub cookie_header : Text × Text → List (Text × Text) → Text
cookie_header p [] = pair_text p
cookie_header p (next ∷ rest) = pair_text p ++ b';' ∷ b' ' ∷ cookie_header next rest

abbrev pub ArePlain : List (Text × Text) → Type 0
ArePlain ps = All (λ p. IsPlain p.0 × IsPlain p.1) ps

abbrev pub lookup_cookie : Text → List (Text × Text) → Option Text
lookup_cookie name [] = none
lookup_cookie name ((k, v) ∷ rest) = if same_text k name then some v else lookup_cookie name rest

split-append :
    (s rest : Text)
    → All (λ c. (c == b';') ≡ false) s
    → split b';' (s ++ b';' ∷ rest) ≡ s ∷ split b';' rest
unfolding split
split-append [] rest h = refl
split-append (c ∷ s) rest (h, hs) = rw (h, split-append s rest hs) refl

split_whole : (s : Text) → All (λ c. (c == b';') ≡ false) s → split b';' s ≡ s ∷ []
unfolding split
split_whole [] h = refl
split_whole (c ∷ s) (h, hs) = rw (h, split_whole s hs) refl

split_once-append :
    (s rest : Text) → IsPlain s → split_once b'=' (s ++ b'=' ∷ rest) ≡ some (s, rest)
unfolding split_once
split_once-append [] rest h = refl
split_once-append (c ∷ s) rest (h, hs) =
    let other : (c == b'=') ≡ false = ground (arith, h) in
    rw (other, split_once-append s rest hs) refl

-- Text without white space at either end stays.
abbrev IsDark : Text → Type 0
IsDark s = All (λ c. is_whitespace c ≡ false) s

trim_start-IsDark : (s : Text) → IsDark s → trim_start s ≡ s
unfolding trim_start
trim_start-IsDark [] h = refl
trim_start-IsDark (c ∷ s) (h, hs) = rw h refl

abbrev end_of : ℕ → Text → Text
end_of c [] = if is_whitespace c then [] else c ∷ []
end_of c (d ∷ t) = c ∷ d ∷ t

trim_end-IsDark : (s : Text) → IsDark s → trim_end s ≡ s
unfolding trim_end
trim_end-IsDark [] h = refl
trim_end-IsDark (c ∷ []) (h, hs) = rw h refl
trim_end-IsDark (c ∷ d ∷ s) (h, hs) = rw (trim_end-IsDark (d ∷ s) hs) refl

trim-IsDark : (s : Text) → IsDark s → trim s ≡ s
unfolding trim
trim-IsDark s h = rw (trim_start-IsDark s h) (trim_end-IsDark s h)

trim_space : (s : Text) → IsDark s → trim (b' ' ∷ s) ≡ s
unfolding trim trim_start is_whitespace
trim_space s h = trim-IsDark s h

All-weakened : (P Q : ℕ → Type 0) (s : Text) → ((c : ℕ) → P c → Q c) → All P s → All Q s
All-weakened P Q [] f h = tt
All-weakened P Q (c ∷ s) f (h, hs) = (f c h, All-weakened P Q s f hs)

All-joined : (P : ℕ → Type 0) (s t : Text) → All P s → All P t → All P (s ++ t)
All-joined P [] t h k = k
All-joined P (c ∷ s) t (h, hs) k = (h, All-joined P s t hs k)

plain_dark : (c : ℕ) → is_plain c ≡ true → is_whitespace c ≡ false
plain_dark c h = ground (arith, h)

plain_inner : (c : ℕ) → is_plain c ≡ true → (c == b';') ≡ false
plain_inner c h = ground (arith, h)

abbrev IsDarkChar : ℕ → Type 0
IsDarkChar c = is_whitespace c ≡ false

abbrev IsInner : ℕ → Type 0
IsInner c = (c == b';') ≡ false

plain-IsDark : (s : Text) → IsPlain s → IsDark s
plain-IsDark s h = All-weakened (λ c. is_plain c ≡ true) IsDarkChar s plain_dark h

pair_text-IsDark :
    (name value : Text) → IsPlain name → IsPlain value → IsDark (pair_text (name, value))
unfolding is_whitespace
pair_text-IsDark name value h k =
    All-joined IsDarkChar name (b'=' ∷ value) (plain-IsDark name h) (refl, plain-IsDark value k)

pair_text-IsInner :
    (name value : Text) → IsPlain name → IsPlain value → All IsInner (pair_text (name, value))
pair_text-IsInner name value h k =
    All-joined IsInner name (b'=' ∷ value)
      (All-weakened (λ c. is_plain c ≡ true) IsInner name plain_inner h)
      (refl, All-weakened (λ c. is_plain c ≡ true) IsInner value plain_inner k)

module _ (wanted : Text) where
  -- One pair, without and with the space before it.
  read_lem :
      (name value : Text) (t : Text) (rest : List Text)
      → IsPlain name
      → IsPlain value
      → trim t ≡ pair_text (name, value)
      → first_named wanted (t ∷ rest)
        ≡ (if same_text name wanted then some value else first_named wanted rest)
  unfolding first_named
  read_lem name value t rest h k e =
      rw
        (
          e,
          split_once-append name value h,
          trim-IsDark name (plain-IsDark name h),
          trim-IsDark value (plain-IsDark value k),
        )
        refl

  nothing_lem : first_named wanted [] ≡ none
  unfolding first_named
  nothing_lem = refl

  spaced_lem :
      (p : Text × Text) (ps : List (Text × Text))
      → ArePlain (p ∷ ps)
      → first_named wanted (split b';' (b' ' ∷ cookie_header p ps)) ≡ lookup_cookie wanted (p ∷ ps)
  unfolding split
  spaced_lem (name, value) [] ((h, k), hs) =
      rw (split_whole (pair_text (name, value)) (pair_text-IsInner name value h k)) (
        read_lem name value (b' ' ∷ pair_text (name, value)) [] h k
          (trim_space (pair_text (name, value)) (pair_text-IsDark name value h k))
        ∙ ap (λ o. if same_text name wanted then some value else o) nothing_lem)
  spaced_lem (name, value) (q ∷ ps) ((h, k), hs) =
      rw
        (split-append (pair_text (name, value)) (b' ' ∷ cookie_header q ps)
          (pair_text-IsInner name value h k))
        (read_lem name value (b' ' ∷ pair_text (name, value)) _ h k
            (trim_space (pair_text (name, value)) (pair_text-IsDark name value h k))
          ∙ ap (λ o. if same_text name wanted then some value else o) (spaced_lem q ps hs))

  -- Of the cookies that a browser sends, in one header and without white space and signs in them, the
  -- first of the wanted name is read with its value, and none where there is none.
  pub cookie_value-cookie_header :
      (p : Text × Text) (ps : List (Text × Text))
      → ArePlain (p ∷ ps)
      → cookie_value (some (cookie_header p ps)) wanted ≡ lookup_cookie wanted (p ∷ ps)
  unfolding cookie_value
  cookie_value-cookie_header (name, value) [] ((h, k), hs) =
      rw (split_whole (pair_text (name, value)) (pair_text-IsInner name value h k)) (
        read_lem name value (pair_text (name, value)) [] h k
          (trim-IsDark (pair_text (name, value)) (pair_text-IsDark name value h k))
        ∙ ap (λ o. if same_text name wanted then some value else o) nothing_lem)
  cookie_value-cookie_header (name, value) (q ∷ ps) ((h, k), hs) =
      rw
        (split-append (pair_text (name, value)) (b' ' ∷ cookie_header q ps)
          (pair_text-IsInner name value h k))
        (read_lem name value (pair_text (name, value)) (split b';' (b' ' ∷ cookie_header q ps)) h k
            (trim-IsDark (pair_text (name, value)) (pair_text-IsDark name value h k))
          ∙ ap (λ o. if same_text name wanted then some value else o) (spaced_lem q ps hs))
