-- ===== src/Chars.antt =====
-- The methods of `str` that the program calls, on a text given by its code points.
use support_center.Prelude.{
  ltb, ℕ, String, ◌≡◌, Bool, true, false, ◌&&◌, ◌||◌, List, [], ◌∷◌, arith, leb, if◌then◌else◌, All,
  nat_eq, string_eq, option_eq, pair_eq, ◌==◌,
}
use support_center.Prelude.{Option, none, some, ◌+◌, ◌-◌, ◌*◌, ◌%◌, ◌^◌}
use Prim.Native.Char.{code}

abbrev pub Text : Type 0
Text = List ℕ

abbrev pub codes : String → Text
codes String.[] = []
codes (String.◌∷◌ c s) = code c ∷ codes s

-- `char::is_whitespace`: the property White_Space of Unicode.
unfoldable pub is_whitespace : ℕ → Bool
is_whitespace c =
    (leb 9 c && leb c 13)
    || c == 32
    || c == 133
    || c == 160
    || c == 5760
    || (leb 8192 c && leb c 8202)
    || c == 8232
    || c == 8233
    || c == 8239
    || c == 8287
    || c == 12288

unfoldable pub trim_start : Text → Text
trim_start [] = []
trim_start (c ∷ s) = if is_whitespace c then trim_start s else c ∷ s

-- `str::trim_end`: a run of white space is kept only where something follows it.
unfoldable pub trim_end : Text → Text
trim_end [] = []
trim_end (c ∷ s) = elim (trim_end s) [
  | [] ↦ if is_whitespace c then [] else c ∷ []
  | d ∷ t ↦ c ∷ d ∷ t
]

unfoldable pub trim : Text → Text
unfolding trim_start trim_end is_whitespace
trim s = trim_end (trim_start s)

-- `s.split(',').next()`, for any separator.
unfoldable pub before : ℕ → Text → Text
before sep [] = []
before sep (c ∷ s) = if c == sep then [] else c ∷ before sep s

unfoldable pub starts_with : Text → Text → Bool
starts_with s [] = true
starts_with [] (p ∷ ps) = false
starts_with (c ∷ s) (p ∷ ps) = c == p && starts_with s ps

unfoldable pub contains : Text → Text → Bool
contains [] p = starts_with [] p
contains (c ∷ s) p = starts_with (c ∷ s) p || contains s p

unfoldable pub ends_with : Text → Text → Bool
ends_with [] [] = true
ends_with [] (p ∷ ps) = false
ends_with (c ∷ s) p = starts_with p (c ∷ s) && starts_with (c ∷ s) p || ends_with s p

-- A separator does not stand in what is before it.
pub before-lacks : (sep : ℕ) (s : Text) → All (λ c. (c == sep) ≡ false) (before sep s)
unfolding before
before-lacks sep [] = tt
before-lacks sep (c ∷ s) = ground (arith, before-lacks sep s)

-- The order of texts, which is that of their UTF-8 bytes.
unfoldable pub text_lt : Text → Text → Bool
text_lt [] [] = false
text_lt [] (y ∷ ys) = true
text_lt (x ∷ xs) [] = false
text_lt (x ∷ xs) (y ∷ ys) = ltb x y || (x == y && text_lt xs ys)

-- `str::strip_prefix`.
unfoldable pub strip_prefix : Text → Text → Option Text
strip_prefix [] s = some s
strip_prefix (p ∷ ps) [] = none
strip_prefix (p ∷ ps) (c ∷ s) = if p == c then strip_prefix ps s else none

-- The value of a run of digits, and nothing if there is another character.
unfoldable pub digits : ℕ → Text → Option ℕ
digits acc [] = some acc
digits acc (c ∷ s) = if leb b'0' c && leb c b'9' then digits (10 * acc + (c - b'0')) s else none

unfoldable pub within_i64 : Bool → Option ℕ → Option ℕ
within_i64 negative none = none
within_i64 true (some n) = if leb n (2 ^ 63) then some ((2 ^ 64 - n) % 2 ^ 64) else none
within_i64 false (some n) = if ltb n (2 ^ 63) then some n else none

abbrev pub nonempty_digits : Text → Option ℕ
nonempty_digits [] = none
nonempty_digits (c ∷ s) = digits 0 (c ∷ s)

-- `str::parse::<i64>`, as the 64 bits of the number.
unfoldable pub parse_i64 : Text → Option ℕ
unfolding digits within_i64
parse_i64 [] = none
parse_i64 (c ∷ s) =
    if c == b'-'
    then within_i64 true (nonempty_digits s)
    else if c == b'+'
    then within_i64 false (nonempty_digits s)
    else within_i64 false (nonempty_digits (c ∷ s))

unfoldable pub same_text : Text → Text → Bool
same_text [] [] = true
same_text [] (c ∷ s) = false
same_text (c ∷ s) [] = false
same_text (c ∷ s) (d ∷ t) = c == d && same_text s t
