-- ===== src/Json.antt =====
-- The values of `serde_json` and the accessors that the program calls. A number has the three
-- variants of `serde_json::Number`; a float is its bit pattern.
use support_center.Prelude.{
  ℕ, String, Bool, Option, none, some, List, [], ◌∷◌, if◌then◌else◌, unwrap_or, nat_eq, string_eq,
  option_eq, pair_eq, ◌==◌,
}

mutual
  pub data Value : Type 0 where
    null : Value
    bool : Bool → Value
    pos_int : ℕ → Value
    neg_int : ℕ → Value
    float : ℕ → Value
    str : String → Value
    arr : Values → Value
    obj : Fields → Value

  pub data Values : Type 0 where
    nil : Values
    cons : Value → Values → Values

  pub data Fields : Type 0 where
    end : Fields
    field : String → Value → Fields → Fields

abbrev pub lookup_field : Fields → String → Option Value
lookup_field end k = none
lookup_field (field j v fs) k = if j == k then some v else lookup_field fs k

abbrev pub set_field : Fields → String → Value → Fields
set_field end k v = field k v end
set_field (field j w fs) k v = if j == k then field k v fs else field j w (set_field fs k v)

-- `Value::get` with a key.
abbrev pub member : Value → String → Option Value
member (obj fs) k = lookup_field fs k
member null k = none
member _ k = none

abbrev pub as_str : Value → Option String
as_str (str s) = some s
as_str null = none
as_str _ = none

abbrev pub as_u64 : Value → Option ℕ
as_u64 (pos_int n) = some n
as_u64 null = none
as_u64 _ = none

abbrev pub list_of : Values → List Value
list_of nil = []
list_of (cons v vs) = v ∷ list_of vs

abbrev pub as_array : Value → Option (List Value)
as_array (arr vs) = some (list_of vs)
as_array null = none
as_array _ = none

abbrev pub and_then {ℓ κ} : {A : Type ℓ} {B : Type κ} → Option A → (A → Option B) → Option B
and_then none f = none
and_then (some a) f = f a

-- `v.get(k).and_then(Value::as_str)`, and so on.
abbrev pub str_at : Value → String → Option String
str_at v k = and_then (member v k) as_str

abbrev pub u64_at : Value → String → Option ℕ
u64_at v k = and_then (member v k) as_u64

-- `.and_then(Value::as_array).into_iter().flatten()`
abbrev pub array_at : Value → String → List Value
array_at v k = unwrap_or (and_then (member v k) as_array) []

-- `json!({ … })`, and the vectors and options of strings in it.
abbrev pub fields_of : List (String × Value) → Fields
fields_of [] = end
fields_of ((k, v) ∷ rest) = field k v (fields_of rest)

abbrev pub object : List (String × Value) → Value
object fs = obj (fields_of fs)

abbrev pub strings : List String → Values
strings [] = nil
strings (s ∷ rest) = cons (str s) (strings rest)

abbrev pub str_or_null : Option String → Value
str_or_null none = null
str_or_null (some s) = str s
