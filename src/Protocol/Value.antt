-- ===== src/Protocol/Value.antt =====
-- The values of JavaScript that cross the program's borders (JSON), with the operations that the
-- normalisers use on them. `clone` of src/protocol.js copies such a value; a model has no sharing,
-- so it is left out where it stands.
use codex_hooks.Base.{
  ℕ, zero, suc, ◌/◌, ◌%◌, String, Bool, true, false, not, Option, none, some, List, [], ◌∷◌, ◌==◌,
  eqb, ltb, if◌then◌else◌, concat, join,
}

mutual
  pub data Value : Type 0 where
    undefined : Value
    null : Value
    bool : Bool → Value
    num : ℕ → Value
    -- any other number, by its text
    real : String → Value
    str : String → Value
    obj : Fields → Value
    arr : Items → Value

  pub data Fields : Type 0 where
    end : Fields
    field : String → Value → Fields → Fields

  pub data Items : Type 0 where
    nil : Items
    cons : Value → Items → Items

unfoldable pub get_field : String → Fields → Value
get_field k end = undefined
get_field k (field j v fs) = if j == k then v else get_field k fs

-- `{ ...fields, k: v }`
unfoldable pub set_field : String → Value → Fields → Fields
set_field k v end = field k v end
set_field k v (field j w fs) = if j == k then field k v fs else field j w (set_field k v fs)

-- `value?.k`
unfoldable pub get : Value → String → Value
unfolding get_field
get (obj fs) k = get_field k fs
get v k = undefined

unfoldable pub truthy : Value → Bool
truthy undefined = false
truthy null = false
truthy (bool b) = b
truthy (num n) = not (eqb n 0)
truthy (real s) = not (s == "NaN")
truthy (str s) = not (s == "")
truthy (arr xs) = true
truthy (obj fs) = true

-- `value == null`
abbrev pub is_nullish : Value → Bool
is_nullish undefined = true
is_nullish null = true
is_nullish _ = false

-- `value && typeof value === "object"`
abbrev pub is_object : Value → Bool
is_object (arr xs) = true
is_object (obj fs) = true
is_object _ = false

-- `value && typeof value === "object" && !Array.isArray(value)`
abbrev pub is_record : Value → Bool
is_record (obj fs) = true
is_record _ = false

-- `typeof value === "string"`
abbrev pub text? : Value → Option String
text? (str s) = some s
text? _ = none

-- `value === s`
abbrev pub is_text : Value → String → Bool
is_text (str t) s = t == s
is_text _ s = false

-- `value === true`
abbrev pub is_true : Value → Bool
is_true (bool b) = b
is_true _ = false

-- `a || b`
unfoldable pub or_value : Value → Value → Value
unfolding truthy
or_value a b = if truthy a then a else b

-- `a ?? b`
abbrev pub or_given : Value → Value → Value
or_given a b = if is_nullish a then b else a

-- A string or null, as a value.
abbrev pub opt_str : Option String → Value
opt_str none = null
opt_str (some s) = str s

abbrev digit : ℕ → String
digit d =
    if eqb d 0
    then "0"
    else if eqb d 1
    then "1"
    else if eqb d 2
    then "2"
    else if eqb d 3
    then "3"
    else if eqb d 4
    then "4"
    else if eqb d 5
    then "5"
    else if eqb d 6
    then "6"
    else if eqb d 7
    then "7"
    else if eqb d 8
    then "8"
    else "9"

-- The digits of `n` before `rest`; the fuel is above the number of digits.
digits : ℕ → ℕ → String → String
digits zero n rest = rest
digits (suc fuel) n rest = elim (ltb n 10) [
  | true ↦ concat (digit n ∷ rest ∷ [])
  | false ↦ digits fuel (n / 10) (concat (digit (n % 10) ∷ rest ∷ []))
]

-- `String(n)`
unfoldable pub decimal : ℕ → String
unfolding digits
decimal n = digits (suc n) n ""

-- What `Array.prototype.join` writes for an element.
unfoldable mutual
  unfolding decimal

  pub join_text : Value → String
  join_text undefined = ""
  join_text null = ""
  join_text (bool true) = "true"
  join_text (bool false) = "false"
  join_text (num n) = decimal n
  join_text (real s) = s
  join_text (str s) = s
  join_text (arr xs) = join "," (join_texts xs)
  join_text (obj fs) = "[object Object]"

  pub join_texts : Items → List String
  join_texts nil = []
  join_texts (cons v vs) = join_text v ∷ join_texts vs
