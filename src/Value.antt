-- ===== src/Value.antt =====
-- The JavaScript values that the frontend (frontend/src) meets: what `JSON.parse` returns, the
-- truth of a value, `typeof`, `===` against a text, and the conversion of `${x}` in a template.
-- Numbers are the integers that the server sends. An array or an object that stands as the value
-- of a property is kept by its text alone, since the program only converts it.
mod Decimal
use Prim.Native.String
use text.Mathlib.Text.{◌==◌ as str_eq}
use Decimal.{decimal_ℤ}
use raft_in_motion.Prelude.{
  ℕ, String, ◌≡◌, refl, Bool, true, false, not, ◌||◌, List, [], ◌∷◌, ◌==◌, if◌then◌else◌,
}
use raft_in_motion.Prelude.Int.{ℤ, pos, negsuc}

pub data Value : Type 0 where
  undefined null : Value
  bool : Bool → Value
  num : ℤ → Value
  str : String → Value
  object : String → Value

-- The properties of an object.
abbrev pub Fields : Type 0
Fields = List (String × Value)

-- o.key: `undefined` where the object has no such key.
abbrev pub property : String → Fields → Value
property key [] = undefined
property key ((k, v) ∷ rest) = if str_eq k key then v else property key rest

-- What `JSON.parse` gives for one log: an object with properties, or anything else.
pub data Raw : Type 0 where
  scalar : Value → Raw
  log_object : Fields → Raw

-- A whole message: an array (`Array.isArray`), or one value.
pub data Payload : Type 0 where
  array : List Raw → Payload
  single : Raw → Payload

-- Boolean(v)
abbrev pub truthy : Value → Bool
truthy undefined = false
truthy null = false
truthy (bool b) = b
truthy (num (pos n)) = not (n == 0)
truthy (num (negsuc n)) = true
truthy (str s) = not (str_eq s "")
truthy (object s) = true

abbrev pub truthy_raw : Raw → Bool
truthy_raw (scalar v) = truthy v
truthy_raw (log_object fs) = true

-- typeof v
abbrev pub type_of : Value → String
type_of undefined = "undefined"
type_of null = "object"
type_of (bool b) = "boolean"
type_of (num n) = "number"
type_of (str s) = "string"
type_of (object s) = "object"

abbrev pub type_of_raw : Raw → String
type_of_raw (scalar v) = type_of v
type_of_raw (log_object fs) = "object"

-- raw.key; the arrays and scalars that reach the program have no property of these names.
abbrev pub property_raw : String → Raw → Value
property_raw key (scalar v) = undefined
property_raw key (log_object fs) = property key fs

-- `${v}`
unfoldable pub template : Value → String
unfolding decimal_ℤ
template undefined = "undefined"
template null = "null"
template (bool true) = "true"
template (bool false) = "false"
template (num n) = decimal_ℤ n
template (str s) = s
template (object s) = s

template_runs : template (num (negsuc 11)) ≡ "-12"
unfolding template
template_runs = refl
