-- ===== src/Client/Values.antt =====
-- The values that `JSON.parse` gives src/llm/client.ts, and what it throws while it reads them.
use c_interface_discovery.Prelude.{
  ℕ, Text, List, [], ◌∷◌, Option, none, some, Bool, true, false, not, ◌||◌, ◌===◌, codes,
  if◌then◌else◌,
}
use c_interface_discovery.Ask.Types.{ErrorKind}

-- A number is its text, as `${n}` prints it.
mutual
  pub data Json : Type 0 where
    null : Json
    bool : Bool → Json
    num : Text → Json
    str : Text → Json
    arr : Items → Json
    obj : Fields → Json

  pub data Items : Type 0 where
    nil : Items
    cons : Json → Items → Items

  pub data Fields : Type 0 where
    end : Fields
    field : Text → Json → Fields → Fields

pub record LlmError : Type 0 where
  pub message : Text
  pub kind : ErrorKind
  pub status : Option ℕ
  pub detail : Option Text

unfoldable pub llm_error_of : Text → ErrorKind → LlmError
llm_error_of message kind = record { message = message; kind = kind; status = none; detail = none }

-- An `LlmError`, or another exception with its `name` and its message.
pub data Thrown : Type 0 where
  llm_thrown : LlmError → Thrown
  other_thrown : Text → Text → Thrown

pub data Outcome {ℓ} (A : Type ℓ) : Type ℓ where
  ok : A → Outcome A
  throws : Thrown → Outcome A

infixl 5 ◌>>=◌
abbrev pub ◌>>=◌ {ℓ κ} : {A : Type ℓ} {B : Type κ} → Outcome A → (A → Outcome B) → Outcome B
ok a >>= f = f a
throws e >>= f = throws e

-- The runtime: `JSON.parse`, `none` where it throws, `JSON.stringify` and `String`.
pub record Runtime : Type 0 where
  pub parse : Text → Option Json
  pub stringify : Json → Text
  pub text_of : Json → Text

unfoldable pub lookup_field : Fields → Text → Option Json
lookup_field end k = none
lookup_field (field j v fs) k = let rest = lookup_field fs k in if j === k then some v else rest

-- A property of a value that is not null; `none` is undefined.
unfoldable pub prop : Json → Text → Option Json
prop (obj fs) k = lookup_field fs k
prop _ k = none

-- `(v as Record).k`, which throws on null.
unfoldable pub read : Json → Text → Outcome (Option Json)
read null k = throws (other_thrown (codes "TypeError") (codes "Cannot read properties of null"))
read v k = ok (prop v k)

unfoldable pub is_truthy : Option Json → Bool
is_truthy none = false
is_truthy (some null) = false
is_truthy (some (bool b)) = b
is_truthy (some (num n)) = not (n === codes "0" || n === codes "NaN")
is_truthy (some (str s)) = not (s === [])
is_truthy (some _) = true

-- `v ?? {}`
unfoldable pub or_object : Option Json → Json
or_object none = obj end
or_object (some null) = obj end
or_object (some v) = v

-- `typeof v === 'string'`
unfoldable pub as_text : Option Json → Option Text
as_text (some (str s)) = some s
as_text _ = none

-- `typeof v === 'string' ? v : ''`
unfoldable pub text_or_empty : Option Json → Text
text_or_empty (some (str s)) = s
text_or_empty _ = []

unfoldable pub items_of : Items → List Json
items_of nil = []
items_of (cons v vs) = v ∷ items_of vs

-- `Array.isArray(v) ? v : []`
unfoldable pub as_array : Option Json → List Json
as_array (some (arr vs)) = items_of vs
as_array _ = []

unfoldable pub first : List Json → Option Json
first [] = none
first (v ∷ vs) = some v

unfoldable pub if_truthy : Option Json → Option Json
if_truthy v = if is_truthy v then v else none

-- `Array.isArray(v) ? v[0] : undefined`, `none` where it is falsy
unfoldable pub first_choice : Option Json → Option Json
first_choice v = if_truthy (first (as_array v))
