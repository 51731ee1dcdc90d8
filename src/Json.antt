-- ===== src/Json.antt =====
-- Values of `JSON.parse` and the conversions that the console applies to them (`??`, `||`,
-- `Number(…)`, `String(…)`, template literals, `padStart`).
-- A number is NaN, an infinity or an integer: every number that the API sends is an integer, and a
-- value beyond 2^53 is the integer that the double holds. How text reads as a number and how a
-- number prints (`StringToNumber`, `Number::toString`) is the argument `Numerals`.
pub mod Laws
pub mod Samples
use Prim.Native.String
use Prim.Native.String.{count}
use kprobe.Base.{
  ℕ, zero, suc, ◌-◌, String, Bool, true, false, Option, none, some, List, [], ◌∷◌, ltb, nat_eq,
  if◌then◌else◌, ◌==◌, Key, string_key,
}

pub data Num : Type 0 where
  nan pos_inf neg_inf : Num
  pos : ℕ → Num
  negsuc : ℕ → Num

-- `a < b`, false where either is NaN.
unfoldable pub lt_num : Num → Num → Bool
lt_num nan b = false
lt_num pos_inf b = false
lt_num neg_inf nan = false
lt_num neg_inf neg_inf = false
lt_num neg_inf b = true
lt_num (pos a) pos_inf = true
lt_num (pos a) (pos b) = ltb a b
lt_num (pos a) b = false
lt_num (negsuc a) pos_inf = true
lt_num (negsuc a) (pos b) = true
lt_num (negsuc a) (negsuc b) = ltb b a
lt_num (negsuc a) b = false

mutual
  pub data Value : Type 0 where
    null : Value
    bool : Bool → Value
    num : Num → Value
    str : String → Value
    arr : Items → Value
    obj : Fields → Value

  pub data Fields : Type 0 where
    end : Fields
    field : String → Value → Fields → Fields

  pub data Items : Type 0 where
    nil : Items
    cons : Value → Items → Items

-- `${…}` and `+` on texts.
abbrev pub template : List String → String
template [] = ""
template (s ∷ ss) = String.◌++◌ s (template ss)

-- `parts.join(sep)`
unfoldable pub join : String → List String → String
join sep [] = ""
join sep (s ∷ []) = s
join sep (s ∷ t ∷ ss) = String.◌++◌ s (String.◌++◌ sep (join sep (t ∷ ss)))

abbrev zeros : ℕ → String
zeros zero = ""
zeros (suc n) = String.◌++◌ "0" (zeros n)

-- `s.padStart(n, "0")`
unfoldable pub pad_start : ℕ → String → String
pad_start n s = String.◌++◌ (zeros (n - count s)) s

pub record Numerals : Type 0 where
  pub read : String → Num
  pub print : Num → String
  -- `(a / b).toFixed(d)`
  pub fixed : ℕ → ℕ → ℕ → String

-- A property of a parsed object; `undefined` is `none`.
unfoldable pub prop : String → Fields → Option Value
prop k end = none
prop k (field j v fs) = let rest = prop k fs in if j == k then some v else rest

unfoldable pub items : Items → List Value
items nil = []
items (cons v vs) = v ∷ items vs

-- The first of the values that is neither `undefined` nor `null`, as of a chain of `??`.
abbrev pub defined : Option Value → Option Value
defined none = none
defined (some null) = none
defined (some v) = some v

unfoldable pub first : Fields → List String → Option Value
first fs [] = none
first fs (k ∷ ks) = elim (defined (prop k fs)) [ none ↦ first fs ks | some v ↦ some v ]

-- Whether a value counts as true under `||` and `?:`.
unfoldable pub truthy : Value → Bool
truthy null = false
truthy (bool b) = b
truthy (num nan) = false
truthy (num (pos zero)) = false
truthy (num n) = true
truthy (str s) = if s == "" then false else true
truthy (arr vs) = true
truthy (obj fs) = true

-- `v || d`
abbrev pub or_else : Option Value → Value → Value
or_else none d = d
or_else (some v) d = if truthy v then v else d

-- `v ?? d`
abbrev pub coalesce : Option Value → Value → Value
coalesce none d = d
coalesce (some null) d = d
coalesce (some v) d = v

module _ (n : Numerals) where
  open n use {read, print}

  unfoldable mutual
    -- `String(v)`
    pub to_text : Value → String
    to_text null = "null"
    to_text (bool true) = "true"
    to_text (bool false) = "false"
    to_text (num x) = print x
    to_text (str s) = s
    to_text (arr vs) = join_items vs
    to_text (obj fs) = "[object Object]"

    -- `vs.join(",")`, in which `null` is the empty text
    pub join_items : Items → String
    join_items nil = ""
    join_items (cons v nil) = elim v [ null ↦ "" | _ ↦ to_text v ]
    join_items (cons v (cons w vs)) =
        String.◌++◌ (elim v [ null ↦ "" | _ ↦ to_text v ])
          (String.◌++◌ "," (join_items (cons w vs)))

  -- `Number(v)`
  unfoldable pub to_number : Value → Num
  to_number null = pos 0
  to_number (bool true) = pos 1
  to_number (bool false) = pos 0
  to_number (num x) = x
  to_number (str s) = read s
  to_number (arr vs) = read (to_text (arr vs))
  to_number (obj fs) = nan

-- `JSON.parse` (`none` is a `SyntaxError`) and `JSON.stringify`, with the conversions of numbers.
pub record Codec : Type 0 where
  pub numerals : Numerals
  pub parse : String → Option Value
  pub stringify : Value → String

-- `a === b` on numbers: NaN equals nothing.
unfoldable pub num_eq : Num → Num → Bool
num_eq pos_inf pos_inf = true
num_eq neg_inf neg_inf = true
num_eq (pos a) (pos b) = nat_eq a b
num_eq (negsuc a) (negsuc b) = nat_eq a b
num_eq _ _ = false

unfoldable pub is_finite : Num → Bool
is_finite nan = false
is_finite pos_inf = false
is_finite neg_inf = false
is_finite _ = true
