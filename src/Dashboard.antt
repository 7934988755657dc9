-- ===== src/Dashboard.antt =====
-- streamlit-dashboard.py: the values that the API's JSON becomes, and the helpers over them. The
-- widgets of Streamlit are not modelled; what a person chooses in one is an argument.
pub mod Client
pub mod Loads
pub mod Permits
pub mod Tabs
pub mod Review
pub mod Session
pub mod Formats
pub mod Picks
use Prim.Native.Char.{Char, code}
use Prim.Native.String.{[] as empty, ◌∷◌ as ◌:::◌, ◌++◌ as ◌+++◌}
use project_6_document_class.Base.{
  ℕ, suc, zero, String, Bool, true, false, not, ◌==◌, ◌&&◌, ◌||◌, eqb, leb, List, [], ◌∷◌, Option,
  none, some, if◌then◌else◌,
}
use project_6_document_class.Domain.Ieee.{Double, less}
use Prim.Native.Nat.{◌%◌}
use project_6_document_class.Casbin.{strip}

-- A value of `json.loads`. A number is a double: the API sends no integer that is not one.
mutual
  pub data Value : Type 0 where
    null : Value
    flag : Bool → Value
    number : Double → Value
    text : String → Value
    array : Values → Value
    object : Fields → Value

  pub data Values : Type 0 where
    done : Values
    item : Value → Values → Values

  pub data Fields : Type 0 where
    end : Fields
    field : String → Value → Fields → Fields

abbrev pub items : Values → List Value
items done = []
items (item v vs) = v ∷ items vs

-- `d.get(key)` of a dict.
abbrev pub lookup : String → Fields → Option Value
lookup key end = none
lookup key (field k v fs) = if k == key then some v else lookup key fs

-- `v.get(key)`, where `v` is a dict.
abbrev pub get : String → Value → Option Value
get key (object fs) = lookup key fs
get key _ = none

abbrev pub is_zero : Double → Bool
is_zero x = eqb (x.bits % 9223372036854775808) 0

-- What `if v` and `v or ...` take as true.
abbrev pub truthy : Value → Bool
truthy null = false
truthy (flag b) = b
truthy (number x) = not (is_zero x)
truthy (text s) = not (s == "")
truthy (array done) = false
truthy (array _) = true
truthy (object end) = false
truthy (object _) = true

abbrev pub truthy_field : Option Value → Bool
truthy_field none = false
truthy_field (some v) = truthy v

-- `v if isinstance(v, list) else []`
abbrev pub list_or_empty : Value → List Value
list_or_empty (array vs) = items vs
list_or_empty _ = []

-- `v == "..."`
abbrev pub is_text : String → Option Value → Bool
is_text s (some (text t)) = t == s
is_text s _ = false

abbrev pub default_api_url : String
default_api_url = "http://localhost:8000"

abbrev is_slash : Char → Bool
is_slash c = eqb (code c) b'/'

-- `s.rstrip("/")`
unfoldable pub rstrip_slash : String → String
rstrip_slash empty = ""
rstrip_slash (c ::: s) = let r = rstrip_slash s in if is_slash c && r == "" then "" else c ::: r

-- The default is DEFAULT_API_URL where the variable DOCCLASSIFIER_API_URL is not set.
unfoldable pub normalize_base_url : String → String
unfolding rstrip_slash strip
normalize_base_url url = let t = rstrip_slash (strip url) in if t == "" then default_api_url else t

-- What Python's `float` makes of a text, if it does not raise a ValueError.
abbrev pub Parse : Type 0
Parse = String → Option Double

abbrev zero_double : Double
zero_double = record { bits = 0 }

abbrev pub confidence_value : Parse → Option Value → Double
confidence_value float (some (number x)) = x
confidence_value float (some (text t)) = elim (float t) [ none ↦ zero_double | some x ↦ x ]
confidence_value float (some (flag true)) = record { bits = 0x3FF0000000000000 }
confidence_value float _ = zero_double

-- The double of the literal 0.7.
abbrev pub review_limit : Double
review_limit = record { bits = 0x3FE6666666666666 }

pub data ReviewLabel : Type 0 where
  corrected needs_review auto : ReviewLabel

unfoldable pub review_label : Parse → Value → ReviewLabel
review_label float p =
    if truthy_field (get "relabeled_class" p)
    then corrected
    else if less (confidence_value float (get "confidence" p)) review_limit
    then needs_review
    else auto
