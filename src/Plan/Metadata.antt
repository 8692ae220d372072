-- ===== src/Plan/Metadata.antt =====
-- The values in a metadata mapping, and policy_governance.py's search for a secret marker in them.
pub mod Marked
use Prim.Native.Char.{code}
use Prim.Native.String.{String}
use Prim.Native.String
use cyber_hive.Prelude.{
  leb, nat_beq, if◌then◌else◌, ◌==◌, nat_eq, string_eq, ℕ, ◌+◌, Bool, true, false, ◌&&◌, ◌||◌,
  Option, none, some, [], ◌∷◌,
}

-- `scalar s` is any value that is no text, mapping or sequence, with `s` for its `str`.
mutual
  pub data Value : Type 0 where
    null : Value
    text : String → Value
    number : ℕ → Value
    scalar : String → Value
    mapping : Fields → Value
    sequence : Items → Value

  pub data Items : Type 0 where
    nil : Items
    cons : Value → Items → Items

  pub data Fields : Type 0 where
    end : Fields
    field : String → Value → Fields → Fields

unfoldable pub lower : ℕ → ℕ
lower c = if leb 65 c && leb c 90 then c + 32 else c

-- `s.lower() == word` for a word in lower case. No letter outside ASCII has a lower case that is one
-- of the letters of the three words which the code compares with.
unfoldable pub lower_is : String → String → Bool
unfolding lower
lower_is String.[] String.[] = true
lower_is (String.◌∷◌ c s) (String.◌∷◌ d w) = nat_beq (lower (code c)) (code d) && lower_is s w
lower_is _ _ = false

-- `str(nested).lower() == "secret"`; the `str` of a number, a mapping or a sequence is another text
unfoldable pub says_secret : Value → Bool
unfolding lower_is
says_secret (text s) = lower_is s "secret"
says_secret (scalar s) = lower_is s "secret"
says_secret _ = false

unfoldable pub is_label : String → Bool
unfolding lower_is
is_label key = lower_is key "sensitivity" || lower_is key "classification"

unfoldable mutual
  unfolding is_label says_secret

  pub contains_secret_marker : Value → Bool
  contains_secret_marker null = false
  contains_secret_marker (text s) = false
  contains_secret_marker (number n) = false
  contains_secret_marker (scalar s) = false
  contains_secret_marker (mapping fs) = fields_contain fs
  contains_secret_marker (sequence xs) = items_contain xs

  pub items_contain : Items → Bool
  items_contain nil = false
  items_contain (cons x xs) = contains_secret_marker x || items_contain xs

  pub fields_contain : Fields → Bool
  fields_contain end = false
  fields_contain (field key nested rest) =
      (is_label key && says_secret nested) || contains_secret_marker nested || fields_contain rest

-- `metadata.get(key)`
unfoldable pub get_field : String → Fields → Option Value
get_field key end = none
get_field key (field k v rest) = if k == key then some v else get_field key rest

-- `{**metadata, key: value}`
unfoldable pub set_field : String → Value → Fields → Fields
set_field key value end = field key value end
set_field key value (field k v rest) =
    let later = set_field key value rest in if k == key then field k value rest else field k v later
