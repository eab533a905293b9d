-- ===== src/Rapidjson/Api.antt =====
-- What the source calls of RapidJSON, as a parameter, and the checks that all messages make with it.
use core_cpp_archive.Prelude.{
  Bool, List, Option, Text, [], bytes_eq, false, if◌then◌else◌, int_eq, loc_eq, nat_eq, none, some,
  text, true, ℕ, ℤ, ◌==◌, ◌^◌, ◌∷◌, ◌≡◌,
}
use core_cpp_archive.Rapidjson.Tree.{
  Elements, Event, Json, Members, as_bool, as_elements, as_members, as_signed, as_string,
  as_unsigned, element, events, find_member, is_some, no_elements, object,
}

-- The getters are `none` where the library asserts: a value of another kind, or a missing member.
pub record RapidJson : Type 1 where
  pub Value : Type 0
  -- The text that is sent.
  pub Wire : Type 0
  pub output : List Event → Wire
  pub parse : Wire → Value
  pub is_object : Value → Bool
  pub is_array : Value → Bool
  pub has_member : Value → Text → Option Bool
  pub get_member : Value → Text → Option Value
  pub get_elements : Value → Option (List Value)
  pub get_string : Value → Option Text
  pub get_bool : Value → Option Bool
  pub get_uint : Value → Option ℕ
  pub get_uint64 : Value → Option ℕ
  pub get_int : Value → Option ℤ
  pub get_int64 : Value → Option ℤ

abbrev pub map_option : {A B : Type 0} → (A → B) → Option A → Option B
map_option f none = none
map_option f (some a) = some (f a)

abbrev pub values : {V : Type 0} → (Json → V) → Elements → List V
values f no_elements = []
values f (element j js) = f j ∷ values f js

-- The documented behaviour: the text that a writer makes of a document reads as that document.
pub record IsDocumented (r : RapidJson) : Type 0 where
  pub value : Json → r.Value
  pub parse_output : (j : Json) → r.parse (r.output (events j [])) ≡ value j
  pub is_object_value : (j : Json) → r.is_object (value j) ≡ is_some (as_members j)
  pub is_array_value : (j : Json) → r.is_array (value j) ≡ is_some (as_elements j)
  pub has_member_value :
      (ms : Members) (k : Text)
      → r.has_member (value (object ms)) k ≡ some (is_some (find_member k ms))
  pub get_member_value :
      (ms : Members) (k : Text)
      → r.get_member (value (object ms)) k ≡ map_option value (find_member k ms)
  pub get_elements_value :
      (j : Json) → r.get_elements (value j) ≡ map_option (values value) (as_elements j)
  pub get_string_value : (j : Json) → r.get_string (value j) ≡ as_string j
  pub get_bool_value : (j : Json) → r.get_bool (value j) ≡ as_bool j
  pub get_uint_value : (j : Json) → r.get_uint (value j) ≡ as_unsigned (2 ^ 32) j
  pub get_uint64_value : (j : Json) → r.get_uint64 (value j) ≡ as_unsigned (2 ^ 64) j
  pub get_int_value : (j : Json) → r.get_int (value j) ≡ as_signed (2 ^ 31) j
  pub get_int64_value : (j : Json) → r.get_int64 (value j) ≡ as_signed (2 ^ 63) j

-- A result of `deserialize`: an assertion of the library that fails, `nullopt`, or an object.
pub data Read (A : Type 0) : Type 0 where
  undefined : Read A
  nullopt : Read A
  got : A → Read A

infixl 5 ◌>>=◌
abbrev pub ◌>>=◌ : {A B : Type 0} → Read A → (A → Read B) → Read B
undefined >>= f = undefined
nullopt >>= f = nullopt
got a >>= f = f a

unfoldable pub demand : {A : Type 0} → Option A → Read A
demand none = undefined
demand (some a) = got a

-- A `char const *` read as a string ends at the first byte 0.
unfoldable pub c_str : Text → Text
c_str [] = []
c_str (c ∷ s) = if c == 0 then [] else c ∷ c_str s

-- Such a string loses nothing.
abbrev pub IsCString : Text → Type 0
IsCString s = c_str s ≡ s

module _ (r : RapidJson) where
  -- `if(!d.HasMember(…) || …) return nullopt;`
  unfoldable pub check_members : r.Value → List Text → Read Unit
  check_members d [] = got tt
  check_members d (k ∷ ks) = elim (r.has_member d k) [
    | none ↦ undefined
    | some false ↦ nullopt
    | some true ↦ check_members d ks
  ]

  unfoldable pub require : Bool → Read Unit
  require true = got tt
  require false = nullopt

  -- `if(!v.IsObject() || !v.HasMember(…) || …)`
  unfoldable pub check_object : r.Value → List Text → Read Unit
  check_object v ks = do _ ← require (r.is_object v); check_members v ks

  unfoldable pub at : r.Value → Text → Read r.Value
  at d k = demand (r.get_member d k)

  unfoldable pub string_at : r.Value → Text → Read Text
  string_at d k = do v ← at d k; s ← demand (r.get_string v); got (c_str s)

  unfoldable pub bool_at : r.Value → Text → Read Bool
  bool_at d k = do v ← at d k; demand (r.get_bool v)

  unfoldable pub uint_at : r.Value → Text → Read ℕ
  uint_at d k = do v ← at d k; demand (r.get_uint v)

  unfoldable pub uint64_at : r.Value → Text → Read ℕ
  uint64_at d k = do v ← at d k; demand (r.get_uint64 v)

  unfoldable pub int_at : r.Value → Text → Read ℤ
  int_at d k = do v ← at d k; demand (r.get_int v)

  unfoldable pub int64_at : r.Value → Text → Read ℤ
  int64_at d k = do v ← at d k; demand (r.get_int64 v)

  -- `auto &a = d[…]; if(!a.IsArray()) return nullopt;`
  unfoldable pub array_at : r.Value → Text → Read (List r.Value)
  array_at d k = do v ← at d k; _ ← require (r.is_array v); demand (r.get_elements v)

  -- `if(d["type"].GetString() != type) return nullopt;`
  unfoldable pub check_type : r.Value → Text → Read Unit
  check_type d type = do t ← string_at d (text "type"); require (t == type)

  -- A loop that reads each value of an array and appends what it reads to a vector.
  unfoldable pub read_each :
      {A : Type 0} → (r.Value → List A → Read (List A)) → List r.Value → List A → Read (List A)
  read_each f [] objs = got objs
  read_each f (v ∷ vs) objs = f v objs >>= read_each f vs
