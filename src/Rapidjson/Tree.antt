-- ===== src/Rapidjson/Tree.antt =====
-- The documents that the messages are made of, and the calls of a `rapidjson::Writer` that write them.
use core_cpp_archive.Prelude.{
  Bool, List, Option, Text, [], bytes_eq, false, if◌then◌else◌, int_eq, loc_eq, ltb, nat_eq, none,
  some, true, ℕ, ℤ, ◌==◌, ◌∷◌,
}

-- One call of a writer. `Uint`, `Uint64` and `Int64` all write the digits of their number.
pub data Event : Type 0 where
  start_object end_object start_array end_array : Event
  write_string : Text → Event
  write_number : ℤ → Event
  write_bool : Bool → Event

abbrev pub write_uint : ℕ → Event
write_uint n = write_number (ℤ.pos n)

mutual
  pub data Json : Type 0 where
    string : Text → Json
    numeric : ℤ → Json
    boolean : Bool → Json
    array : Elements → Json
    object : Members → Json

  pub data Elements : Type 0 where
    no_elements : Elements
    element : Json → Elements → Elements

  pub data Members : Type 0 where
    no_members : Members
    member : Text → Json → Members → Members

abbrev pub elements_of : List Json → Elements
elements_of [] = no_elements
elements_of (j ∷ js) = element j (elements_of js)

-- The calls that write a document, in front of the calls that follow.
abbrev mutual
  pub events : Json → List Event → List Event
  events (string s) rest = write_string s ∷ rest
  events (numeric z) rest = write_number z ∷ rest
  events (boolean b) rest = write_bool b ∷ rest
  events (array js) rest = start_array ∷ element_events js (end_array ∷ rest)
  events (object ms) rest = start_object ∷ member_events ms (end_object ∷ rest)

  pub element_events : Elements → List Event → List Event
  element_events no_elements rest = rest
  element_events (element j js) rest = events j (element_events js rest)

  pub member_events : Members → List Event → List Event
  member_events no_members rest = rest
  member_events (member k j ms) rest = write_string k ∷ events j (member_events ms rest)

-- The first member of a name.
abbrev pub find_member : Text → Members → Option Json
find_member k no_members = none
find_member k (member l j ms) = if l == k then some j else find_member k ms

abbrev pub has_all : List Text → Members → Bool
has_all [] ms = true
has_all (k ∷ ks) ms = elim (find_member k ms) [ none ↦ false | some j ↦ has_all ks ms ]

-- What each getter gives for a document, `none` where the library asserts.
abbrev pub as_string : Json → Option Text
as_string (string s) = some s
as_string _ = none

abbrev pub as_bool : Json → Option Bool
as_bool (boolean b) = some b
as_bool _ = none

abbrev pub as_unsigned : ℕ → Json → Option ℕ
as_unsigned bound (numeric (ℤ.pos n)) = if ltb n bound then some n else none
as_unsigned bound _ = none

abbrev pub as_signed : ℕ → Json → Option ℤ
as_signed bound (numeric (ℤ.pos n)) = if ltb n bound then some (ℤ.pos n) else none
as_signed bound (numeric (ℤ.negsuc n)) = if ltb n bound then some (ℤ.negsuc n) else none
as_signed bound _ = none

abbrev pub as_elements : Json → Option Elements
as_elements (array js) = some js
as_elements _ = none

abbrev pub as_members : Json → Option Members
as_members (object ms) = some ms
as_members _ = none

abbrev pub is_some : {A : Type 0} → Option A → Bool
is_some none = false
is_some (some a) = true
