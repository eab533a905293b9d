-- ===== src/Rapidjson/Decoder.antt =====
-- A small library with the documented behaviour, for examples: its text is the list of the calls
-- themselves, which it reads from the end.
use core_cpp_archive.Prelude.{List, Option, [], ap, none, refl, some, ◌^◌, ◌∷◌, ◌≡◌}
use core_cpp_archive.Rapidjson.Api.{IsDocumented, RapidJson, map_option, values}
use core_cpp_archive.Rapidjson.Tree.{
  Elements, Event, Json, Members, array, as_bool, as_elements, as_members, as_signed, as_string,
  as_unsigned, boolean, element, element_events, end_array, end_object, events, find_member,
  is_some, member, member_events, no_elements, no_members, numeric, object, start_array,
  start_object, string, write_bool, write_number, write_string,
}

abbrev push : Json → List Elements → List Elements
push j [] = []
push j (js ∷ st) = element j js ∷ st

abbrev push_all : Elements → List Elements → List Elements
push_all no_elements st = st
push_all (element j js) st = push j (push_all js st)

-- The values between the two ends of an object are names and members in turn.
abbrev pair_up : Elements → Members
pair_up (element (string k) (element j js)) = member k j (pair_up js)
pair_up _ = no_members

abbrev flatten : Members → Elements
flatten no_members = no_elements
flatten (member k j ms) = element (string k) (element j (flatten ms))

abbrev close_array : List Elements → List Elements
close_array [] = []
close_array (js ∷ st) = push (array js) st

abbrev close_object : List Elements → List Elements
close_object [] = []
close_object (js ∷ st) = push (object (pair_up js)) st

abbrev decode : List Event → List Elements
decode [] = no_elements ∷ []
decode (write_string s ∷ es) = push (string s) (decode es)
decode (write_number z ∷ es) = push (numeric z) (decode es)
decode (write_bool b ∷ es) = push (boolean b) (decode es)
decode (end_array ∷ es) = no_elements ∷ decode es
decode (end_object ∷ es) = no_elements ∷ decode es
decode (start_array ∷ es) = close_array (decode es)
decode (start_object ∷ es) = close_object (decode es)

abbrev first_value : List Elements → Json
first_value (element j no_elements ∷ []) = j
first_value _ = object no_members

pair_up-flatten : (ms : Members) → pair_up (flatten ms) ≡ ms
pair_up-flatten no_members = refl
pair_up-flatten (member k j ms) = ap (member k j) (pair_up-flatten ms)

push_all-new : (js : Elements) (st : List Elements) → push_all js (no_elements ∷ st) ≡ js ∷ st
push_all-new no_elements st = refl
push_all-new (element j js) st = rw (push_all-new js st)

mutual
  decode-events : (j : Json) (rest : List Event) → decode (events j rest) ≡ push j (decode rest)
  decode-events (string s) rest = refl
  decode-events (numeric z) rest = refl
  decode-events (boolean b) rest = refl
  decode-events (array js) rest =
      rw (decode-element_events js (end_array ∷ rest), push_all-new js (decode rest))
  decode-events (object ms) rest = rw (
    decode-member_events ms (end_object ∷ rest),
    push_all-new (flatten ms) (decode rest),
    pair_up-flatten ms,
  )

  decode-element_events :
      (js : Elements) (rest : List Event)
      → decode (element_events js rest) ≡ push_all js (decode rest)
  decode-element_events no_elements rest = refl
  decode-element_events (element j js) rest =
      rw (decode-events j (element_events js rest), decode-element_events js rest)

  decode-member_events :
      (ms : Members) (rest : List Event)
      → decode (member_events ms rest) ≡ push_all (flatten ms) (decode rest)
  decode-member_events no_members rest = refl
  decode-member_events (member k j ms) rest =
      rw (decode-events j (member_events ms rest), decode-member_events ms rest)

abbrev pub call_list : RapidJson
call_list = record {
  Value = Json;
  Wire = List Event;
  output = λ es. es;
  parse = λ es. first_value (decode es);
  is_object = λ j. is_some (as_members j);
  is_array = λ j. is_some (as_elements j);
  has_member = λ j k. map_option (λ ms. is_some (find_member k ms)) (as_members j);
  get_member = λ j k. elim (as_members j) [ none ↦ none | some ms ↦ find_member k ms ];
  get_elements = λ j. map_option (values (λ v. v)) (as_elements j);
  get_string = as_string;
  get_bool = as_bool;
  get_uint = as_unsigned (2 ^ 32);
  get_uint64 = as_unsigned (2 ^ 64);
  get_int = as_signed (2 ^ 31);
  get_int64 = as_signed (2 ^ 63);
}

map_option_same : {A : Type 0} (o : Option A) → o ≡ map_option (λ a. a) o
map_option_same none = refl
map_option_same (some a) = refl

pub call_list-IsDocumented : IsDocumented call_list
call_list-IsDocumented = record {
  value = λ j. j;
  parse_output = λ j. rw (decode-events j []);
  is_object_value = λ j. refl;
  is_array_value = λ j. refl;
  has_member_value = λ ms k. refl;
  get_member_value = λ ms k. map_option_same (find_member k ms);
  get_elements_value = λ j. refl;
  get_string_value = λ j. refl;
  get_bool_value = λ j. refl;
  get_uint_value = λ j. refl;
  get_uint64_value = λ j. refl;
  get_int_value = λ j. refl;
  get_int64_value = λ j. refl;
}
