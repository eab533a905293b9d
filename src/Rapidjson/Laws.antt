-- ===== src/Rapidjson/Laws.antt =====
-- What the checks and getters of `Api` give on a document that the library's writer has written.
use core_cpp_archive.Prelude.{
  All, Bool, List, Text, [], ap, arith, beq_refl, bytes_eq, false, if◌then◌else◌, int_eq, loc_eq,
  map, nat_eq, refl, some, text, true, ℕ, ℤ, ◌++◌, ◌<◌, ◌==◌, ◌^◌, ◌∷◌, ◌≡◌,
}
use core_cpp_archive.Rapidjson.Api.{
  IsCString, IsDocumented, RapidJson, Read, array_at, at, bool_at, c_str, check_members,
  check_object, check_type, demand, got, int64_at, int_at, map_option, nullopt, read_each, require,
  string_at, uint64_at, uint_at, values,
}
use core_cpp_archive.Rapidjson.Tree.{
  Elements, Json, Members, array, as_signed, boolean, elements_of, find_member, has_all, numeric,
  object, string,
}
use core_cpp_archive.Samples.{small}
use mathlib.Core.List.{append-nil, append_assoc}

map-same : {A : Type 0} (xs : List A) → map (λ a. a) xs ≡ xs
map-same [] = refl
map-same (x ∷ xs) = ap (◌∷◌ x) (map-same xs)

module _ (r : RapidJson) (doc : IsDocumented r) where
  pub check_members-value :
      (ms : Members) (ks : List Text)
      → check_members r (doc.value (object ms)) ks ≡ (if has_all ks ms then got tt else nullopt)
  unfolding check_members
  check_members-value ms [] = refl
  check_members-value ms (k ∷ ks) =
      ground (arith, doc.has_member_value ms k, check_members-value ms ks)

  pub check_object-value :
      (ms : Members) (ks : List Text)
      → has_all ks ms ≡ true
      → check_object r (doc.value (object ms)) ks ≡ got tt
  unfolding check_object require
  check_object-value ms ks e = rw (doc.is_object_value (object ms), check_members-value ms ks, e)

  pub at-value :
      (ms : Members) (k : Text)
      → at r (doc.value (object ms)) k ≡ demand (map_option doc.value (find_member k ms))
  unfolding at
  at-value ms k = rw (doc.get_member_value ms k)

  pub string_at-value :
      (ms : Members) (k : Text) (s : Text)
      → find_member k ms ≡ some (string s)
      → IsCString s
      → string_at r (doc.value (object ms)) k ≡ got s
  unfolding string_at demand
  string_at-value ms k s e clean = rw (at-value ms k, e, doc.get_string_value (string s), clean)

  pub bool_at-value :
      (ms : Members) (k : Text) (b : Bool)
      → find_member k ms ≡ some (boolean b)
      → bool_at r (doc.value (object ms)) k ≡ got b
  unfolding bool_at demand
  bool_at-value ms k b e = rw (at-value ms k, e, doc.get_bool_value (boolean b))

  pub uint_at-value :
      (ms : Members) (k : Text) (n : ℕ)
      → find_member k ms ≡ some (numeric (ℤ.pos n))
      → n < 2 ^ 32
      → uint_at r (doc.value (object ms)) k ≡ got n
  unfolding uint_at demand
  uint_at-value ms k n e small =
      rw (at-value ms k, e, doc.get_uint_value (numeric (ℤ.pos n))) (ground arith)

  pub uint64_at-value :
      (ms : Members) (k : Text) (n : ℕ)
      → find_member k ms ≡ some (numeric (ℤ.pos n))
      → n < 2 ^ 64
      → uint64_at r (doc.value (object ms)) k ≡ got n
  unfolding uint64_at demand
  uint64_at-value ms k n e small =
      rw (at-value ms k, e, doc.get_uint64_value (numeric (ℤ.pos n))) (ground arith)

  pub int_at-value :
      (ms : Members) (k : Text) (n : ℕ)
      → find_member k ms ≡ some (numeric (ℤ.pos n))
      → n < 2 ^ 31
      → int_at r (doc.value (object ms)) k ≡ got (ℤ.pos n)
  unfolding int_at demand
  int_at-value ms k n e small =
      rw (at-value ms k, e, doc.get_int_value (numeric (ℤ.pos n))) (ground arith)

  pub int64_at-value :
      (ms : Members) (k : Text) (z : ℤ)
      → as_signed (2 ^ 63) (numeric z) ≡ some z
      → find_member k ms ≡ some (numeric z)
      → int64_at r (doc.value (object ms)) k ≡ got z
  unfolding int64_at demand
  int64_at-value ms k z small e = rw (at-value ms k, e, doc.get_int64_value (numeric z), small)

  pub array_at-value :
      (ms : Members) (k : Text) (js : Elements)
      → find_member k ms ≡ some (array js)
      → array_at r (doc.value (object ms)) k ≡ got (values doc.value js)
  unfolding array_at demand require
  array_at-value ms k js e =
      rw (at-value ms k, e, doc.is_array_value (array js), doc.get_elements_value (array js))

  pub check_type-value :
      (ms : Members) (type : Text)
      → find_member (text "type") ms ≡ some (string type)
      → c_str type ≡ type
      → check_type r (doc.value (object ms)) type ≡ got tt
  unfolding check_type require
  check_type-value ms type e clean =
      rw (string_at-value ms (text "type") type e clean, beq_refl type)

  pub check_type-other :
      (ms : Members) (type : Text) (t : Text)
      → find_member (text "type") ms ≡ some (string t)
      → (c_str t == type) ≡ false
      → check_type r (doc.value (object ms)) type ≡ nullopt
  unfolding check_type string_at demand require
  check_type-other ms type t e other =
      rw (at-value ms (text "type"), e, doc.get_string_value (string t), other)

  -- A loop over an array that appends one object for each element.
  pub read_each-map :
      {A B : Type 0} (f : r.Value → List B → Read (List B)) (json : A → Json) (result : A → B)
      (Good : A → Type 0)
      (reads : (a : A) (objs : List B)
        → Good a
        → f (doc.value (json a)) objs ≡ got (objs ++ result a ∷ []))
      (xs : List A) (objs : List B)
      → All Good xs
      → read_each r f (values doc.value (elements_of (map json xs))) objs
        ≡ got (objs ++ map result xs)
  unfolding read_each
  read_each-map f json result Good reads [] objs good = simp append-nil
  read_each-map f json result Good reads (x ∷ xs) objs (g, good) =
      rw (reads x objs g, read_each-map f json result Good reads xs (objs ++ result x ∷ []) good)
        (simp append_assoc)

  pub read_each-value :
      {A : Type 0} (f : r.Value → List A → Read (List A)) (json : A → Json) (Good : A → Type 0)
      (reads : (a : A) (objs : List A)
        → Good a
        → f (doc.value (json a)) objs ≡ got (objs ++ a ∷ []))
      (xs : List A)
      → All Good xs
      → read_each r f (values doc.value (elements_of (map json xs))) [] ≡ got xs
  read_each-value f json Good reads xs good =
      rw (read_each-map f json (λ a. a) Good reads xs [] good, map-same xs)
