-- ===== src/Repositories/Sql.antt =====
-- pqxx, the library that runs the SQL texts of src/repositories, as a parameter, and what the
-- repositories do with its results.
use core_cpp_archive.Prelude.{
  List, Option, Text, [], if◌then◌else◌, ltb, none, some, suc, zero, ℕ, ℤ, ◌%◌, ◌++◌, ◌+◌, ◌-◌, ◌/◌,
  ◌^◌, ◌∷◌,
}

-- A field is `none` if it is null. `execute`, a column that is not there and a text that is no
-- number throw, which is `none`. The number is the largest value of the type that is asked for.
pub record Sql : Type 1 where
  pub Db : Type 0
  pub Row : Type 0
  pub execute : Text → Db → Option (List Row × Db)
  pub escape : Text → Text
  pub column : Row → ℕ → Option (Option Text)
  pub named : Row → Text → Option (Option Text)
  pub unsigned_of : ℕ → Text → Option ℕ
  pub int64_of : Text → Option ℤ

-- A run on the database that may throw.
abbrev pub Query : Type 0 → Type 0 → Type 0
Query D A = D → Option (A × D)

infixl 5 ◌>>=◌
abbrev pub ◌>>=◌ : {D A B : Type 0} → Query D A → (A → Query D B) → Query D B
◌>>=◌ m f db = elim (m db) [ none ↦ none | some (a, db') ↦ f a db' ]

abbrev pub give : {D A : Type 0} → A → Query D A
give a db = some (a, db)

abbrev pub throw_if_none : {D A : Type 0} → Option A → Query D A
throw_if_none none db = none
throw_if_none (some a) db = some (a, db)

-- The decimal digits of a number, the last one first.
abbrev pub digits : ℕ → ℕ → Text
digits zero n = []
digits (suc fuel) n =
    let rest = digits fuel (n / 10) in if ltb n 10 then (48 + n) ∷ [] else (48 + n % 10) ∷ rest

abbrev pub rev_append : Text → Text → Text
rev_append [] s = s
rev_append (c ∷ r) s = rev_append r (c ∷ s)

-- What `fmt::format` writes for a number of at most 64 bits.
unfoldable pub decimal : ℕ → Text
decimal n = rev_append (digits 20 n) []

unfoldable pub decimal_ℤ : ℤ → Text
decimal_ℤ (ℤ.pos n) = decimal n
decimal_ℤ (ℤ.negsuc n) = 45 ∷ decimal (suc n)

abbrev pub max_u16 : ℕ
max_u16 = 2 ^ 16 - 1

abbrev pub max_u32 : ℕ
max_u32 = 2 ^ 32 - 1

abbrev pub max_u64 : ℕ
max_u64 = 2 ^ 64 - 1

module _ (x : Sql) where
  -- `field.as(uint64_t{})` and the like: the default for a null.
  unfoldable pub number_or_0 : ℕ → Option Text → Option ℕ
  number_or_0 largest none = some 0
  number_or_0 largest (some s) = x.unsigned_of largest s

  unfoldable pub int64_or_0 : Option Text → Option ℤ
  int64_or_0 none = some (ℤ.pos 0)
  int64_or_0 (some s) = x.int64_of s

  abbrev pub text_or_empty : Option Text → Text
  text_or_empty none = []
  text_or_empty (some s) = s

  unfoldable pub column_number : ℕ → x.Row → ℕ → Query x.Db ℕ
  column_number largest row i = do
    field ← throw_if_none (x.column row i)
    throw_if_none (number_or_0 largest field)

  unfoldable pub column_int64 : x.Row → ℕ → Query x.Db ℤ
  column_int64 row i = do field ← throw_if_none (x.column row i); throw_if_none (int64_or_0 field)

  unfoldable pub column_text : x.Row → ℕ → Query x.Db Text
  column_text row i = do field ← throw_if_none (x.column row i); give (text_or_empty field)

  unfoldable pub named_number : ℕ → x.Row → Text → Query x.Db ℕ
  named_number largest row name = do
    field ← throw_if_none (x.named row name)
    throw_if_none (number_or_0 largest field)

  unfoldable pub named_text : x.Row → Text → Query x.Db Text
  named_text row name = do field ← throw_if_none (x.named row name); give (text_or_empty field)

  -- A text between quotes, escaped.
  unfoldable pub quoted : Text → Text
  quoted s = 39 ∷ x.escape s ++ 39 ∷ []
