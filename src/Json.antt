-- ===== src/Json.antt =====
-- The JSON library that network/serializer uses (include/nlohmann, another project's), as a
-- parameter: its values, what builds and reads them, and what the code relies on. `none` is a
-- nlohmann::json::exception. Values are those that the library's `==` tells apart.
pub mod Documents
use samurai_kirby_server.Prelude.{
  ℕ, String, Option, none, some, Bool, true, false, ℤ, pos, to_int, int_modulus, List, [], ◌∷◌, ◌≡◌,
  ◌<◌, if◌then◌else◌, same_text,
}

-- The value of a key in the list of an object's members. The first of two equal keys counts.
abbrev pub lookup : {J : Type 0} → String → List (String × J) → Option J
lookup k [] = none
lookup k ((j, v) ∷ rest) = if same_text j k then some v else lookup k rest

-- `Text` is the std::string of a dumped document, `at` the member function of that name, and
-- `get_enum`, `get_int`, `get_boolean` and `get_text` the conversions to an enumeration (its
-- number), to int, to bool and to std::string.
pub record JsonLibrary : Type 1 where
  pub Json : Type 0
  pub Text : Type 0
  pub null : Json
  pub number : ℤ → Json
  pub boolean : Bool → Json
  pub text : String → Json
  pub object : List (String × Json) → Json
  pub dump : Json → Option Text
  pub parse : Text → Option Json
  pub at : String → Json → Option Json
  pub is_null : Json → Bool
  pub get_enum : Json → Option ℕ
  pub get_int : Json → Option ℤ
  pub get_boolean : Json → Option Bool
  pub get_text : Json → Option String

-- What the library documents: a dumped value parses to itself, `at` finds an object's member, and
-- a value converts to what it was made of, a number where it fits.
pub record IsLawful (L : JsonLibrary) : Type 0 where
  pub parse-dump : (j : L.Json) (t : L.Text) → L.dump j ≡ some t → L.parse t ≡ some j
  pub at-object : (k : String) (ms : List (String × L.Json)) → L.at k (L.object ms) ≡ lookup k ms
  pub is_null-null : L.is_null L.null ≡ true
  pub is_null-number : (z : ℤ) → L.is_null (L.number z) ≡ false
  pub is_null-object : (ms : List (String × L.Json)) → L.is_null (L.object ms) ≡ false
  pub get_enum-number : (n : ℕ) → n < int_modulus → L.get_enum (L.number (pos n)) ≡ some n
  pub get_int-number : (z : ℤ) → to_int z ≡ z → L.get_int (L.number z) ≡ some z
  pub get_boolean-boolean : (b : Bool) → L.get_boolean (L.boolean b) ≡ some b
  pub get_text-text : (s : String) → L.get_text (L.text s) ≡ some s
