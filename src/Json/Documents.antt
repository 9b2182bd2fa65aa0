-- ===== src/Json/Documents.antt =====
-- A JSON library whose dumped strings are the documents themselves.
use samurai_kirby_server.Prelude.{
  ℕ, String, Option, none, some, Bool, true, false, ℤ, pos, to_int, List, [], ◌∷◌, ◌≡◌, refl, sym,
  ap, if◌then◌else◌, same_text, arith, ltb, int_modulus,
}
use samurai_kirby_server.Json.{JsonLibrary, IsLawful, lookup}

mutual
  pub data Document : Type 0 where
    null : Document
    number : ℤ → Document
    boolean : Bool → Document
    text : String → Document
    object : Members → Document

  pub data Members : Type 0 where
    nil : Members
    member : String → Document → Members → Members

abbrev pub members : List (String × Document) → Members
members [] = nil
members ((k, v) ∷ rest) = member k v (members rest)

abbrev pub member_at : String → Members → Option Document
member_at k nil = none
member_at k (member j v rest) = if same_text j k then some v else member_at k rest

abbrev pub at : String → Document → Option Document
at k (object ms) = member_at k ms
at k _ = none

abbrev pub is_null : Document → Bool
is_null null = true
is_null _ = false

abbrev pub get_int : Document → Option ℤ
get_int (number z) = some (to_int z)
get_int _ = none

abbrev pub get_enum : Document → Option ℕ
get_enum (number (pos n)) = if ltb n int_modulus then some n else none
get_enum _ = none

abbrev pub get_boolean : Document → Option Bool
get_boolean (boolean b) = some b
get_boolean _ = none

abbrev pub get_text : Document → Option String
get_text (text s) = some s
get_text _ = none

abbrev pub documents : JsonLibrary
documents = record {
  Json = Document;
  Text = Document;
  null = null;
  number = number;
  boolean = boolean;
  text = text;
  object = λ ms. object (members ms);
  dump = some;
  parse = some;
  at = at;
  is_null = is_null;
  get_enum = get_enum;
  get_int = get_int;
  get_boolean = get_boolean;
  get_text = get_text;
}

member_at-members :
    (k : String) (ms : List (String × Document)) → member_at k (members ms) ≡ lookup k ms
member_at-members k [] = refl
member_at-members k ((j, v) ∷ rest) =
    ap (if◌then◌else◌ (same_text j k) (some v)) (member_at-members k rest)

pub documents-IsLawful : IsLawful documents
documents-IsLawful = record {
  parse-dump = λ j t h. sym h;
  at-object = member_at-members;
  is_null-null = refl;
  is_null-number = λ _. refl;
  is_null-object = λ _. refl;
  get_enum-number = λ n h. ground arith;
  get_int-number = λ z h. ap some h;
  get_boolean-boolean = λ _. refl;
  get_text-text = λ _. refl;
}
