-- ===== src/Chat/Json.antt =====
-- What the application uses of the JSON library, with the behaviour that its documentation states. Objects
-- keep their members in the order of the keys.
use miniaibrowse_cpp.Common.{
  ◌≡◌, Bool, false, List, [], ◌∷◌, Option, none, some, Bytes, is_empty, Dict, bytes_key, lookup,
  insert, ℤ,
}
use miniaibrowse_cpp.Chat.Accounts.{Json, text, integer, flag, Outcome, returned, threw}

pub record JsonLibrary : Type 1 where
  pub Value : Type 0
  -- `none`: `json::parse` throws.
  pub parse : Bytes → Option Value
  pub dump : Value → Bytes
  -- `dump(4)`.
  pub dump_indented : Value → Bytes
  pub from_text : Bytes → Value
  pub from_integer : ℤ → Value
  pub from_bool : Bool → Value
  pub object : Dict Bytes Value → Value
  pub array : List Value → Value
  -- `contains(key)` and `[key]`; no value but an object has members.
  pub member : Bytes → Value → Option Value
  -- The elements, when `is_array`.
  pub elements : Value → Option (List Value)
  -- The string, when `is_string`.
  pub get_text : Value → Option Bytes
  -- What a range-for visits.
  pub items : Value → List Value
  pub is_object : Value → Bool
  -- `items()` of an object.
  pub members : Value → Dict Bytes Value
  pub is_null : Value → Bool
  -- `empty()`.
  pub has_none : Value → Bool
  -- What `[key]` of a const object gives where the object has no such key: the library asserts that it has, and
  -- says nothing of a build without assertions.
  pub at_missing : Bytes → Value → Outcome Value
  -- `what()` of its exceptions.
  pub error_text : Bytes
  pub member-object : (k : Bytes) (m : Dict Bytes Value) → member k (object m) ≡ lookup k m
  pub elements-array : (xs : List Value) → elements (array xs) ≡ some xs
  pub items-array : (xs : List Value) → items (array xs) ≡ xs
  pub get_text-from_text : (s : Bytes) → get_text (from_text s) ≡ some s
  pub is_null-from_text : (s : Bytes) → is_null (from_text s) ≡ false
  pub has_none-array : (xs : List Value) → has_none (array xs) ≡ is_empty xs

module _ (J : JsonLibrary) where
  open J use {
    Value, from_text, from_integer, from_bool, object, dump, elements, get_text, error_text,
  }

  abbrev pub to_value : Json → Value
  to_value (text s) = from_text s
  to_value (integer n) = from_integer n
  to_value (flag b) = from_bool b

  abbrev pub to_members : List (Bytes × Json) → Dict Bytes Value
  to_members [] = []
  to_members ((k, v) ∷ fields) = insert k (to_value v) (to_members fields)

  -- `dump` of an object that only holds strings, numbers and booleans.
  abbrev pub dump_fields : List (Bytes × Json) → Bytes
  dump_fields fields = dump (object (to_members fields))

  abbrev first_of : Option (List Value) → Option Value
  first_of none = none
  first_of (some []) = none
  first_of (some (v ∷ vs)) = some v

  -- `[0]`.
  abbrev pub first_element : Value → Option Value
  first_element v = first_of (elements v)

  -- `get<std::string>()`.
  abbrev pub as_text : Value → Outcome Bytes
  as_text v = elim (get_text v) [ none ↦ threw error_text | some s ↦ returned s ]
