-- ===== src/Examples/Documents.antt =====
-- A JSON library on documents as data, for the examples.
use miniaibrowse_cpp.Common.{
  ◌≡◌, refl, ap, Bool, true, false, List, [], ◌∷◌, Option, none, some, Bytes, codes, is_empty,
  bytes_key, ℕ_key, Dict, lookup, ℤ,
}
use miniaibrowse_cpp.Chat.Accounts.{threw}
use miniaibrowse_cpp.Chat.Json.{JsonLibrary}

mutual
  pub data Doc : Type 0 where
    null : Doc
    str : Bytes → Doc
    num : ℤ → Doc
    bool : Bool → Doc
    obj : Fields → Doc
    arr : Docs → Doc

  pub data Fields : Type 0 where
    no_field : Fields
    field : Bytes → Doc → Fields → Fields

  pub data Docs : Type 0 where
    no_doc : Docs
    doc : Doc → Docs → Docs

abbrev to_fields : Dict Bytes Doc → Fields
to_fields [] = no_field
to_fields ((k, v) ∷ m) = field k v (to_fields m)

abbrev of_fields : Fields → Dict Bytes Doc
of_fields no_field = []
of_fields (field k v m) = (k, v) ∷ of_fields m

abbrev to_docs : List Doc → Docs
to_docs [] = no_doc
to_docs (v ∷ vs) = doc v (to_docs vs)

abbrev of_docs : Docs → List Doc
of_docs no_doc = []
of_docs (doc v vs) = v ∷ of_docs vs

pub of_fields-to_fields : (m : Dict Bytes Doc) → of_fields (to_fields m) ≡ m
of_fields-to_fields [] = refl
of_fields-to_fields ((k, v) ∷ m) = ap (λ l. (k, v) ∷ l) (of_fields-to_fields m)

pub of_docs-to_docs : (vs : List Doc) → of_docs (to_docs vs) ≡ vs
of_docs-to_docs [] = refl
of_docs-to_docs (v ∷ vs) = ap (λ l. v ∷ l) (of_docs-to_docs vs)

abbrev doc_members : Doc → Dict Bytes Doc
doc_members v = elim v [ obj m ↦ of_fields m | _ ↦ [] ]

abbrev doc_items : Doc → List Doc
doc_items v = elim v [ arr vs ↦ of_docs vs | _ ↦ [] ]

-- The laws of the library, whatever texts it reads and writes.
abbrev pub documents : (Bytes → Option Doc) → JsonLibrary
documents parse = record {
  Value = Doc;
  parse = parse;
  dump = λ v. [];
  dump_indented = λ v. [];
  from_text = str;
  from_integer = num;
  from_bool = bool;
  object = λ m. obj (to_fields m);
  array = λ vs. arr (to_docs vs);
  member = λ k v. lookup k (doc_members v);
  elements = λ v. elim v [ arr vs ↦ some (of_docs vs) | _ ↦ none ];
  get_text = λ v. elim v [ str s ↦ some s | _ ↦ none ];
  items = doc_items;
  is_object = λ v. elim v [ obj m ↦ true | _ ↦ false ];
  members = doc_members;
  is_null = λ v. elim v [ null ↦ true | _ ↦ false ];
  has_none = λ v. elim v [
    | null ↦ true
    | obj m ↦ is_empty (of_fields m)
    | arr vs ↦ is_empty (of_docs vs)
    | _ ↦ false
  ];
  at_missing = λ k v. threw (codes "assertion");
  error_text = codes "type_error";
  member-object = λ k m. ap (lookup k) (of_fields-to_fields m);
  elements-array = λ vs. ap some (of_docs-to_docs vs);
  items-array = of_docs-to_docs;
  get_text-from_text = λ s. refl;
  is_null-from_text = λ s. refl;
  has_none-array = λ vs. ap is_empty (of_docs-to_docs vs);
}
