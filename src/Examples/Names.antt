-- ===== src/Examples/Names.antt =====
-- The theorems on the names of sessions and on the queue at concrete inputs.
use miniaibrowse_cpp.Common.{
  ℤ, if_yes, bytes_eq_iff, append-nil, ℕ, suc, ◌≤◌, ◌≡◌, inl, inr, refl, sym, ap, ◌∙◌, true, false,
  List, [], ◌∷◌, ◌++◌, map, Option, none, some, Bytes, codes, length, take, get_elem?, bytes_eq,
  bytes_key, ℕ_key, lookup, insert, pos, if◌then◌else◌, Bool-cases, arith,
}
use miniaibrowse_cpp.Http.Request.{empty_request}
use miniaibrowse_cpp.Http.Response.{new_response}
use miniaibrowse_cpp.Chat.Accounts.{Outcome, returned, threw}
use miniaibrowse_cpp.Chat.Utf8.{truncate_from, utf8_truncate_to_chars, step}
use miniaibrowse_cpp.Chat.Utf8.Prefix.{take-utf8_truncate_to_chars}
use miniaibrowse_cpp.Chat.Handlers.Listing.{auto_name}
use miniaibrowse_cpp.Chat.Handlers.Renaming.{saved_name}
use miniaibrowse_cpp.Chat.Handlers.Renaming.Trimmed.{
  IsTrimmedEnd, IsTrimmedFront, saved_name-bounds,
}
use miniaibrowse_cpp.Chat.Handlers.{SqlValue, integer, text}
use miniaibrowse_cpp.Chat.Handlers.Listing.{custom_names, names_of, shown_name}
use miniaibrowse_cpp.Chat.Handlers.Renaming.{
  Meta, rename_to, save_name, ensure_session_meta_table, trim_end, trim_front, saved_name,
}
use miniaibrowse_cpp.Chat.Handlers.Renaming.Table.{names_for, HasNumbers, MetaTable}
use miniaibrowse_cpp.Chat.Handlers.Renaming.Shown.{chosen, names_of-rename_to}
use miniaibrowse_cpp.Chat.Deletion.{is_session_id}
use miniaibrowse_cpp.Chat.Queue.{publish_all, new_manager, Poll, worker}
use miniaibrowse_cpp.Chat.Queue.Turns.{at_turns, publish_all-new_manager}
use miniaibrowse_cpp.Chat.Queue.Worker.{delivered, handle_all, Left, worker-acked}
use miniaibrowse_cpp.Examples.Service.{J}

-- Two characters of three bytes, then one of one.
abbrev signs : List Bytes
signs = (230 ∷ 150 ∷ 176 ∷ []) ∷ (229 ∷ 175 ∷ 185 ∷ []) ∷ (b'x' ∷ []) ∷ []

abbrev sign_bytes : Bytes
sign_bytes = 230 ∷ 150 ∷ 176 ∷ 229 ∷ 175 ∷ 185 ∷ b'x' ∷ []

take-utf8_truncate_to_chars_example :
    take (utf8_truncate_to_chars sign_bytes 2) sign_bytes ≡ 230 ∷ 150 ∷ 176 ∷ 229 ∷ 175 ∷ 185 ∷ []
take-utf8_truncate_to_chars_example = take-utf8_truncate_to_chars signs 2 (ground arith)

saved_name-bounds_example :
    (length (saved_name (codes "  my chat ")) ≤ 240)
    × IsTrimmedFront (saved_name (codes "  my chat "))
    × IsTrimmedEnd (saved_name (codes "  my chat "))
saved_name-bounds_example = saved_name-bounds (codes "  my chat ")

abbrev seven : List (Bytes × Bytes)
seven = map (λ n. (codes "sql_queue", n ∷ [])) (1 ∷ 2 ∷ 3 ∷ 4 ∷ 5 ∷ 6 ∷ 7 ∷ [])

publish_all-new_manager_example :
    (get_elem? (publish_all seven (new_manager 5)).pool 1 ≡ some (at_turns 5 0 1 seven))
    × (1 ≤ length (at_turns 5 0 1 seven))
    × (length (at_turns 5 0 1 seven) ≤ 2)
publish_all-new_manager_example = publish_all-new_manager seven 1 (ground arith) (ground arith)

-- A handler that throws on an empty statement.
abbrev run_statement : Bytes → ℕ → Outcome ℕ
run_statement [] db = threw (codes "empty")
run_statement (c ∷ sql) db = returned (suc db)

abbrev polls : List Poll
polls = some (codes "a") ∷ none ∷ some [] ∷ some (codes "b") ∷ []

worker-acked_example :
    (left : List Bytes) × (delivered polls ≡ (worker run_statement none polls 0).acked ++ left)
    × (handle_all run_statement (worker run_statement none polls 0).acked 0
        ≡ returned (worker run_statement none polls 0).db)
    × Left run_statement
        (worker run_statement none polls 0).ended_by
        (worker run_statement none polls 0).db
        left
worker-acked_example = worker-acked run_statement polls 0

-- A table of one user.
abbrev without_key : Bytes → List (Bytes × Bytes) → List (Bytes × Bytes)
without_key sid [] = []
without_key sid ((k, v) ∷ rows) =
    if bytes_eq k sid then without_key sid rows else (k, v) ∷ without_key sid rows

abbrev update_rows : Bytes → List SqlValue → List (Bytes × Bytes) → Outcome (List (Bytes × Bytes))
update_rows sql (integer user ∷ text sid ∷ text name ∷ values) rows =
    returned (without_key sid rows ++ (sid, name) ∷ [])
update_rows sql (integer user ∷ text sid ∷ []) rows = returned (without_key sid rows)
update_rows sql _ rows = returned rows

names_for-without_key :
    (rows added : List (Bytes × Bytes)) (sid : Bytes)
    → names_for sid (without_key sid rows ++ added) ≡ names_for sid added
names_for-without_key [] added sid = refl
names_for-without_key ((k, v) ∷ rows) added sid = elim (Bool-cases (bytes_eq k sid)) [
  | inl e ↦ rw e (names_for-without_key rows added sid)
  | inr e ↦ rw e (rw e (names_for-without_key rows added sid))
]

same_rows : {A : Type 0} → {a b : A} → returned a ≡ returned b → a ≡ b
same_rows e = cc

abbrev one_user : MetaTable (List (Bytes × Bytes))
one_user = record {
  update = update_rows;
  rows = λ rows user. rows;
  update-upsert = λ user now sid name db db' number numbers e.
      ap (names_for sid) (sym (same_rows e))
      ∙ names_for-without_key db ((sid, name) ∷ []) sid
      ∙ if_yes (bytes_eq sid sid) (name ∷ []) [] ((bytes_eq_iff sid sid).1 refl);
  update-delete = λ user sid db db' number numbers e.
      ap (names_for sid) (sym (same_rows e) ∙ sym (append-nil (without_key sid db)))
      ∙ names_for-without_key db [] sid;
}

abbrev no_names : Meta (List (Bytes × Bytes))
no_names = record { db = []; ensured = false }

abbrev first_words : Bytes → Option Bytes
first_words sid = some (codes "hello")

saved_my_chat :
    save_name one_user.update
      (pos 7)
      (codes "12")
      (saved_name (codes "  my chat "))
      (pos 99)
      (ensure_session_meta_table one_user.update no_names).db
    ≡ returned ((codes "12", codes "my chat") ∷ [])
unfolding save_name ensure_session_meta_table saved_name trim_front trim_end utf8_truncate_to_chars
    truncate_from step
saved_my_chat = refl

-- What the list reads behind the renaming.
abbrev read_rows : ℤ → List (Bytes × Bytes)
read_rows user = (codes "12", codes "my chat") ∷ []

renamed_rows :
    read_rows (pos 7)
    ≡ one_user.rows
        (rename_to one_user.update J empty_request
          (pos 7)
          (pos 99)
          (new_response true)
          no_names
          (codes "12")
          (codes "  my chat ")).1.db
        (pos 7)
unfolding rename_to save_name ensure_session_meta_table saved_name trim_front trim_end
    utf8_truncate_to_chars truncate_from step
renamed_rows = refl

no_numbers :
    HasNumbers (one_user.rows (ensure_session_meta_table one_user.update no_names).db (pos 7))
unfolding ensure_session_meta_table
no_numbers = tt

twelve : is_session_id (codes "12") ≡ true
unfolding is_session_id
twelve = refl

listed_my_chat :
    get_elem? (names_of J read_rows first_words (pos 7) (codes "12" ∷ [])) 0
    ≡ some (codes "12", (codes "my chat", true))
unfolding names_of custom_names shown_name lookup insert bytes_eq
listed_my_chat = refl

names_of-rename_to_example :
    (codes "my chat", true)
    ≡ chosen (saved_name (codes "  my chat ")) (auto_name (first_words (codes "12")))
names_of-rename_to_example =
    names_of-rename_to one_user J first_words read_rows empty_request (new_response true) (pos 7)
      (pos 99) no_names b'1' (codes "2") (codes "  my chat ") ((codes "12", codes "my chat") ∷ [])
      (codes "12" ∷ []) 0 (codes "my chat", true) twelve no_numbers saved_my_chat renamed_rows
      listed_my_chat
