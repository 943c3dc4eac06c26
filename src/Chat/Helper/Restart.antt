-- ===== src/Chat/Helper/Restart.antt =====
-- What a restart restores of a conversation: addMessage, the queue's worker and ensureUserDataLoaded together,
-- over the table `chat_message`.
use miniaibrowse_cpp.Common.{
  to_string, ◌^◌, ℕ, ◌<◌, ◌≡◌, inl, inr, refl, sym, ap, subst, ◌∙◌, Bool, false, List, [], ◌∷◌,
  ◌++◌, append_assoc, append-nil, Option, none, some, Bytes, All, bytes_eq, bytes_eq_iff, bytes_key,
  ℕ_key, ℤ, pos, Bool-cases, arith,
}
use miniaibrowse_cpp.Chat.Accounts.{Outcome, Outcome-cases, returned, threw}
use miniaibrowse_cpp.Chat.History.{Row, Chats, ensure_user_data_loaded}
use miniaibrowse_cpp.Chat.History.Restored.{messages, stored, ensure_user_data_loaded-messages}
use miniaibrowse_cpp.Chat.Sql.{insert_message_sql}
use miniaibrowse_cpp.Chat.Helper.{Helper, Speaker, add_message}
use miniaibrowse_cpp.Chat.Queue.{Poll, worker}
use miniaibrowse_cpp.Chat.Queue.Worker.{delivered, handle_all, Left, worker-acked}

-- A session id that a BIGINT keeps as it is written: a number below 2^63, without leading zeros.
abbrev pub IsBigint : Bytes → Type 0
IsBigint sid = (n : ℕ) × (n < 2 ^ 63) × (sid ≡ to_string n)

abbrev pub IsBefore : ℕ → Row → Type 0
IsBefore ms row = (t : ℕ) × (row.ts ≡ pos t) × (t < ms)

-- The table as MySQL keeps it: the rows of a user in the order of their times, and a statement that adds one
-- behind them. A session id is written without quotes into a BIGINT and read back as text (docker/init.sql), so
-- the law is for ids that such a column keeps. Values that a column does not take make the statement throw.
pub record MessageTable (Db : Type 0) : Type 0 where
  pub execute : Bytes → Db → Outcome Db
  pub rows : ℤ → Db → List Row
  pub execute-insert_message_sql :
      (user : ℤ) (name content sid : Bytes) (is_user : Bool) (ms : ℕ) (db db' : Db)
      → IsBigint sid
      → All (IsBefore ms) (rows user db)
      → execute (insert_message_sql user name is_user content ms sid) db ≡ returned db'
      → rows user db'
        ≡ rows user db ++ record { session_id = sid; content = content; ts = pos ms } ∷ []

one_db : {Db : Type 0} → (db db' : Db) → returned db ≡ returned db' → db ≡ db'
one_db db db' e = cc

threw_not : {C Db : Type 0} → {what : Bytes} → {db : Db} → threw what ≡ returned db → C
threw_not e = cc

All-append_one :
    (P : Row → Type 0) (rows : List Row) (row : Row) → All P rows → P row → All P (rows ++ row ∷ [])
All-append_one P [] row h p = (p, tt)
All-append_one P (r ∷ rows) row h p = (h.0, All-append_one P rows row h.1 p)

IsBefore-later : (s t : ℕ) (rows : List Row) → s < t → All (IsBefore s) rows → All (IsBefore t) rows
IsBefore-later s t [] l h = tt
IsBefore-later s t (r ∷ rows) l ((u, e, k), h) = ((u, e, omega arith), IsBefore-later s t rows l h)

abbrev pub readable_rows : List Row → List (Option Row)
readable_rows [] = []
readable_rows (r ∷ rows) = some r ∷ readable_rows rows

stored-append :
    (sid : Bytes) (xs ys : List Row)
    → stored sid (readable_rows (xs ++ ys))
      ≡ stored sid (readable_rows xs) ++ stored sid (readable_rows ys)
unfolding stored
stored-append sid [] ys = refl
stored-append sid (x ∷ xs) ys = elim (Bool-cases (bytes_eq x.session_id sid)) [
  | inl e ↦ rw e (ap (λ l. (x.content, x.ts) ∷ l) (stored-append sid xs ys))
  | inr e ↦ rw e (stored-append sid xs ys)
]

module _ (tick : ℕ → ℕ) (who : Speaker) where
  -- The messages that are added one behind the other, each a user's or the assistant's.
  abbrev pub say_all : List (Bool × Bytes) → Helper → Helper
  say_all [] h = h
  say_all ((is_user, content) ∷ said) h = say_all said (add_message tick who is_user content h)

  abbrev pub statements : List (Bool × Bytes) → ℕ → List Bytes
  statements [] t = []
  statements ((is_user, content) ∷ said) t =
      insert_message_sql who.user_id who.user_name is_user content t who.session_id
      ∷ statements said (tick t)

  abbrev rows_said : List (Bool × Bytes) → ℕ → List Row
  rows_said [] t = []
  rows_said ((is_user, content) ∷ said) t =
      record { session_id = who.session_id; content = content; ts = pos t }
      ∷ rows_said said (tick t)

  say_all-published :
      (said : List (Bool × Bytes)) (h : Helper)
      → (say_all said h).published ≡ h.published ++ statements said h.clock
  unfolding add_message
  say_all-published [] h = sym (append-nil h.published)
  say_all-published ((is_user, content) ∷ said) h =
      say_all-published said (add_message tick who is_user content h) ∙ append_assoc h.published _ _

  say_all-messages :
      (said : List (Bool × Bytes)) (h : Helper)
      → (say_all said h).messages
        ≡ h.messages ++ stored who.session_id (readable_rows (rows_said said h.clock))
  unfolding add_message stored
  say_all-messages [] h = sym (append-nil h.messages)
  say_all-messages ((is_user, content) ∷ said) h =
      rw ((bytes_eq_iff who.session_id who.session_id).1 refl) (
        say_all-messages said (add_message tick who is_user content h)
        ∙ append_assoc h.messages ((content, pos h.clock) ∷ []) _)

  module _ {Db : Type 0} (T : MessageTable Db) where
    open T use {execute, rows, execute-insert_message_sql}

    handle_all-returned :
        (sql : Bytes) (sqls : List Bytes) (db next : Db)
        → execute sql db ≡ returned next
        → handle_all execute (sql ∷ sqls) db ≡ handle_all execute sqls next
    unfolding handle_all
    handle_all-returned sql sqls db next r = rw (r, handle_all) refl

    handle_all-threw :
        (sql : Bytes) (sqls : List Bytes) (db : Db) (what : Bytes)
        → execute sql db ≡ threw what
        → handle_all execute (sql ∷ sqls) db ≡ threw what
    unfolding handle_all
    handle_all-threw sql sqls db what r = rw (r, handle_all) refl

    handle_all-rows :
        (said : List (Bool × Bytes)) (t : ℕ) (db db' : Db)
        → ((s : ℕ) → s < tick s)
        → IsBigint who.session_id
        → All (IsBefore t) (rows who.user_id db)
        → handle_all execute (statements said t) db ≡ returned db'
        → rows who.user_id db' ≡ rows who.user_id db ++ rows_said said t
    unfolding handle_all
    handle_all-rows [] t db db' grows number old e =
        ap (rows who.user_id) (sym (one_db db db' e)) ∙ sym (append-nil (rows who.user_id db))
    handle_all-rows ((is_user, content) ∷ said) t db db' grows number old e =
        let sql = insert_message_sql who.user_id who.user_name is_user content t who.session_id in
        elim (Outcome-cases (execute sql db)) [
          | inr (what, r) ↦
              threw_not (sym (handle_all-threw sql (statements said (tick t)) db what r) ∙ e)
          | inl (next, r) ↦
              let row : Row = record {
                session_id = who.session_id;
                content = content;
                ts = pos t;
              } in
              let now =
                execute-insert_message_sql who.user_id who.user_name content who.session_id is_user
                  t db next number old r in
              let before = IsBefore-later t (tick t) (rows who.user_id db) (grows t) old in
              let old' : All (IsBefore (tick t)) (rows who.user_id next) =
                subst (All (IsBefore (tick t))) (sym now) (
                  All-append_one (IsBefore (tick t)) (rows who.user_id db) row before
                    (t, refl, grows t)) in
              handle_all-rows said (tick t) next db' grows number old'
                (sym (handle_all-returned sql (statements said (tick t)) db next r) ∙ e)
              ∙ ap (λ l. l ++ rows_said said (tick t)) now
              ∙ append_assoc (rows who.user_id db) (row ∷ []) (rows_said said (tick t))
        ]

    -- Messages added to a conversation one behind the other, with a clock that goes on with each, and a worker
    -- that ran the statements which they published without an exception, from a table without rows of this
    -- session and with none of the user's from later times: what a server that starts then restores for the
    -- session is what the helper holds. The session's id is a number below 2^63 without leading zeros.
    pub say_all-restored :
        (said : List (Bool × Bytes)) (h : Helper) (db : Db) (polls : List Poll) (fresh : Chats)
        → ((s : ℕ) → s < tick s)
        → IsBigint who.session_id
        → h.messages ≡ []
        → h.published ≡ []
        → All (IsBefore h.clock) (rows who.user_id db)
        → stored who.session_id (readable_rows (rows who.user_id db)) ≡ []
        → delivered polls ≡ (say_all said h).published
        → (worker execute none polls db).ended_by ≡ none
        → fresh.loaded_users who.user_id ≡ false
        → messages who.user_id who.session_id fresh ≡ []
        → messages who.user_id who.session_id (
            ensure_user_data_loaded who.user_id
              (some (readable_rows (rows who.user_id (worker execute none polls db).db)))
              fresh)
          ≡ (say_all said h).messages
    say_all-restored said h db polls fresh grows number no_message no_sql old empty all_sent well
          not_loaded nothing =
        let w = worker execute none polls db in
        let sid = who.session_id in
        let (left, sent, handled, rest) = worker-acked execute polls db in
        let none_left : left ≡ [] = subst (λ o. Left execute o w.db left) well rest in
        let published : (say_all said h).published ≡ statements said h.clock =
          say_all-published said h ∙ ap (λ l. l ++ statements said h.clock) no_sql in
        let acked : w.acked ≡ statements said h.clock =
          sym (append-nil w.acked)
          ∙ ap (λ l. w.acked ++ l) (sym none_left)
          ∙ sym sent
          ∙ all_sent
          ∙ published in
        let all_rows =
          handle_all-rows said h.clock db w.db grows number old
            (ap (λ sqls. handle_all execute sqls db) (sym acked) ∙ handled) in
        (ensure_user_data_loaded-messages who.user_id (readable_rows (rows who.user_id w.db)) fresh
            not_loaded).0
          sid
        ∙ ap (λ l. l ++ stored sid (readable_rows (rows who.user_id w.db))) nothing
        ∙ ap (λ rs. stored sid (readable_rows rs)) all_rows
        ∙ stored-append sid (rows who.user_id db) (rows_said said h.clock)
        ∙ ap (λ l. l ++ stored sid (readable_rows (rows_said said h.clock)))
            (empty ∙ sym no_message)
        ∙ sym (say_all-messages said h)
