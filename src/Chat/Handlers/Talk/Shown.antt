-- ===== src/Chat/Handlers/Talk/Shown.antt =====
-- What the history shows after a question: ChatSendHandler.cpp and ChatHistoryHandler.cpp together.
use miniaibrowse_cpp.Common.{
  ℕ, suc, ◌+◌, ◌%◌, ◌≡◌, sym, ap, ◌∙◌, Bool, true, false, List, [], ◌∷◌, ◌++◌, Option, Bytes, codes,
  length, bytes_key, ℕ_key, Dict, insert, ℤ, pos, ◌==◌, ==_iff, arith,
}
use miniaibrowse_cpp.Http.Request.{HttpRequest}
use miniaibrowse_cpp.Http.Response.{HttpResponse}
use miniaibrowse_cpp.Chat.Accounts.{Outcome, returned, threw}
use miniaibrowse_cpp.Chat.History.{Message}
use miniaibrowse_cpp.Chat.Deletion.{ServerState}
use miniaibrowse_cpp.Chat.Json.{JsonLibrary}
use miniaibrowse_cpp.Chat.Strategy.{AiStrategy, create}
use miniaibrowse_cpp.Chat.Helper.{Helper, Speaker}
use miniaibrowse_cpp.Chat.Curl.{HttpPost}
use miniaibrowse_cpp.Chat.Conversation.{chat}
use miniaibrowse_cpp.Chat.Conversation.Exchange.{Leaves, chat-Leaves}
use miniaibrowse_cpp.Chat.Handlers.{messages_of-put_messages, messages_of}
use miniaibrowse_cpp.Chat.Handlers.Talk.{
  Question, session_for, message_entry, history_entries, stored, ask_helper,
}

even_place : (n : ℕ) → n % 2 ≡ 0 → (n % 2 == 0) ≡ true
even_place n e = (==_iff (n % 2) 0).1 e

odd_place : (n : ℕ) → n % 2 ≡ 0 → (suc n % 2 == 0) ≡ false
odd_place n e = ground (arith, ==_iff (suc n % 2) 0)

module _ (J : JsonLibrary) where
  history_entries-append :
      (i : ℕ) (xs ys : List Message)
      → history_entries J i (xs ++ ys)
        ≡ history_entries J i xs ++ history_entries J (i + length xs) ys
  unfolding history_entries
  history_entries-append i [] ys = ap (λ n. history_entries J n ys) (omega arith)
  history_entries-append i (x ∷ xs) ys =
      ap (λ l. message_entry J i x ∷ l)
        (history_entries-append (suc i) xs ys
          ∙ ap (λ n. history_entries J (suc i) xs ++ history_entries J n ys) (omega arith))

  -- A message as the history shows it.
  abbrev pub shown_as : Bool → Message → J.Value
  shown_as is_user m = J.object (
      insert (codes "content") (J.from_text m.0)
        (insert (codes "is_user") (J.from_bool is_user) []))

  -- Behind an even number of messages, a question and an answer show as the user's and the assistant's.
  history_entries_even :
      (before : List Message) (question reply : Message)
      → length before % 2 ≡ 0
      → history_entries J 0 (before ++ question ∷ reply ∷ [])
        ≡ history_entries J 0 before ++ shown_as true question ∷ shown_as false reply ∷ []
  unfolding history_entries
  history_entries_even before question reply even =
      history_entries-append 0 before (question ∷ reply ∷ [])
      ∙ ap
          (λ b.
            history_entries J 0 before
            ++ shown_as b question ∷ message_entry J (suc (0 + length before)) reply ∷ [])
          (even_place (0 + length before) (ground arith))
      ∙ ap (λ b. history_entries J 0 before ++ shown_as true question ∷ shown_as b reply ∷ [])
          (odd_place (0 + length before) (ground arith))

  module _ (getenv : Bytes → Option Bytes) (tick : ℕ → ℕ)
      (walk : Dict Bytes Bytes → List (Bytes × Bytes))
      (regex_replace : Bytes → Bytes → Bytes → Bytes) (config_file : Option Bytes)
      (perform : ℕ → HttpPost → Outcome Bytes) (run_tool : Bytes → Option J.Value → Outcome J.Value)
      (simulate : Bool) {Rng : Type 0} where
    stored-Exchanged :
        (req : HttpRequest) (who : Speaker) (user : ℤ) (sid question : Bytes)
        (resp resp' : HttpResponse) (st st' : ServerState Rng) (clock' : ℕ) (h : Helper)
        (r : Outcome Bytes × Helper)
        → Leaves tick who question h r
        → stored J getenv tick walk regex_replace config_file perform run_tool simulate req user sid
            resp st r
          ≡ (returned resp', (st', clock'))
        → (reply : Bytes) × (t : ℤ) × (t' : ℤ) × (messages_of user sid st'.chats
            ≡ h.messages ++ (question, t) ∷ (reply, t') ∷ [])
    stored-Exchanged req who user sid question resp resp' st st' clock' h (threw what, h') left e =
        let no = ap (λ r. r.0) e in cc
    stored-Exchanged req who user sid question resp resp' st st' clock' h (returned information, h')
          left e =
        let (reply, stands, t, t', messages, published) = left in
        (
          reply,
          pos t,
          pos t',
          ap (λ r. messages_of user sid r.1.0.chats) (sym e)
              ∙ messages_of-put_messages user sid h'.messages st.chats
              ∙ messages,
        )

    -- A model without tools of its own, a session with an even number of messages: behind what the history
    -- showed, it shows the question as the user's and a reply as the assistant's, once the handler has answered
    -- the question, and nothing else.
    pub history_entries-ask_helper :
        (req : HttpRequest) (fresh : Bytes) (user : ℤ) (username : Bytes)
        (resp resp' : HttpResponse) (st st' : ServerState Rng) (clock clock' : ℕ) (q : Question)
        (s : AiStrategy J getenv)
        → create J getenv q.model_type ≡ returned s
        → s.is_native_tool_model ≡ false
        → length (
              messages_of user
                (session_for user fresh q.session_id st.chats).0
                (session_for user fresh q.session_id st.chats).1)
            % 2
          ≡ 0
        → ask_helper J getenv tick walk regex_replace config_file perform run_tool simulate req
            fresh user username resp
            (st, clock)
            q
          ≡ (returned resp', (st', clock'))
        → (reply : Message) × (t : ℤ) × (history_entries J 0
              (messages_of user (session_for user fresh q.session_id st.chats).0 st'.chats)
            ≡ history_entries J 0 (
                messages_of user
                  (session_for user fresh q.session_id st.chats).0
                  (session_for user fresh q.session_id st.chats).1)
              ++ shown_as true (q.user_question, t) ∷ shown_as false reply ∷ [])
    unfolding ask_helper
    history_entries-ask_helper req fresh user username resp resp' st st' clock clock' q s made plain
          even e =
        let sid = (session_for user fresh q.session_id st.chats).0 in
        let chats = (session_for user fresh q.session_id st.chats).1 in
        let who : Speaker = record { user_id = user; user_name = username; session_id = sid } in
        let h : Helper = record {
          messages = messages_of user sid chats;
          published = st.published;
          clock = clock;
        } in
        let (reply, t, t', k) =
          stored-Exchanged req who user sid q.user_question resp resp' (record st { chats = chats })
            st' clock' h
            (chat J getenv tick walk regex_replace config_file perform run_tool who simulate
              q.user_question q.model_type h)
            (chat-Leaves J getenv tick walk regex_replace config_file perform run_tool who simulate
              q.user_question q.model_type s h made plain)
            e in
        (
          (reply, t'),
          t,
          ap (history_entries J 0) k
              ∙ history_entries_even (messages_of user sid chats) (q.user_question, t) (reply, t')
                  even,
        )
