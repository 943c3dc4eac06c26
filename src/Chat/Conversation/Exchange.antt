-- ===== src/Chat/Conversation/Exchange.antt =====
-- What a call of `chat` leaves in the history.
use miniaibrowse_cpp.Common.{
  if_either, if_no, ℕ, ◌≡◌, ◌⊎◌, inl, inr, refl, sym, ap, subst, Bool, true, false, List, [], ◌∷◌,
  ◌++◌, append_assoc, Option, Bytes, bytes_key, ℕ_key, Dict, pos, if◌then◌else◌, Bool-cases,
}
use miniaibrowse_cpp.Chat.Accounts.{Outcome, Outcome-cases, returned, threw}
use miniaibrowse_cpp.Chat.History.{Message}
use miniaibrowse_cpp.Chat.Json.{JsonLibrary}
use miniaibrowse_cpp.Chat.Config.{
  AiToolCall, load_from_file, build_prompt, parse_ai_response, build_tool_result_prompt,
}
use miniaibrowse_cpp.Chat.Strategy.{AiStrategy, create, get_api_url}
use miniaibrowse_cpp.Chat.Sql.{insert_message_sql}
use miniaibrowse_cpp.Chat.Helper.{Helper, push_message, but_last, Speaker, add_message}
use miniaibrowse_cpp.Chat.Curl.{HttpPost}
use miniaibrowse_cpp.Chat.Conversation.{
  or_error, cannot_parse, simulated, ask, plain_chat, native_chat, ask_prompt, second_prompt,
  after_prompt, mcp_chat, chat_with, chat,
}

pub but_last-append : {A : Type 0} (xs : List A) (x : A) → but_last (xs ++ x ∷ []) ≡ xs
but_last-append [] x = refl
but_last-append (y ∷ []) x = refl
but_last-append (y ∷ z ∷ xs) x = ap (λ l. y ∷ l) (but_last-append (z ∷ xs) x)

module _ (tick : ℕ → ℕ) (who : Speaker) (question : Bytes) where
  -- What is stored for what is returned: the same text, or nothing for the text that says that there was
  -- no answer in the response.
  abbrev pub Stands : Bytes → Bytes → Type 0
  Stands answer reply = (answer ≡ reply) ⊎ ((reply ≡ []) × (answer ≡ cannot_parse))

  -- The question and its answer are in the history, in this order and with nothing between, and the two
  -- statements that store them are on the queue.
  abbrev pub Exchanged : Bytes → Helper → Helper → Type 0
  Exchanged answer h h' =
      (reply : Bytes) × Stands answer reply
      × (t : ℕ) × (t' : ℕ) × (h'.messages ≡ h.messages ++ (question, pos t) ∷ (reply, pos t') ∷ [])
      × (h'.published
          ≡ h.published
            ++ insert_message_sql who.user_id who.user_name true question t who.session_id
              ∷ insert_message_sql who.user_id who.user_name false reply t' who.session_id
              ∷ [])

  -- A call that threw left one message too many, the question or a prompt.
  abbrev pub OneLeft : Helper → Helper → Type 0
  OneLeft h h' = (m : Message) × (h'.messages ≡ h.messages ++ m ∷ [])

  abbrev pub Leaves : Helper → Outcome Bytes × Helper → Type 0
  Leaves h (returned answer, h') = Exchanged answer h h'
  Leaves h (threw what, h') = (h'.messages ≡ h.messages) ⊎ OneLeft h h'

  exchange-Exchanged :
      (h : Helper) (answer reply : Bytes)
      → Stands answer reply
      → Exchanged answer h (add_message tick who false reply (add_message tick who true question h))
  unfolding add_message
  exchange-Exchanged h answer reply stands = (
    reply,
    stands,
    h.clock,
    tick h.clock,
    append_assoc h.messages ((question, pos h.clock) ∷ []) ((reply, pos (tick h.clock)) ∷ []),
    append_assoc h.published _ _,
  )

  or_error-Stands : (answer : Bytes) → Stands (or_error cannot_parse answer) answer
  or_error-Stands [] = inr (refl, refl)
  or_error-Stands (c ∷ answer) = inl refl

module _ (J : JsonLibrary) (getenv : Bytes → Option Bytes) (tick : ℕ → ℕ)
    (walk : Dict Bytes Bytes → List (Bytes × Bytes)) (regex_replace : Bytes → Bytes → Bytes → Bytes)
    (config_file : Option Bytes) (perform : ℕ → HttpPost → Outcome Bytes)
    (run_tool : Bytes → Option J.Value → Outcome J.Value) (who : Speaker) where
  plain_chat-Leaves :
      (s : AiStrategy J getenv) (question : Bytes) (h : Helper)
      → Leaves tick who question h (
          plain_chat J getenv tick walk regex_replace config_file perform run_tool who s question h)
  unfolding plain_chat add_message
  plain_chat-Leaves s question h =
      elim (Outcome-cases (
        ask J getenv tick walk regex_replace config_file perform run_tool who 0 s
          (add_message tick who true question h))) [
            | inl (answer, e) ↦
                rw (e, plain_chat)
                  (exchange-Exchanged tick who question h _ answer
                    (or_error-Stands tick who question answer))
            | inr (what, e) ↦ rw (e, plain_chat) (inr ((question, pos h.clock), refl))
          ]

  -- A prompt is off the history again when its answer is there; it stays when the request throws.
  ask_prompt_lem :
      (n : ℕ) (s : AiStrategy J getenv) (prompt : Bytes) (h : Helper)
      → ((answer : Bytes) × (ask_prompt J getenv tick walk regex_replace config_file perform
              run_tool who n s prompt h
            ≡ (returned answer, h)))
        ⊎ ((what : Bytes) × (ask_prompt J getenv tick walk regex_replace config_file perform
                run_tool who n s prompt h
              ≡ (threw what, push_message prompt (pos 0) h)))
  unfolding ask_prompt
  ask_prompt_lem n s prompt h =
      elim (Outcome-cases (
        ask J getenv tick walk regex_replace config_file perform run_tool who n s
          (push_message prompt (pos 0) h))) [
            | inl (answer, e) ↦ inl (
              answer,
              rw (e, ask_prompt)
                  (ap (λ l. (returned answer, record h { messages = l }))
                    (but_last-append h.messages (prompt, pos 0))),
            )
            | inr (what, e) ↦ inr (what, rw (e, ask_prompt) refl)
          ]

  second_prompt-Leaves :
      (s : AiStrategy J getenv) (question : Bytes) (call : AiToolCall J walk regex_replace)
      (result : J.Value) (h : Helper)
      → Leaves tick who question h (
          second_prompt J getenv tick walk regex_replace config_file perform run_tool who s question
            call result h)
  unfolding second_prompt
  second_prompt-Leaves s question call result h =
      let prompt =
        build_tool_result_prompt J walk regex_replace question call.tool_name call.args result in
      elim (ask_prompt_lem 1 s prompt h) [
        | inl (answer, e) ↦
            rw (e, second_prompt) (exchange-Exchanged tick who question h answer answer (inl refl))
        | inr (what, e) ↦ rw (e, second_prompt) (inr ((prompt, pos 0), refl))
      ]

  after_prompt-Leaves :
      (s : AiStrategy J getenv) (question ai_result : Bytes) (h : Helper)
      → Leaves tick who question h (
          after_prompt J getenv tick walk regex_replace config_file perform run_tool who s question
            (returned ai_result, h))
  unfolding after_prompt
  after_prompt-Leaves s question ai_result h =
      let call = parse_ai_response J walk regex_replace ai_result in
      elim (Bool-cases call.is_tool_call) [
        | inr e ↦
            rw (e, after_prompt)
              (exchange-Exchanged tick who question h ai_result ai_result (inl refl))
        | inl e ↦ elim (Outcome-cases (run_tool call.tool_name call.args)) [
          | inl (result, r) ↦
              rw (e, after_prompt) (rw r (second_prompt-Leaves s question call result h))
          | inr (what, r) ↦
              rw (e, after_prompt) (rw r (exchange-Exchanged tick who question h _ _ (inl refl)))
        ]
      ]

  mcp_chat-Leaves :
      (s : AiStrategy J getenv) (question : Bytes) (h : Helper)
      → Leaves tick who question h
          (mcp_chat J getenv tick walk regex_replace config_file perform run_tool who s question h)
  unfolding mcp_chat after_prompt
  mcp_chat-Leaves s question h =
      elim (Outcome-cases (load_from_file J walk regex_replace config_file)) [
        | inr (what, e) ↦ rw (e, mcp_chat) (inl refl)
        | inl ((ok, config), e) ↦
            let prompt = build_prompt J walk regex_replace config question in
            rw (e, mcp_chat)
              (elim (ask_prompt_lem 0 s prompt h) [
                | inl (answer, r) ↦ rw r (after_prompt-Leaves s question answer h)
                | inr (what, r) ↦ rw r (inr ((prompt, pos 0), refl))
              ])
      ]

  simulated-Leaves :
      (s : AiStrategy J getenv) (question model_type : Bytes) (h : Helper)
      → Leaves tick who question h (
          simulated J getenv tick walk regex_replace config_file perform run_tool who s question
            model_type h)
  unfolding simulated
  simulated-Leaves s question model_type h = exchange-Exchanged tick who question h _ _ (inl refl)

  chat_with-Leaves :
      (simulate : Bool) (s : AiStrategy J getenv) (question model_type : Bytes) (h : Helper)
      → s.is_native_tool_model ≡ false
      → Leaves tick who question h (
          chat_with J getenv tick walk regex_replace config_file perform run_tool who simulate s
            question model_type h)
  unfolding chat_with
  chat_with-Leaves true s question model_type h e = simulated-Leaves s question model_type h
  chat_with-Leaves false s question model_type h e =
      let plain =
        plain_chat J getenv tick walk regex_replace config_file perform run_tool who s question h in
      let native =
        native_chat J getenv tick walk regex_replace config_file perform run_tool who s question
          h in
      if_either (Leaves tick who question h) s.is_mcp_model
        (mcp_chat J getenv tick walk regex_replace config_file perform run_tool who s question h)
        (if s.is_native_tool_model then native else plain) (mcp_chat-Leaves s question h)
        (subst (Leaves tick who question h) (sym (if_no s.is_native_tool_model native plain e))
          (plain_chat-Leaves s question h))

  -- Every model without tools of its own, simulated or not: a call of `chat` that returns has added the
  -- question and its answer to the history, and nothing else, whatever prompts and tools came between, and
  -- has published the statements that store the two. The answer stored is the one returned, or is empty where
  -- what is returned says that the response could not be read. A call that throws has left the history as it was, or
  -- one message longer.
  pub chat-Leaves :
      (simulate : Bool) (question model_type : Bytes) (s : AiStrategy J getenv) (h : Helper)
      → create J getenv model_type ≡ returned s
      → s.is_native_tool_model ≡ false
      → Leaves tick who question h (
          chat J getenv tick walk regex_replace config_file perform run_tool who simulate question
            model_type h)
  unfolding chat
  chat-Leaves simulate question model_type s h made plain =
      elim (Outcome-cases (get_api_url J getenv s)) [
        | inr (what, e) ↦ rw (made, chat) (rw e (inl refl))
        | inl (url, e) ↦
            rw (made, chat) (rw e (chat_with-Leaves simulate s question model_type h plain))
      ]
