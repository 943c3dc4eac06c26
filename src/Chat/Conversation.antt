-- ===== src/Chat/Conversation.antt =====
-- AIHelper::chat of AIApps/ChatServer/src/AIUtil/AIHelper.cpp. `perform` is a transfer of libcurl, the first or
-- the second of a call; `run_tool` is AIToolRegistry::invoke.
pub mod Exchange
pub mod Popped
pub mod Tools
use miniaibrowse_cpp.Common.{
  ℕ, Bool, true, false, ◌||◌, List, [], ◌∷◌, ◌++◌, Option, none, some, Bytes, codes, bytes_key,
  ℕ_key, Dict, insert, pos, utf8, if◌then◌else◌,
}
use miniaibrowse_cpp.Chat.Accounts.{Outcome, returned, threw}
use miniaibrowse_cpp.Chat.History.{Message}
use miniaibrowse_cpp.Chat.Json.{JsonLibrary, first_element}
use miniaibrowse_cpp.Chat.Config.{
  AiConfig, AiTool, AiToolCall, load_from_file, build_prompt, parse_ai_response,
  build_tool_result_prompt,
}
use miniaibrowse_cpp.Chat.Strategy.{
  AiStrategy, create, set_tools, get_api_url, get_api_key, get_model, build_request, parse_response,
  first_choice,
}
use miniaibrowse_cpp.Chat.Helper.{Helper, push_message, but_last, pop_message, Speaker, add_message}
use miniaibrowse_cpp.Chat.Curl.{HttpPost, execute_curl}
use miniaibrowse_cpp.Chat.Sql.{insert_message_sql}

abbrev pub or_error : Bytes → Bytes → Bytes
or_error error [] = error
or_error error (c ∷ answer) = c ∷ answer

abbrev pub cannot_parse : Bytes
cannot_parse = utf8 "[Error] 无法解析响应"

module _ (J : JsonLibrary) (getenv : Bytes → Option Bytes) where
  open J use {
    Value, parse, dump, from_text, object, array, member, items, get_text, is_object, is_null,
    has_none, error_text,
  }

  -- `message.value(key, d)`.
  abbrev pub text_or : Bytes → Bytes → Option Value → Outcome Bytes
  text_or d key none = threw error_text
  text_or d key (some v) =
      if is_object v
      then elim (member key v) [
        | none ↦ returned d
        | some x ↦ elim (get_text x) [ none ↦ threw error_text | some s ↦ returned s ]
      ]
      else threw error_text

  abbrev pub member_of : Bytes → Option Value → Option Value
  member_of key none = none
  member_of key (some v) = member key v

  -- The tools as OpenAI wants them.
  abbrev pub param_values : List (Bytes × Bytes) → Dict Bytes Value
  param_values [] = []
  param_values ((k, v) ∷ params) =
      insert k
        (object (
          insert (codes "description") (from_text v)
            (insert (codes "type") (from_text (codes "string")) [])))
        (param_values params)

  abbrev pub param_keys : List (Bytes × Bytes) → List Value
  param_keys [] = []
  param_keys ((k, v) ∷ params) = from_text k ∷ param_keys params

  unfoldable pub openai_tools : (Dict Bytes Bytes → List (Bytes × Bytes)) → List AiTool → List Value
  openai_tools walk [] = []
  openai_tools walk (t ∷ tools) =
      let params = walk t.params in
      let parameters = object (
        insert (codes "required") (array (param_keys params)) (
          insert (codes "properties") (object (param_values params))
            (insert (codes "type") (from_text (codes "object")) []))) in
      let function = object (
        insert (codes "parameters") parameters (
          insert (codes "description") (from_text t.desc)
            (insert (codes "name") (from_text t.name) []))) in
      object (
        insert (codes "function") function
          (insert (codes "type") (from_text (codes "function")) []))
      ∷ openai_tools walk tools

  -- The tool calls of a message; `none` when it has none to run.
  abbrev pub tool_calls : Option Value → Option (List Value)
  tool_calls message = elim (member_of (codes "tool_calls") message) [
    | none ↦ none
    | some calls ↦ if is_null calls || has_none calls then none else some (items calls)
  ]

  module _ (tick : ℕ → ℕ) (walk : Dict Bytes Bytes → List (Bytes × Bytes))
      (regex_replace : Bytes → Bytes → Bytes → Bytes) (config_file : Option Bytes)
      (perform : ℕ → HttpPost → Outcome Bytes) (run_tool : Bytes → Option Value → Outcome Value)
      (who : Speaker) where
    abbrev pub say : Bool → Bytes → Helper → Helper
    say is_user content h = add_message tick who is_user content h

    abbrev mock_reply : Bytes → Bytes → Bytes → Bytes
    mock_reply question model model_type =
        utf8 "[模拟回复] 您的提问「"
        ++ (question
            ++ (utf8
                  "」已收到。\n\n这是由 AI_SIMULATE 模式生成的占位回复，实际 LLM API 调用已被跳过。\n该模式用于压测框架性能、测量端到端延迟，避免消耗 API token。\n\n当前策略: "
                ++ (model ++ (codes " (" ++ (model_type ++ codes ")")))))

    unfoldable pub simulated : AiStrategy J getenv → Bytes → Bytes → Helper → Outcome Bytes × Helper
    simulated s question model_type h =
        let mock = mock_reply question (get_model J getenv s) model_type in
        (returned mock, say false mock (say true question h))

    abbrev pub answered : Bytes → Helper → Outcome Bytes × Helper
    answered answer h = (returned (or_error cannot_parse answer), say false answer h)

    abbrev pub parsed : AiStrategy J getenv → Outcome Value → Outcome Bytes
    parsed s (threw what) = threw what
    parsed s (returned response) = parse_response J getenv s response

    -- A request for the messages of the helper, and the answer read from the response.
    abbrev pub ask : ℕ → AiStrategy J getenv → Helper → Outcome Bytes
    ask n s h = parsed s (execute_curl J getenv (perform n) s (build_request J getenv s h.messages))

    -- The branch without tools.
    unfoldable pub plain_chat : AiStrategy J getenv → Bytes → Helper → Outcome Bytes × Helper
    plain_chat s question h =
        let asked = say true question h in
        elim (ask 0 s asked) [
          | threw what ↦ (threw what, asked)
          | returned answer ↦ answered answer asked
        ]

    -- A tool call: its result, as text; the exception of a tool is part of the conversation.
    abbrev pub tool_result : Outcome Value → Bytes
    tool_result (returned v) = dump v
    tool_result (threw what) = 123 ∷ 34 ∷ (codes "error" ++ 34 ∷ 58 ∷ 34 ∷ (what ++ 34 ∷ 125 ∷ []))

    abbrev pub arguments_of : Bytes → Option Value
    arguments_of raw = elim (parse raw) [ none ↦ some (object []) | some v ↦ some v ]

    unfoldable pub tool_message : Bytes → Bytes → Value
    tool_message call_id content = object (
        insert (codes "content") (from_text content) (
          insert (codes "tool_call_id") (from_text call_id)
            (insert (codes "role") (from_text (codes "tool")) [])))

    -- One tool call: the message with its result, or an exception of the JSON library.
    unfoldable pub run_call : Value → Outcome Bytes
    unfolding tool_message
    run_call tc = elim (text_or [] (codes "id") (some tc)) [
      | threw what ↦ threw what
      | returned call_id ↦ elim (text_or [] (codes "name") (member (codes "function") tc)) [
        | threw what ↦ threw what
        | returned name ↦
            elim (text_or (codes "{}") (codes "arguments") (member (codes "function") tc)) [
              | threw what ↦ threw what
              | returned raw ↦
                  returned
                    (dump (tool_message call_id (tool_result (run_tool name (arguments_of raw)))))
            ]
      ]
    ]

    unfoldable pub run_calls : List Value → Helper → Option Bytes × Helper
    run_calls [] h = (none, h)
    run_calls (tc ∷ calls) h = elim (run_call tc) [
      | threw what ↦ (some what, h)
      | returned content ↦ run_calls calls (push_message content (pos 0) h)
    ]

    -- The answer of the second request; empty when it brings no choices.
    unfoldable pub final_answer : Outcome Value → Outcome Bytes
    final_answer (threw what) = threw what
    final_answer (returned response) = elim (first_choice J getenv response) [
      | none ↦ returned []
      | some choice ↦ text_or [] (codes "content") (member_of (codes "message") choice)
    ]

    abbrev pub no_answer : Bytes
    no_answer = utf8 "[Error] 工具调用后未生成回答"

    -- Behind the tools: two messages are taken off, whatever was pushed.
    unfoldable pub after_tools :
        AiStrategy J getenv → Option Bytes × Helper → Outcome Bytes × Helper
    after_tools s (some what, h) = (threw what, h)
    after_tools s (none, h) =
        elim (final_answer
          (execute_curl J getenv (perform 1) s (build_request J getenv s h.messages))) [
            | threw what ↦ (threw what, h)
            | returned answer ↦ (
              returned (or_error no_answer answer),
              say false answer (pop_message (pop_message h)),
            )
          ]

    abbrev no_choices : Bytes
    no_choices = utf8 "[Error] DeepSeek 返回格式异常"

    -- The response to the first request, once it has a message.
    unfoldable pub with_message :
        AiStrategy J getenv → Option Value → Helper → Outcome Bytes × Helper
    with_message s message h = elim (tool_calls message) [
      | none ↦ elim (text_or [] (codes "content") message) [
        | threw what ↦ (threw what, h)
        | returned answer ↦ answered answer h
      ]
      | some calls ↦ elim message [
        | none ↦ (threw error_text, h)
        | some m ↦ after_tools s (run_calls calls (push_message (dump m) (pos 0) h))
      ]
    ]

    abbrev pub with_response : AiStrategy J getenv → Outcome Value → Helper → Outcome Bytes × Helper
    with_response s (threw what) h = (threw what, h)
    with_response s (returned response) h = elim (first_choice J getenv response) [
      | none ↦ (returned no_choices, say false no_choices h)
      | some choice ↦ with_message s (member_of (codes "message") choice) h
    ]

    abbrev pub equip : AiStrategy J getenv → Bool × AiConfig → AiStrategy J getenv
    equip s (ok, config) = if ok then set_tools J getenv (openai_tools walk config.tools) s else s

    -- The branch of the models with tools of their own.
    unfoldable pub native_chat : AiStrategy J getenv → Bytes → Helper → Outcome Bytes × Helper
    native_chat s question h = elim (load_from_file J walk regex_replace config_file) [
      | threw what ↦ (threw what, h)
      | returned loaded ↦
          let s' = equip s loaded in
          let asked = say true question h in
          with_response s'
            (execute_curl J getenv (perform 0) s' (build_request J getenv s' asked.messages)) asked
    ]

    -- Both messages of an exchange.
    abbrev pub exchange : Bytes → Bytes → Helper → Outcome Bytes × Helper
    exchange question reply h = (returned reply, say false reply (say true question h))

    abbrev pub tool_failed : Bytes → Bytes
    tool_failed what = utf8 "[工具调用失败] " ++ what

    -- A prompt is pushed for a request, and taken off when the answer is there.
    unfoldable pub ask_prompt : ℕ → AiStrategy J getenv → Bytes → Helper → Outcome Bytes × Helper
    ask_prompt n s prompt h =
        let prompted = push_message prompt (pos 0) h in
        elim (ask n s prompted) [
          | threw what ↦ (threw what, prompted)
          | returned answer ↦ (returned answer, pop_message prompted)
        ]

    abbrev pub answered_prompt : Bytes → Outcome Bytes × Helper → Outcome Bytes × Helper
    answered_prompt question (threw what, h) = (threw what, h)
    answered_prompt question (returned answer, h) = exchange question answer h

    unfoldable pub second_prompt :
        AiStrategy J getenv
        → Bytes
        → AiToolCall J walk regex_replace
        → Value
        → Helper
        → Outcome Bytes × Helper
    second_prompt s question call result h =
        let prompt =
          build_tool_result_prompt J walk regex_replace question call.tool_name call.args result in
        answered_prompt question (ask_prompt 1 s prompt h)

    unfoldable pub after_prompt :
        AiStrategy J getenv → Bytes → Outcome Bytes × Helper → Outcome Bytes × Helper
    after_prompt s question (threw what, h) = (threw what, h)
    after_prompt s question (returned ai_result, h) =
        let call = parse_ai_response J walk regex_replace ai_result in
        if call.is_tool_call
        then elim (run_tool call.tool_name call.args) [
          | threw what ↦ exchange question (tool_failed what) h
          | returned result ↦ second_prompt s question call result h
        ]
        else exchange question ai_result h

    -- The branch that describes the tools in a prompt.
    unfoldable pub mcp_chat : AiStrategy J getenv → Bytes → Helper → Outcome Bytes × Helper
    mcp_chat s question h = elim (load_from_file J walk regex_replace config_file) [
      | threw what ↦ (threw what, h)
      | returned (ok, config) ↦
          after_prompt s question
            (ask_prompt 0 s (build_prompt J walk regex_replace config question) h)
    ]

    unfoldable pub chat_with :
        Bool → AiStrategy J getenv → Bytes → Bytes → Helper → Outcome Bytes × Helper
    chat_with simulate s question model_type h =
        if simulate
        then simulated s question model_type h
        else if s.is_mcp_model
        then mcp_chat s question h
        else if s.is_native_tool_model
        then native_chat s question h
        else plain_chat s question h

    -- `chat`. The address of the service is read for the log, and may be missing.
    unfoldable pub chat : Bool → Bytes → Bytes → Helper → Outcome Bytes × Helper
    chat simulate question model_type h = elim (create J getenv model_type) [
      | threw what ↦ (threw what, h)
      | returned s ↦ elim (get_api_url J getenv s) [
        | threw what ↦ (threw what, h)
        | returned url ↦ chat_with simulate s question model_type h
      ]
    ]
