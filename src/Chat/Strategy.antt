-- ===== src/Chat/Strategy.antt =====
-- The language models: AIApps/ChatServer/include/AIUtil/AIStrategy.h, src/AIUtil/AIStrategy.cpp and
-- src/AIUtil/AIFactory.cpp. `getenv` is the environment of the process.
pub mod Requests
pub mod Streaming
use miniaibrowse_cpp.Common.{
  ℕ, suc, ◌%◌, Bool, true, false, not, List, [], ◌∷◌, ◌++◌, Option, none, some, Bytes, codes, drop,
  is_empty, bytes_eq, Key, bytes_key, ℕ_key, Dict, lookup, insert, ◌==◌, utf8, if◌then◌else◌,
}
use miniaibrowse_cpp.Chat.Accounts.{Outcome, returned, threw}
use miniaibrowse_cpp.Chat.History.{Message}
use miniaibrowse_cpp.Chat.Json.{JsonLibrary, first_element}
use miniaibrowse_cpp.Session.{is_prefix}

pub data Kind : Type 0 where
  aliyun doubao aliyun_rag aliyun_mcp deepseek local_llm : Kind

abbrev pub or_default : Bytes → Option Bytes → Bytes
or_default d none = d
or_default d (some s) = s

-- The role of a message by its place in the history.
unfoldable pub role : ℕ → Bytes
role i = if i % 2 == 0 then codes "user" else codes "assistant"

-- `StrategyRegister`, at the start of the program.
unfoldable pub creators : Dict Bytes Kind
creators = insert (codes "6") local_llm (
    insert (codes "5") deepseek (
      insert (codes "4") aliyun_mcp
        (insert (codes "3") aliyun_rag (insert (codes "2") doubao (insert (codes "1") aliyun [])))))

module _ (J : JsonLibrary) (getenv : Bytes → Option Bytes) where
  open J use {
    Value, parse, from_text, object, array, member, get_text, is_null, is_object, has_none,
    at_missing, error_text,
  }

  pub record AiStrategy : Type 0 where
    pub kind : Kind
    pub api_key : Bytes
    pub is_mcp_model : Bool
    pub is_native_tool_model : Bool
    pub tools : List Value

  -- A constructor that reads its key from the environment, or throws.
  abbrev pub with_key : Kind → Bytes → Bytes → Bool → Bool → Outcome AiStrategy
  with_key kind variable missing mcp native = elim (getenv variable) [
    | none ↦ threw missing
    | some key ↦ returned (record {
      kind = kind;
      api_key = key;
      is_mcp_model = mcp;
      is_native_tool_model = native;
      tools = [];
    })
  ]

  abbrev aliyun_missing : Bytes
  aliyun_missing = codes "Aliyun API Key not found!"

  unfoldable pub construct : Kind → Outcome AiStrategy
  construct aliyun = with_key aliyun (codes "DASHSCOPE_API_KEY") aliyun_missing false false
  construct doubao =
      with_key doubao (codes "DOUBAO_API_KEY") (codes "DOUBAO API Key not found!") false false
  construct aliyun_rag = with_key aliyun_rag (codes "DASHSCOPE_API_KEY") aliyun_missing false false
  construct aliyun_mcp = with_key aliyun_mcp (codes "DASHSCOPE_API_KEY") aliyun_missing true false
  construct deepseek =
      with_key deepseek (codes "DEEPSEEK_API_KEY") (codes "DeepSeek API KEY Not Found!!!") false
        true
  construct local_llm = returned (record {
    kind = local_llm;
    api_key = [];
    is_mcp_model = false;
    is_native_tool_model = false;
    tools = [];
  })

  -- `StrategyFactory::create`.
  unfoldable pub create : Bytes → Outcome AiStrategy
  create name = elim (lookup name creators) [
    | none ↦ threw (codes "Unknown strategy: " ++ name)
    | some kind ↦ construct kind
  ]

  abbrev pub set_tools : List Value → AiStrategy → AiStrategy
  set_tools tools s = record s { tools = tools }

  -- `AliyunRAGStrategy::getApiUrl`.
  abbrev pub rag_url : Outcome Bytes
  rag_url = elim (getenv (codes "Knowledge_Base_ID")) [
    | none ↦ threw (codes "Knowledge_Base_ID not found!")
    | some id ↦
        returned
          (codes "https://dashscope.aliyuncs.com/api/v1/apps/" ++ (id ++ codes "/completion"))
  ]

  -- `LocalLLMStrategy::getApiUrl`.
  abbrev pub local_url : Bytes
  local_url =
      codes "http://localhost:"
      ++ (or_default (codes "8000") (getenv (codes "TENSORRT_LLM_PORT"))
          ++ codes "/v1/chat/completions")

  -- `LocalLLMStrategy::getModel`.
  abbrev pub local_model : Bytes
  local_model = or_default (codes "Qwen2.5-0.5B-Instruct") (getenv (codes "TENSORRT_LLM_MODEL"))

  unfoldable pub get_api_url : AiStrategy → Outcome Bytes
  get_api_url s = elim s.kind [
    | aliyun ↦ returned (codes "https://dashscope.aliyuncs.com/compatible-mode/v1/chat/completions")
    | doubao ↦ returned (codes "https://ark.cn-beijing.volces.com/api/v3/chat/completions")
    | aliyun_rag ↦ rag_url
    | aliyun_mcp ↦
        returned (codes "https://dashscope.aliyuncs.com/compatible-mode/v1/chat/completions")
    | deepseek ↦ returned (codes "https://api.deepseek.com/chat/completions")
    | local_llm ↦ returned local_url
  ]

  unfoldable pub get_api_key : AiStrategy → Bytes
  get_api_key s = elim s.kind [ local_llm ↦ [] | _ ↦ s.api_key ]

  unfoldable pub get_model : AiStrategy → Bytes
  get_model s = elim s.kind [
    | aliyun ↦ codes "qwen-plus"
    | doubao ↦ codes "doubao-seed-1-6-thinking-250715"
    | aliyun_rag ↦ []
    | aliyun_mcp ↦ codes "qwen-plus"
    | deepseek ↦ codes "deepseek-reasoner"
    | local_llm ↦ local_model
  ]

  -- The loop of `buildRequest`, from the message at `i`.
  unfoldable pub message_array : ℕ → List Message → List Value
  message_array i [] = []
  message_array i ((content, ts) ∷ messages) =
      object (
        insert (codes "content") (from_text content)
          (insert (codes "role") (from_text (role i)) []))
      ∷ message_array (suc i) messages

  -- An OpenAI request: a model and the messages.
  abbrev pub model_request : AiStrategy → List Message → Dict Bytes Value
  model_request s messages =
      insert (codes "messages") (array (message_array 0 messages))
        (insert (codes "model") (from_text (get_model s)) [])

  -- `AliyunRAGStrategy::buildRequest`.
  abbrev pub rag_request : List Message → Value
  rag_request messages = object (
      insert (codes "parameters") (object []) (
        insert (codes "input")
          (object (insert (codes "messages") (array (message_array 0 messages)) [])) []))

  -- `DeepSeekStrategy::buildRequest`.
  abbrev pub deepseek_request : AiStrategy → List Message → Value
  deepseek_request s messages =
      if is_empty s.tools
      then object (model_request s messages)
      else object (insert (codes "tools") (array s.tools) (model_request s messages))

  unfoldable pub build_request : AiStrategy → List Message → Value
  build_request s messages = elim s.kind [
    | aliyun_rag ↦ rag_request messages
    | deepseek ↦ deepseek_request s messages
    | _ ↦ object (model_request s messages)
  ]

  -- A conversion to a string, which throws on any other value, and on one that is missing.
  abbrev pub to_text : Option Value → Outcome Bytes
  to_text none = threw error_text
  to_text (some v) = elim (get_text v) [ none ↦ threw error_text | some s ↦ returned s ]

  abbrev pub then_member : Bytes → Option Value → Option Value
  then_member k none = none
  then_member k (some v) = member k v

  -- `response["choices"][0]` of a response that has choices; `some none` where `[0]` throws.
  abbrev pub first_choice : Value → Option (Option Value)
  first_choice response = elim (member (codes "choices") response) [
    | none ↦ none
    | some choices ↦ if has_none choices then none else some (first_element J choices)
  ]

  -- `AliyunRAGStrategy::parseResponse`.
  abbrev pub rag_answer : Value → Outcome Bytes
  rag_answer response = elim (then_member (codes "text") (member (codes "output") response)) [
    | none ↦ returned []
    | some v ↦ to_text (some v)
  ]

  -- `[key]` of a const value: it throws on what is no object.
  abbrev const_member : Bytes → Outcome Value → Outcome Value
  const_member k (threw what) = threw what
  const_member k (returned v) = elim (member k v) [
    | some x ↦ returned x
    | none ↦ if is_object v then at_missing k v else threw error_text
  ]

  abbrev chosen_value : Option Value → Outcome Value
  chosen_value none = threw error_text
  chosen_value (some choice) = returned choice

  abbrev text_of : Outcome Value → Outcome Bytes
  text_of (threw what) = threw what
  text_of (returned v) = to_text (some v)

  unfoldable pub parse_response : AiStrategy → Value → Outcome Bytes
  parse_response s response = elim s.kind [
    | aliyun_rag ↦ rag_answer response
    | _ ↦ elim (first_choice response) [
      | none ↦ returned []
      | some choice ↦
          text_of
            (const_member (codes "content") (const_member (codes "message") (chosen_value choice)))
    ]
  ]

  -- The text of a member that is there, is a string and is not empty.
  abbrev pub some_text : Option Value → Bytes
  some_text none = []
  some_text (some v) = if is_null v then [] else elim (get_text v) [ none ↦ [] | some s ↦ s ]

  -- `onChunk`, when there is a text.
  abbrev pub chunk_of : Bytes → Bytes → List (Bytes × Bytes)
  chunk_of kind [] = []
  chunk_of kind (c ∷ s) = (kind, c ∷ s) ∷ []

  abbrev pub cut_off : Bytes
  cut_off = utf8 "⚠" ++ 239 ∷ 184 ∷ 143 ∷ utf8 " 回复因 token 限制被截断，请尝试缩短问题或开启新会话"

  abbrev finish_text : Option Value → Bytes
  finish_text none = []
  finish_text (some v) = elim (get_text v) [ none ↦ [] | some s ↦ s ]

  unfoldable pub choice_chunks : Value → List (Bytes × Bytes)
  choice_chunks choice =
      let delta = member (codes "delta") choice in
      (if bytes_eq (finish_text (member (codes "finish_reason") choice)) (codes "length")
        then (codes "error", cut_off) ∷ []
        else [])
      ++ (chunk_of (codes "reasoning") (some_text (then_member (codes "reasoning_content") delta))
          ++ chunk_of (codes "content") (some_text (then_member (codes "content") delta)))

  abbrev pub frame_chunks : Option Value → List (Bytes × Bytes)
  frame_chunks none = []
  frame_chunks (some j) = elim (first_choice j) [
    | none ↦ []
    | some none ↦ []
    | some (some choice) ↦ choice_chunks choice
  ]

  abbrev pub sse_prefix : Bytes
  sse_prefix = codes "data: "

  -- The calls of `onChunk` for one line; what throws is caught.
  unfoldable pub parse_response_streaming : Bytes → List (Bytes × Bytes)
  parse_response_streaming sse_line =
      let json_str = drop 6 sse_line in
      if is_prefix sse_prefix sse_line
      then (if bytes_eq json_str (codes "[DONE]") then [] else frame_chunks (parse json_str))
      else []
