-- ===== src/Chat/Config.antt =====
-- AIApps/ChatServer/include/AIUtil/AIConfig.h and src/AIUtil/AIConfig.cpp. `walk` is the order in which an
-- unordered map is visited, `regex_replace text pattern format` is std::regex_replace.
use miniaibrowse_cpp.Common.{
  Bool, true, false, List, [], ◌∷◌, ◌++◌, Option, none, some, Bytes, codes, bytes_key, ℕ_key, Dict,
  insert, utf8, if◌then◌else◌,
}
use miniaibrowse_cpp.Chat.Accounts.{Outcome, returned, threw}
use miniaibrowse_cpp.Chat.Json.{JsonLibrary, as_text}

pub record AiTool : Type 0 where
  pub name : Bytes
  pub params : Dict Bytes Bytes
  pub desc : Bytes

pub record AiConfig : Type 0 where
  pub prompt_template : Bytes
  pub tools : List AiTool

abbrev pub empty_config : AiConfig
empty_config = record { prompt_template = []; tools = [] }

-- The next step of a computation that may throw.
abbrev pub and_then : {A B : Type 0} → Outcome A → (A → Outcome B) → Outcome B
and_then (threw what) f = threw what
and_then (returned a) f = f a

module _ (J : JsonLibrary) (walk : Dict Bytes Bytes → List (Bytes × Bytes))
    (regex_replace : Bytes → Bytes → Bytes → Bytes) where
  open J use {
    Value, parse, dump, dump_indented, object, member, elements, members, is_object, get_text,
    error_text,
  }

  pub record AiToolCall : Type 0 where
    pub tool_name : Bytes
    pub args : Option Value
    pub is_tool_call : Bool

  -- `value(key, d)`, on a value that must be an object.
  abbrev pub value_or : Bytes → Bytes → Value → Outcome Bytes
  value_or d key v =
      if is_object v
      then elim (member key v) [ none ↦ returned d | some x ↦ as_text J x ]
      else threw error_text

  unfoldable pub read_params : Dict Bytes Value → Dict Bytes Bytes → Outcome (Dict Bytes Bytes)
  read_params [] params = returned params
  read_params ((key, val) ∷ rest) params = elim (as_text J val) [
    | threw what ↦ threw what
    | returned s ↦ read_params rest (insert key s params)
  ]

  abbrev params_of : Option Value → Outcome (Dict Bytes Bytes)
  params_of none = returned []
  params_of (some v) = if is_object v then read_params (members v) [] else returned []

  unfoldable pub read_tool : Value → Outcome AiTool
  unfolding read_params
  read_tool tool = and_then (value_or [] (codes "name") tool) λ name.
      and_then (value_or [] (codes "desc") tool) λ desc.
        and_then (params_of (member (codes "params") tool))
          λ params. returned (record { name = name; params = params; desc = desc })

  unfoldable pub read_tools : List Value → Outcome (List AiTool)
  read_tools [] = returned []
  read_tools (tool ∷ tools) =
      and_then (read_tool tool) λ t. and_then (read_tools tools) λ ts. returned (t ∷ ts)

  abbrev tools_of : Option Value → Outcome (List AiTool)
  tools_of none = returned []
  tools_of (some v) = elim (elements v) [ none ↦ returned [] | some tools ↦ read_tools tools ]

  abbrev template_of : Option Value → Option Bytes
  template_of none = none
  template_of (some v) = get_text v

  abbrev pub load_json : Option Value → Outcome (Bool × AiConfig)
  load_json none = threw error_text
  load_json (some j) = elim (template_of (member (codes "prompt_template") j)) [
    | none ↦ returned (false, empty_config)
    | some template ↦
        and_then (tools_of (member (codes "tools") j))
          λ tools. returned (true, record { prompt_template = template; tools = tools })
  ]

  -- The content of the file, if it can be opened.
  unfoldable pub load_from_file : Option Bytes → Outcome (Bool × AiConfig)
  load_from_file none = returned (false, empty_config)
  load_from_file (some content) = load_json (parse content)

  abbrev param_names : Bool → List (Bytes × Bytes) → Bytes
  param_names is_first [] = []
  param_names is_first ((key, val) ∷ params) =
      (if is_first then [] else codes ", ") ++ (key ++ param_names false params)

  unfoldable pub build_tool_list : List AiTool → Bytes
  build_tool_list [] = []
  build_tool_list (t ∷ tools) =
      t.name
      ++ (codes "("
          ++ (param_names true (walk t.params)
              ++ (utf8 ") ¡ú " ++ (t.desc ++ 10 ∷ build_tool_list tools))))

  unfoldable pub build_prompt : AiConfig → Bytes → Bytes
  build_prompt config user_input =
      let result = regex_replace config.prompt_template (codes "\\{user_input\\}") user_input in
      regex_replace result (codes "\\{tool_list\\}") (build_tool_list config.tools)

  abbrev pub no_call : AiToolCall
  no_call = record { tool_name = []; args = none; is_tool_call = false }

  abbrev object_or_none : Option Value → Option Value
  object_or_none none = none
  object_or_none (some v) = if is_object v then some v else none

  abbrev call_of : Option Value → AiToolCall
  call_of none = no_call
  call_of (some j) = elim (template_of (member (codes "tool") j)) [
    | none ↦ no_call
    | some tool ↦ record {
      tool_name = tool;
      args = object_or_none (member (codes "args") j);
      is_tool_call = true;
    }
  ]

  -- What is not JSON is no call. The arguments are null unless an object is given.
  unfoldable pub parse_ai_response : Bytes → AiToolCall
  parse_ai_response response = call_of (parse response)

  abbrev pub dump_args : Option Value → Bytes
  dump_args none = codes "null"
  dump_args (some v) = dump v

  unfoldable pub build_tool_result_prompt : Bytes → Bytes → Option Value → Value → Bytes
  build_tool_result_prompt user_input tool_name tool_args tool_result =
      utf8 "下面是用户说的话："
      ++ (user_input
          ++ (10
              ∷ (utf8 "我刚才调用了工具 ["
                  ++ (tool_name
                      ++ (utf8 "] ，参数为："
                          ++ (dump_args tool_args
                              ++ (10
                                  ∷ (utf8 "工具返回的结果如下："
                                      ++ (10
                                          ∷ (dump_indented tool_result
                                              ++ (10 ∷ utf8 "请根据以上信息，用自然语言回答用户。")))))))))))
