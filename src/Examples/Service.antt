-- ===== src/Examples/Service.antt =====
-- A language model's service as the examples know it: what it answers, and the tools.
use miniaibrowse_cpp.Common.{
  ℕ, ◌+◌, ◌≡◌, refl, true, false, List, [], Option, none, some, Bytes, codes, bytes_eq, bytes_lt,
  bytes_key, ℕ_key, Dict, lookup, insert, pos, ◌==◌, if◌then◌else◌,
}
use miniaibrowse_cpp.Chat.Accounts.{Outcome, returned}
use miniaibrowse_cpp.Chat.Json.{JsonLibrary}
use miniaibrowse_cpp.Chat.Strategy.{AiStrategy, aliyun, deepseek, create, creators, construct}
use miniaibrowse_cpp.Chat.Config.{AiConfig}
use miniaibrowse_cpp.Chat.Helper.{Helper, Speaker}
use miniaibrowse_cpp.Chat.Curl.{HttpPost}
use miniaibrowse_cpp.Examples.Documents.{
  Doc, null, str, obj, arr, no_field, field, no_doc, doc, documents,
}

-- Documents with members.
abbrev pub one : Bytes → Doc → Doc
one k v = obj (field k v no_field)

abbrev pub choices_with : Doc → Doc
choices_with message = one (codes "choices") (arr (doc (one (codes "message") message) no_doc))

abbrev pub plain_answer : Doc
plain_answer = choices_with (one (codes "content") (str (codes "hi")))

abbrev pub a_call : Doc
a_call = obj (
    field (codes "id") (str (codes "7"))
      (field (codes "function") (one (codes "name") (str (codes "get_time"))) no_field))

abbrev pub asking : Doc
asking = one (codes "tool_calls") (arr (doc a_call (doc a_call no_doc)))

abbrev pub config_text : Doc
config_text = one (codes "prompt_template") (str (codes "{user_input}"))

abbrev pub stream_frame : Doc
stream_frame =
    one (codes "choices")
      (arr (doc (one (codes "delta") (one (codes "content") (str (codes "hi")))) no_doc))

-- What the library reads off some texts.
abbrev pub reads : Bytes → Option Doc
reads s =
    if bytes_eq s (codes "plain")
    then some plain_answer
    else if bytes_eq s (codes "asking")
    then some (choices_with asking)
    else if bytes_eq s (codes "config")
    then some config_text
    else if bytes_eq s (codes "frame")
    then some stream_frame
    else none

abbrev pub J : JsonLibrary
J = documents reads

abbrev pub keys : Bytes → Option Bytes
keys variable = some (codes "key")

abbrev pub next_tick : ℕ → ℕ
next_tick t = t + 1

abbrev pub in_order : Dict Bytes Bytes → List (Bytes × Bytes)
in_order m = m

abbrev pub no_regex : Bytes → Bytes → Bytes → Bytes
no_regex input regex format = input

abbrev pub config_file : Option Bytes
config_file = some (codes "config")

abbrev pub loaded : AiConfig
loaded = record { prompt_template = codes "{user_input}"; tools = [] }

-- The service asks for two tools first.
abbrev pub two_tools : ℕ → HttpPost → Outcome Bytes
two_tools n post = if n == 0 then returned (codes "asking") else returned (codes "plain")

abbrev pub answers : ℕ → HttpPost → Outcome Bytes
answers n post = returned (codes "plain")

abbrev pub tool : Bytes → Option Doc → Outcome Doc
tool name args = returned null

abbrev pub ann : Speaker
ann = record { user_id = pos 7; user_name = codes "ann"; session_id = codes "12" }

abbrev pub new_helper : Helper
new_helper = record { messages = []; published = []; clock = 5 }

abbrev pub aliyun_model : AiStrategy J keys
aliyun_model = record {
  kind = aliyun;
  api_key = codes "key";
  is_mcp_model = false;
  is_native_tool_model = false;
  tools = [];
}

abbrev pub deepseek_model : AiStrategy J keys
deepseek_model = record {
  kind = deepseek;
  api_key = codes "key";
  is_mcp_model = false;
  is_native_tool_model = true;
  tools = [];
}

pub made_aliyun : create J keys (codes "1") ≡ returned aliyun_model
unfolding create construct creators lookup insert bytes_eq bytes_lt
made_aliyun = refl
