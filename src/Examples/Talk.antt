-- ===== src/Examples/Talk.antt =====
-- The theorems on the conversation with a language model at concrete inputs.
use miniaibrowse_cpp.Common.{
  Option, ℕ, ◌≡◌, refl, true, false, List, [], ◌∷◌, ◌++◌, none, some, Bytes, codes, length,
  get_elem?, bytes_eq, bytes_lt, bytes_key, ℕ_key, lookup, insert, ℤ, pos, arith,
}
use miniaibrowse_cpp.Http.Request.{empty_request}
use miniaibrowse_cpp.Http.Response.{HttpResponse, new_response}
use miniaibrowse_cpp.Chat.Accounts.{answer, Outcome, returned}
use miniaibrowse_cpp.Chat.History.{Message}
use miniaibrowse_cpp.Chat.Deletion.{ServerState}
use miniaibrowse_cpp.Chat.Strategy.{
  parse_response_streaming, get_api_key, deepseek, create, creators, construct, get_api_url,
  build_request, parse_response,
}
use miniaibrowse_cpp.Chat.Strategy.Requests.{elements_of, messages_at, IsTurn, build_request-turns}
use miniaibrowse_cpp.Chat.Strategy.Streaming.{Brings, run_stream-data_lines}
use miniaibrowse_cpp.Chat.Sse.{run_stream}
use miniaibrowse_cpp.Chat.Config.{load_from_file}
use miniaibrowse_cpp.Chat.Helper.{Helper}
use miniaibrowse_cpp.Chat.Curl.{execute_curl}
use miniaibrowse_cpp.Chat.Conversation.{
  or_error, no_answer, chat_with, plain_chat, equip, with_message, run_calls, run_call, after_tools,
  final_answer, chat, native_chat,
}
use miniaibrowse_cpp.Chat.Conversation.Exchange.{Leaves, chat-Leaves}
use miniaibrowse_cpp.Chat.Conversation.Tools.{native_chat-leftover}
use miniaibrowse_cpp.Chat.Handlers.{messages_of, put_messages, emplace_helper}
use miniaibrowse_cpp.Chat.Handlers.Talk.{
  Question, ask_helper, session_for, add_session, history_entries,
}
use miniaibrowse_cpp.Chat.Handlers.Talk.Shown.{shown_as, history_entries-ask_helper}
use miniaibrowse_cpp.Http.Response.{mark_streamed, send}
use miniaibrowse_cpp.Chat.Curl.{HttpPost}
use miniaibrowse_cpp.Chat.Helper.{add_message}
use miniaibrowse_cpp.Chat.Handlers.Streaming.{
  Started, build_stream_request, add_to, begin_stream, stream_head, stream_thread,
}
use miniaibrowse_cpp.Chat.Handlers.Streaming.Ends.{Ends, stream_thread-begin_stream}
use miniaibrowse_cpp.Examples.Documents.{Doc, str}
use miniaibrowse_cpp.Examples.Service.{
  one, choices_with, a_call, asking, stream_frame, J, keys, next_tick, in_order, no_regex,
  config_file, loaded, two_tools, answers, tool, ann, new_helper, aliyun_model, deepseek_model,
  made_aliyun,
}

chat-Leaves_example : Leaves next_tick ann (codes "hello") new_helper (
    chat J keys next_tick in_order no_regex config_file answers tool ann false
      (codes "hello")
      (codes "1")
      new_helper)
chat-Leaves_example =
    chat-Leaves J keys next_tick in_order no_regex config_file answers tool ann false
      (codes "hello") (codes "1") aliyun_model new_helper made_aliyun refl

abbrev two_messages : List Message
two_messages = (codes "hello", pos 5) ∷ (codes "hi", pos 6) ∷ []

build_request-turns_example :
    (xs : List Doc) × (elements_of J keys
        (messages_at J keys deepseek (build_request J keys deepseek_model two_messages))
      ≡ some xs)
    × (length xs ≡ 2)
    × (v : Doc) × (get_elem? xs 1 ≡ some v)
    × IsTurn J keys (codes "assistant") (codes "hi") v
build_request-turns_example =
    build_request-turns J keys deepseek_model two_messages 1 (codes "hi", pos 6) refl

frame_Brings : Brings J keys (codes "frame") (codes "hi")
unfolding lookup bytes_eq
frame_Brings = record {
  choice = one (codes "delta") (one (codes "content") (str (codes "hi")));
  delta = one (codes "content") (str (codes "hi"));
  content = str (codes "hi");
  frame = stream_frame;
  parsed = refl;
  chosen = refl;
  unfinished = refl;
  has_delta = refl;
  no_reasoning = refl;
  has_content = refl;
  content_null = refl;
  content_text = refl;
  not_done = refl;
}

-- Two frames, the first one cut in two.
abbrev two_pieces : List Bytes
two_pieces = codes "data: fr" ∷ (codes "ame" ++ 10 ∷ (codes "data: frame" ++ 10 ∷ [])) ∷ []

run_stream-data_lines_example :
    (run_stream (parse_response_streaming J keys) (codes "failed") none two_pieces).0 ≡ codes "hihi"
run_stream-data_lines_example =
    run_stream-data_lines J keys (codes "failed")
      ((codes "frame", codes "hi") ∷ (codes "frame", codes "hi") ∷ []) two_pieces
      ((ground arith, frame_Brings), ((ground arith, frame_Brings), tt)) refl

abbrev said_by_tools : Outcome Bytes × Helper
said_by_tools =
    native_chat J keys next_tick in_order no_regex config_file two_tools tool ann deepseek_model
      (codes "hello") new_helper

said_hi : said_by_tools ≡ (returned (codes "hi"), said_by_tools.1)
unfolding native_chat load_from_file execute_curl get_api_url get_api_key build_request lookup
    bytes_eq with_message run_calls run_call after_tools final_answer
said_hi = refl

asked_for_tools :
    execute_curl J keys
      (two_tools 0)
      (equip J keys next_tick in_order no_regex config_file two_tools tool ann deepseek_model
        (true, loaded))
      (build_request J keys
        (equip J keys next_tick in_order no_regex config_file two_tools tool ann deepseek_model
          (true, loaded))
        ((codes "hello", pos 5) ∷ []))
    ≡ returned (choices_with asking)
unfolding execute_curl get_api_url bytes_eq
asked_for_tools = refl

native_chat-leftover_example :
    (left : List Message) × (said : Message) × (said_by_tools.1.messages
      ≡ (codes "hello", pos 5) ∷ left ++ said ∷ [])
    × (length left ≡ 1)
    × (codes "hi"
        ≡ or_error
            (no_answer J keys next_tick in_order no_regex config_file two_tools tool ann)
            said.0)
unfolding load_from_file lookup bytes_eq
native_chat-leftover_example =
    native_chat-leftover J keys next_tick in_order no_regex config_file two_tools tool ann
      deepseek_model (true, loaded) (codes "hello") (codes "hi") (choices_with asking)
      (one (codes "message") asking) asking a_call (a_call ∷ []) new_helper said_by_tools.1 refl
      asked_for_tools refl refl refl said_hi

abbrev no_server : ServerState ℕ
no_server = record {
  store = record { heap = []; sessions = []; rng = 1 };
  chats = record {
    chat_information = λ u. [];
    sessions_ids_map = λ u. [];
    loaded_users = λ u. true;
  };
  published = [];
}

abbrev hello : Question
hello = record { user_question = codes "hello"; session_id = []; model_type = codes "1" }

abbrev asked_hello : Outcome HttpResponse × (ServerState ℕ × ℕ)
asked_hello =
    ask_helper J keys next_tick in_order no_regex config_file answers tool false empty_request
      (codes "12") (pos 7) (codes "ann") (new_response true) (no_server, 5) hello

answered_hello : asked_hello ≡ (
  returned (answer empty_request 200 (codes "OK") false [] (new_response true)),
  (asked_hello.1.0, asked_hello.1.1),
)
unfolding ask_helper session_for add_session emplace_helper put_messages chat create construct
    creators get_api_url chat_with plain_chat execute_curl get_api_key build_request parse_response
    lookup insert bytes_eq bytes_lt
answered_hello = refl

history_entries-ask_helper_example :
    (reply : Message) × (t : ℤ) × (history_entries J 0
        (messages_of (pos 7) (codes "12") asked_hello.1.0.chats)
      ≡ [] ++ shown_as J true (codes "hello", t) ∷ shown_as J false reply ∷ [])
unfolding session_for add_session emplace_helper put_messages history_entries lookup insert bytes_eq
history_entries-ask_helper_example =
    history_entries-ask_helper J keys next_tick in_order no_regex config_file answers tool false
      empty_request (codes "12") (pos 7) (codes "ann") (new_response true)
      (answer empty_request 200 (codes "OK") false [] (new_response true)) no_server asked_hello.1.0
      5 asked_hello.1.1 hello aliyun_model made_aliyun refl refl answered_hello

-- The service closes the connection at once.
abbrev broken : HttpPost → Option Bytes × List Bytes
broken post = (some (codes "closed"), [])

abbrev hello_stream : Started J keys
hello_stream = record {
  who = ann;
  strategy = aliyun_model;
  payload = build_stream_request J keys aliyun_model ((codes "hello", pos 5) ∷ []);
}

abbrev hello_asked : ServerState ℕ × ℕ
hello_asked = add_to next_tick ann true (codes "hello") (no_server, 5)

began : begin_stream J keys next_tick broken ann false hello (new_response true) (no_server, 5) ≡ (
  returned (mark_streamed (new_response true), send stream_head ∷ [], some hello_stream),
  hello_asked,
)
unfolding begin_stream create construct creators add_to add_message put_messages lookup insert
    bytes_eq bytes_lt
began = refl

stream_thread-begin_stream_example :
    (reply : Bytes) × (messages_of
        (pos 7)
        (codes "12")
        (stream_thread J keys next_tick broken hello_stream hello_asked).1.0.chats
      ≡ messages_of (pos 7) (codes "12") no_server.chats
        ++ (codes "hello", pos 5) ∷ (reply, pos hello_asked.1) ∷ [])
    × Ends (stream_thread J keys next_tick broken hello_stream hello_asked).0
stream_thread-begin_stream_example =
    stream_thread-begin_stream J keys next_tick broken ann false hello (new_response true)
      (mark_streamed (new_response true)) (no_server, 5) hello_asked hello_asked
      (send stream_head ∷ []) hello_stream began refl
