-- ===== src/Chat/Strategy/Requests.antt =====
-- Which messages a request to a language model holds.
use miniaibrowse_cpp.Common.{
  ℕ, zero, suc, ◌+◌, ◌%◌, ◌≡◌, inl, inr, refl, ap, subst, ◌∙◌, List, [], ◌∷◌, Option, none, some,
  Bytes, codes, length, get_elem?, is_empty, bytes_eq, bytes_lt, bytes_key, ℕ_key, lookup, insert,
  ◌==◌, if◌then◌else◌, Bool-cases, arith,
}
use miniaibrowse_cpp.Chat.History.{Message}
use miniaibrowse_cpp.Chat.Json.{JsonLibrary}
use miniaibrowse_cpp.Chat.Strategy.{
  Kind, aliyun, doubao, aliyun_rag, aliyun_mcp, deepseek, local_llm, role, AiStrategy,
  message_array, model_request, build_request, then_member,
}

module _ (J : JsonLibrary) (getenv : Bytes → Option Bytes) where
  open J use {
    Value, from_text, object, array, member, elements, get_text, member-object, elements-array,
    get_text-from_text,
  }

  -- Where a service looks for the messages of a request.
  unfoldable pub messages_at : Kind → Value → Option Value
  messages_at aliyun_rag request =
      then_member J getenv (codes "messages") (member (codes "input") request)
  messages_at aliyun request = member (codes "messages") request
  messages_at doubao request = member (codes "messages") request
  messages_at aliyun_mcp request = member (codes "messages") request
  messages_at deepseek request = member (codes "messages") request
  messages_at local_llm request = member (codes "messages") request

  model_request-messages :
      (s : AiStrategy J getenv) (ms : List Message)
      → member (codes "messages") (object (model_request J getenv s ms))
        ≡ some (array (message_array J getenv 0 ms))
  unfolding lookup insert bytes_eq bytes_lt
  model_request-messages s ms = member-object (codes "messages") (model_request J getenv s ms)

  with_tools-messages :
      (s : AiStrategy J getenv) (ms : List Message) (tools : Value)
      → member
          (codes "messages")
          (object (insert (codes "tools") tools (model_request J getenv s ms)))
        ≡ some (array (message_array J getenv 0 ms))
  unfolding lookup insert bytes_eq bytes_lt
  with_tools-messages s ms tools =
      member-object (codes "messages") (insert (codes "tools") tools (model_request J getenv s ms))

  rag-messages :
      (xs : Value)
      → then_member J getenv (codes "messages") (
          member (codes "input") (
            object (
              insert
                (codes "parameters")
                (object [])
                (insert (codes "input") (object (insert (codes "messages") xs [])) []))))
        ≡ some xs
  unfolding lookup insert bytes_eq bytes_lt
  rag-messages xs =
      let input = object (insert (codes "messages") xs []) in
      ap (then_member J getenv (codes "messages")) (
        member-object (codes "input")
          (insert (codes "parameters") (object []) (insert (codes "input") input [])))
      ∙ member-object (codes "messages") (insert (codes "messages") xs [])

  build_request-messages :
      (s : AiStrategy J getenv) (ms : List Message) (k : Kind)
      → s.kind ≡ k
      → messages_at k (build_request J getenv s ms) ≡ some (array (message_array J getenv 0 ms))
  unfolding build_request messages_at
  build_request-messages s ms aliyun e = rw (e, build_request) (model_request-messages s ms)
  build_request-messages s ms doubao e = rw (e, build_request) (model_request-messages s ms)
  build_request-messages s ms aliyun_rag e =
      rw (e, build_request) (rag-messages (array (message_array J getenv 0 ms)))
  build_request-messages s ms aliyun_mcp e = rw (e, build_request) (model_request-messages s ms)
  build_request-messages s ms local_llm e = rw (e, build_request) (model_request-messages s ms)
  build_request-messages s ms deepseek e = elim (Bool-cases (is_empty s.tools)) [
    | inl none_given ↦ rw (e, build_request) (rw none_given (model_request-messages s ms))
    | inr given ↦ rw (e, build_request) (rw given (with_tools-messages s ms (array s.tools)))
  ]

  abbrev pub text_of : Option Value → Option Bytes
  text_of none = none
  text_of (some v) = get_text v

  -- A message of a request: its text, and whose it is.
  abbrev pub IsTurn : Bytes → Bytes → Value → Type 0
  IsTurn who content v =
      (text_of (member (codes "role") v) ≡ some who)
      × (text_of (member (codes "content") v) ≡ some content)

  turn : Bytes → Bytes → Value
  turn who content =
      object
        (insert (codes "content") (from_text content) (insert (codes "role") (from_text who) []))

  turn-IsTurn : (who content : Bytes) → IsTurn who content (turn who content)
  unfolding turn lookup insert bytes_eq bytes_lt
  turn-IsTurn who content =
      let members =
        insert (codes "content") (from_text content) (insert (codes "role") (from_text who) []) in
      (
        ap text_of (member-object (codes "role") members) ∙ get_text-from_text who,
        ap text_of (member-object (codes "content") members) ∙ get_text-from_text content,
      )

  message_array-turn :
      (ms : List Message) (i k : ℕ) (m : Message)
      → get_elem? ms k ≡ some m
      → get_elem? (message_array J getenv i ms) k ≡ some (turn (role (i + k)) m.0)
  unfolding message_array turn
  message_array-turn [] i k m e = cc
  message_array-turn (m ∷ ms) i zero m' e =
      let same : m ≡ m' = cc in
      let here : i ≡ i + 0 = omega arith in
      ap (λ j. some (turn (role j) m.0)) here ∙ ap (λ x. some (turn (role (i + 0)) x.0)) same
  message_array-turn (m ∷ ms) i (suc k) m' e =
      let next : suc i + k ≡ i + suc k = omega arith in
      message_array-turn ms (suc i) k m' e ∙ ap (λ j. some (turn (role j) m'.0)) next

  length-message_array :
      (ms : List Message) (i : ℕ) → length (message_array J getenv i ms) ≡ length ms
  unfolding message_array
  length-message_array [] i = refl
  length-message_array (m ∷ ms) i = ap suc (length-message_array ms (suc i))

  abbrev pub elements_of : Option Value → Option (List Value)
  elements_of none = none
  elements_of (some v) = elements v

  -- Every model is sent the whole history, in order: a request holds as many messages as the history, where
  -- the service of this model looks for them, and the message at place `k` has the text of the history's
  -- and the role "user" for an even `k`, "assistant" for an odd one.
  pub build_request-turns :
      (s : AiStrategy J getenv) (ms : List Message) (k : ℕ) (m : Message)
      → get_elem? ms k ≡ some m
      → (xs : List Value) × (elements_of (messages_at s.kind (build_request J getenv s ms))
          ≡ some xs)
        × (length xs ≡ length ms)
        × (v : Value) × (get_elem? xs k ≡ some v)
        × IsTurn (if k % 2 == 0 then codes "user" else codes "assistant") m.0 v
  unfolding role
  build_request-turns s ms k m e = (
    message_array J getenv 0 ms,
    ap elements_of (build_request-messages s ms s.kind refl)
        ∙ elements-array (message_array J getenv 0 ms),
    length-message_array ms 0,
    turn (role (0 + k)) m.0,
    message_array-turn ms 0 k m e,
    subst (λ j. IsTurn (role j) m.0 (turn (role (0 + k)) m.0)) (omega arith)
        (turn-IsTurn (role (0 + k)) m.0),
  )
