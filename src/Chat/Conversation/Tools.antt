-- ===== src/Chat/Conversation/Tools.antt =====
-- What the tool calls of a model leave in the history.
use miniaibrowse_cpp.Common.{
  ℕ, suc, ◌≡◌, inl, inr, refl, sym, ap, ◌∙◌, Bool, true, false, List, [], ◌∷◌, ◌++◌, append_assoc,
  append-nil, Option, none, some, Bytes, codes, length, bytes_key, ℕ_key, Dict, ℤ, pos,
}
use miniaibrowse_cpp.Chat.Accounts.{Outcome, Outcome-cases, returned, threw}
use miniaibrowse_cpp.Chat.History.{Message}
use miniaibrowse_cpp.Chat.Json.{JsonLibrary}
use miniaibrowse_cpp.Chat.Config.{AiConfig, load_from_file}
use miniaibrowse_cpp.Chat.Strategy.{AiStrategy, build_request, first_choice}
use miniaibrowse_cpp.Chat.Conversation.Popped.{question_left}
use miniaibrowse_cpp.Chat.Helper.{Helper, push_message, but_last, pop_message, Speaker, add_message}
use miniaibrowse_cpp.Chat.Curl.{HttpPost, execute_curl}
use miniaibrowse_cpp.Chat.Conversation.{
  or_error, no_answer, tool_calls, run_call, run_calls, final_answer, after_tools, with_message,
  with_response, equip, native_chat,
}

module _ (J : JsonLibrary) (getenv : Bytes → Option Bytes) (tick : ℕ → ℕ)
    (walk : Dict Bytes Bytes → List (Bytes × Bytes)) (regex_replace : Bytes → Bytes → Bytes → Bytes)
    (config_file : Option Bytes) (perform : ℕ → HttpPost → Outcome Bytes)
    (run_tool : Bytes → Option J.Value → Outcome J.Value) (who : Speaker) where
  abbrev runs : List J.Value → Helper → Option Bytes × Helper
  runs = run_calls J getenv tick walk regex_replace config_file perform run_tool who

  abbrev AllResults : List J.Value → Helper → Helper → Type 0
  AllResults calls h h' =
      (results : List Message) × (h'.messages ≡ h.messages ++ results)
      × (length results ≡ length calls)

  one_more :
      (tc : J.Value) (calls : List J.Value) (content : Bytes) (h h' : Helper)
      → AllResults calls (push_message content (pos 0) h) h'
      → AllResults (tc ∷ calls) h h'
  one_more tc calls content h h' (results, e, n) = (
    (content, pos 0) ∷ results,
    e ∙ append_assoc h.messages ((content, pos 0) ∷ []) results,
    ap suc n,
  )

  run_calls-run_call :
      (tc : J.Value) (calls : List J.Value) (content : Bytes) (h : Helper)
      → run_call J getenv tick walk regex_replace config_file perform run_tool who tc
        ≡ returned content
      → runs (tc ∷ calls) h ≡ runs calls (push_message content (pos 0) h)
  unfolding run_calls
  run_calls-run_call tc calls content h r = rw (r, run_calls) refl

  run_calls-threw :
      (tc : J.Value) (calls : List J.Value) (what : Bytes) (h : Helper)
      → run_call J getenv tick walk regex_replace config_file perform run_tool who tc ≡ threw what
      → runs (tc ∷ calls) h ≡ (some what, h)
  unfolding run_calls
  run_calls-threw tc calls what h r = rw (r, run_calls) refl

  stopped :
      {C : Type 0}
      → {what : Bytes} → {h h' : Helper} → ◌≡◌ {A = Option Bytes × Helper} (some what, h) (none, h')
      → C
  stopped e = let no = ap (λ r. r.0) e in cc

  threw_not :
      {C : Type 0}
      → {what reply : Bytes} → {h h' : Helper}
      → ◌≡◌ {A = Outcome Bytes × Helper} (threw what, h) (returned reply, h')
      → C
  threw_not e = let no = ap (λ r. r.0) e in cc

  returned_text :
      {a b : Bytes}
      → {h h' : Helper} → ◌≡◌ {A = Outcome Bytes × Helper} (returned a, h) (returned b, h')
      → a ≡ b
  returned_text e = let same = ap (λ r. r.0) e in cc

  -- Each call that could be run has one message for its result.
  run_calls-results :
      (calls : List J.Value) (h h' : Helper) → runs calls h ≡ (none, h') → AllResults calls h h'
  unfolding run_calls
  run_calls-results [] h h' e =
      ([], ap (λ r. r.1.messages) (sym e) ∙ sym (append-nil h.messages), refl)
  run_calls-results (tc ∷ calls) h h' e =
      elim (Outcome-cases
        (run_call J getenv tick walk regex_replace config_file perform run_tool who tc)) [
          | inr (what, r) ↦ stopped (sym (run_calls-threw tc calls what h r) ∙ e)
          | inl (content, r) ↦ one_more tc calls content h h' (
              run_calls-results calls (push_message content (pos 0) h) h'
                (sym (run_calls-run_call tc calls content h r) ∙ e))
        ]

  -- The messages of a helper with the last two taken off and an answer put behind, the one that `reply` gives.
  abbrev Answered : Bytes → List Message → Helper → Type 0
  Answered reply before h' =
      (answer : Bytes) × (t : ℤ) × (h'.messages ≡ but_last (but_last before) ++ (answer, t) ∷ [])
      × (reply
          ≡ or_error (no_answer J getenv tick walk regex_replace config_file perform run_tool who)
              answer)

  abbrev last_answer : AiStrategy J getenv → Helper → Outcome Bytes
  last_answer s h =
      final_answer J getenv tick walk regex_replace config_file perform run_tool who
        (execute_curl J getenv (perform 1) s (build_request J getenv s h.messages))

  after_tools-last_answer :
      (s : AiStrategy J getenv) (h : Helper) (answer : Bytes)
      → last_answer s h ≡ returned answer
      → after_tools J getenv tick walk regex_replace config_file perform run_tool who s (none, h)
        ≡ (
          returned (
              or_error
                (no_answer J getenv tick walk regex_replace config_file perform run_tool who)
                answer),
          add_message tick who false answer (pop_message (pop_message h)),
        )
  unfolding after_tools
  after_tools-last_answer s h answer r = rw (r, after_tools) refl

  after_tools-threw :
      (s : AiStrategy J getenv) (h : Helper) (what : Bytes)
      → last_answer s h ≡ threw what
      → after_tools J getenv tick walk regex_replace config_file perform run_tool who s (none, h)
        ≡ (threw what, h)
  unfolding after_tools
  after_tools-threw s h what r = rw (r, after_tools) refl

  after_tools-Answered :
      (s : AiStrategy J getenv) (o : Option Bytes) (reply : Bytes) (h h' : Helper)
      → after_tools J getenv tick walk regex_replace config_file perform run_tool who s (o, h)
        ≡ (returned reply, h')
      → (o ≡ none) × Answered reply h.messages h'
  unfolding after_tools add_message
  after_tools-Answered s (some what) reply h h' e = threw_not e
  after_tools-Answered s none reply h h' e = elim (Outcome-cases (last_answer s h)) [
    | inl (answer, r) ↦ (
      refl,
      (
        answer,
        pos h.clock,
        ap (λ r. r.1.messages) (sym e ∙ after_tools-last_answer s h answer r),
        returned_text (sym e ∙ after_tools-last_answer s h answer r),
      ),
    )
    | inr (what, r) ↦ threw_not (sym (after_tools-threw s h what r) ∙ e)
  ]

  abbrev equipped : AiStrategy J getenv → Bool × AiConfig → AiStrategy J getenv
  equipped = equip J getenv tick walk regex_replace config_file perform run_tool who

  with_response-after_tools :
      (s : AiStrategy J getenv) (response choice message call : J.Value) (calls : List J.Value)
      (h : Helper)
      → first_choice J getenv response ≡ some (some choice)
      → J.member (codes "message") choice ≡ some message
      → tool_calls J getenv (some message) ≡ some (call ∷ calls)
      → with_response J getenv tick walk regex_replace config_file perform run_tool who s
          (returned response)
          h
        ≡ after_tools J getenv tick walk regex_replace config_file perform run_tool who s
            (runs (call ∷ calls) (push_message (J.dump message) (pos 0) h))
  unfolding with_message
  with_response-after_tools s response choice message call calls h e3 e4 e5 =
      rw (e3, with_response)
        (rw (e4, with_message) (rw (e5, with_message) (rw (e4, with_message) refl)))

  native_chat-after_tools :
      (s : AiStrategy J getenv) (loaded : Bool × AiConfig) (question : Bytes)
      (response choice message call : J.Value) (calls : List J.Value) (h : Helper)
      → load_from_file J walk regex_replace config_file ≡ returned loaded
      → execute_curl J getenv
          (perform 0)
          (equipped s loaded)
          (build_request J getenv (equipped s loaded) (h.messages ++ (question, pos h.clock) ∷ []))
        ≡ returned response
      → first_choice J getenv response ≡ some (some choice)
      → J.member (codes "message") choice ≡ some message
      → tool_calls J getenv (some message) ≡ some (call ∷ calls)
      → native_chat J getenv tick walk regex_replace config_file perform run_tool who s question h
        ≡ after_tools J getenv tick walk regex_replace config_file perform run_tool who
            (equipped s loaded)
            (runs
              (call ∷ calls)
              (push_message (J.dump message) (pos 0) (add_message tick who true question h)))
  unfolding native_chat add_message with_message
  native_chat-after_tools s loaded question response choice message call calls h e1 e2 e3 e4 e5 =
      rw (e1, native_chat)
        (rw (e2, native_chat)
          (with_response-after_tools (equipped s loaded) response choice message call calls
            (add_message tick who true question h) e3 e4 e5))

  -- A model with tools of its own whose first response asks for one tool call and `n` more: a call that
  -- returns leaves the question, then `n` further messages, then the answer at the end of the history: the
  -- text that is returned, or an empty one where the text for a missing answer is returned.
  pub native_chat-leftover :
      (s : AiStrategy J getenv) (loaded : Bool × AiConfig) (question reply : Bytes)
      (response choice message call : J.Value) (calls : List J.Value) (h h' : Helper)
      → load_from_file J walk regex_replace config_file ≡ returned loaded
      → execute_curl J getenv
          (perform 0)
          (equip J getenv tick walk regex_replace config_file perform run_tool who s loaded)
          (build_request J getenv
            (equip J getenv tick walk regex_replace config_file perform run_tool who s loaded)
            (h.messages ++ (question, pos h.clock) ∷ []))
        ≡ returned response
      → first_choice J getenv response ≡ some (some choice)
      → J.member (codes "message") choice ≡ some message
      → tool_calls J getenv (some message) ≡ some (call ∷ calls)
      → native_chat J getenv tick walk regex_replace config_file perform run_tool who s question h
        ≡ (returned reply, h')
      → (left : List Message) × (said : Message) × (h'.messages
          ≡ h.messages ++ (question, pos h.clock) ∷ left ++ said ∷ [])
        × (length left ≡ length calls)
        × (reply
            ≡ or_error
                (no_answer J getenv tick walk regex_replace config_file perform run_tool who)
                said.0)
  unfolding add_message
  native_chat-leftover s loaded question reply response choice message call calls h h' e1 e2 e3 e4
        e5 e =
      let asked = add_message tick who true question h in
      let r = runs (call ∷ calls) (push_message (J.dump message) (pos 0) asked) in
      let (ran, said) = after_tools-Answered (equipped s loaded) r.0 reply r.1 h' (
        sym (
          native_chat-after_tools s loaded question response choice message call calls h e1 e2 e3 e4
            e5)
        ∙ e) in
      let (answer, t, m, same) = said in
      let (results, m', n) =
        run_calls-results (call ∷ calls) (push_message (J.dump message) (pos 0) asked) r.1
          (ap (λ o. (o, r.1)) ran) in
      let (left, k, n') =
        question_left h.messages results (question, pos h.clock) (J.dump message, pos 0)
          (length calls) n in
      (
        left,
        (answer, t),
        m
            ∙ ap (λ l. but_last (but_last l) ++ (answer, t) ∷ []) m'
            ∙ ap (λ l. l ++ (answer, t) ∷ []) k,
        n',
        same,
      )
