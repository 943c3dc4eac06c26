-- ===== src/Chat/Handlers/Streaming/Ends.antt =====
-- What a stream leaves in the history: ChatStreamHandler.cpp and its thread.
use miniaibrowse_cpp.Common.{
  ℕ, ◌≡◌, inl, inr, refl, sym, ap, subst, ◌∙◌, Bool, true, false, List, [], ◌∷◌, ◌++◌, append_assoc,
  Option, none, some, Bytes, bytes_key, ℕ_key, pos,
}
use miniaibrowse_cpp.Http.Response.{HttpResponse, Effect, send, shutdown}
use miniaibrowse_cpp.Chat.Accounts.{Outcome, Outcome-cases, returned, threw}
use miniaibrowse_cpp.Chat.Deletion.{ServerState}
use miniaibrowse_cpp.Chat.Json.{JsonLibrary}
use miniaibrowse_cpp.Chat.Sse.{
  run_stream, on_chunks, all_chunks, stream_lines, succeeded, error_frame, done_frame,
}
use miniaibrowse_cpp.Chat.Strategy.{AiStrategy, create, parse_response_streaming}
use miniaibrowse_cpp.Chat.Helper.{Speaker, add_message}
use miniaibrowse_cpp.Chat.Curl.{HttpPost}
use miniaibrowse_cpp.Chat.Handlers.{messages_of, messages_of-put_messages}
use miniaibrowse_cpp.Chat.Handlers.Talk.{Question}
use miniaibrowse_cpp.Chat.Handlers.Streaming.{
  placeholder, add_to, Started, execute_curl_stream, stream_thread, begin_stream,
}

messages_of-add_to :
    {Rng : Type 0} (tick : ℕ → ℕ) (who : Speaker) (is_user : Bool) (content : Bytes)
    (st : ServerState Rng × ℕ)
    → messages_of who.user_id who.session_id (add_to tick who is_user content st).0.chats
      ≡ messages_of who.user_id who.session_id st.0.chats ++ (content, pos st.1) ∷ []
unfolding add_to add_message
messages_of-add_to tick who is_user content st =
    messages_of-put_messages who.user_id who.session_id _ st.0.chats

-- Whatever a transfer brought and however it ended, the end of the stream is sent and the connection closed.
abbrev pub Ends : List Effect → Type 0
Ends effects = (sent : List Effect) × (effects ≡ sent ++ send done_frame ∷ shutdown ∷ [])

run_stream-Ends :
    (parse : Bytes → List (Bytes × Bytes)) (p : Bytes) (failure : Option Bytes)
    (pieces : List Bytes)
    → Ends (run_stream parse p failure pieces).1
unfolding run_stream
run_stream-Ends parse p failure pieces =
    let sent = (on_chunks [] (all_chunks parse (stream_lines (succeeded failure) pieces))).1 in
    (
      sent ++ error_frame failure,
      sym (append_assoc sent (error_frame failure) (send done_frame ∷ shutdown ∷ [])),
    )

one_speaker : {C : Type 0} → {w : Speaker} → some w ≡ none → C
one_speaker e = cc

same_speaker : (w v : Speaker) → some w ≡ some v → w ≡ v
same_speaker w v e = cc

module _ (J : JsonLibrary) (getenv : Bytes → Option Bytes) where
  abbrev speaker_of :
      Outcome (HttpResponse × List Effect × Option (Started J getenv)) → Option Speaker
  speaker_of (threw what) = none
  speaker_of (returned (resp, effects, none)) = none
  speaker_of (returned (resp, effects, some started)) = some started.who

module _ (J : JsonLibrary) (getenv : Bytes → Option Bytes) (tick : ℕ → ℕ)
    (transfer : HttpPost → Option Bytes × List Bytes) {Rng : Type 0} where
  stream_thread-messages :
      (started : Started J getenv) (st : ServerState Rng × ℕ)
      → (reply : Bytes) × (messages_of started.who.user_id started.who.session_id
            (stream_thread J getenv tick transfer started st).1.0.chats
          ≡ messages_of started.who.user_id started.who.session_id st.0.chats
            ++ (reply, pos st.1) ∷ [])
  unfolding stream_thread
  stream_thread-messages started st = (
    (run_stream (parse_response_streaming J getenv) placeholder
        (execute_curl_stream J getenv transfer started.strategy started.payload).0
        (execute_curl_stream J getenv transfer started.strategy started.payload).1).0,
    messages_of-add_to tick started.who false _ st,
  )

  stream_thread-Ends :
      (started : Started J getenv) (st : ServerState Rng × ℕ)
      → Ends (stream_thread J getenv tick transfer started st).0
  unfolding stream_thread
  stream_thread-Ends started st =
      run_stream-Ends (parse_response_streaming J getenv) placeholder
        (execute_curl_stream J getenv transfer started.strategy started.payload).0
        (execute_curl_stream J getenv transfer started.strategy started.payload).1

  abbrev begun :
      Speaker
      → Bool
      → Question
      → HttpResponse
      → ServerState Rng × ℕ
      → Outcome (HttpResponse × List Effect × Option (Started J getenv)) × (ServerState Rng × ℕ)
  begun = begin_stream J getenv tick transfer

  begin_stream-create :
      (who : Speaker) (is_new : Bool) (q : Question) (resp : HttpResponse)
      (st : ServerState Rng × ℕ) (s : AiStrategy J getenv)
      → create J getenv q.model_type ≡ returned s
      → (speaker_of J getenv (begun who is_new q resp st).0 ≡ some who)
        × ((begun who is_new q resp st).1 ≡ add_to tick who true q.user_question st)
  unfolding begin_stream
  begin_stream-create who is_new q resp st s made =
      (rw (made, begin_stream) refl, rw (made, begin_stream) refl)

  begin_stream-threw :
      (who : Speaker) (is_new : Bool) (q : Question) (resp : HttpResponse)
      (st : ServerState Rng × ℕ) (what : Bytes)
      → create J getenv q.model_type ≡ threw what
      → speaker_of J getenv (begun who is_new q resp st).0 ≡ none
  unfolding begin_stream
  begin_stream-threw who is_new q resp st what made = rw (made, begin_stream) refl

  -- A stream that was begun is its speaker's, and the question is in the history.
  begin_stream-asked :
      (who : Speaker) (is_new : Bool) (q : Question) (resp resp' : HttpResponse)
      (st st1 : ServerState Rng × ℕ) (effects : List Effect) (started : Started J getenv)
      → begun who is_new q resp st ≡ (returned (resp', effects, some started), st1)
      → (started.who ≡ who) × (st1 ≡ add_to tick who true q.user_question st)
  begin_stream-asked who is_new q resp resp' st st1 effects started e =
      elim (Outcome-cases (create J getenv q.model_type)) [
        | inl (s, made) ↦
            let (mine, asked) = begin_stream-create who is_new q resp st s made in
            (
              same_speaker started.who who (sym (ap (λ r. speaker_of J getenv r.0) e) ∙ mine),
              sym (ap (λ r. r.1) e) ∙ asked,
            )
        | inr (what, made) ↦ one_speaker (
            sym (ap (λ r. speaker_of J getenv r.0) e)
            ∙ begin_stream-threw who is_new q resp st what made)
      ]

  -- A question that is streamed leaves exactly itself and one reply in the history of its session, in this
  -- order, whether the transfer succeeded, failed at once or broke off, once the thread is done and if no other
  -- request used the session in between; and the last that the thread does is to send the end of the stream
  -- and to close the connection.
  pub stream_thread-begin_stream :
      (who : Speaker) (is_new : Bool) (q : Question) (resp resp' : HttpResponse)
      (st st1 st2 : ServerState Rng × ℕ) (effects : List Effect) (started : Started J getenv)
      → begin_stream J getenv tick transfer who is_new q resp st
        ≡ (returned (resp', effects, some started), st1)
      → messages_of who.user_id who.session_id st2.0.chats
        ≡ messages_of who.user_id who.session_id st1.0.chats
      → (reply : Bytes) × (messages_of who.user_id who.session_id
            (stream_thread J getenv tick transfer started st2).1.0.chats
          ≡ messages_of who.user_id who.session_id st.0.chats
            ++ (q.user_question, pos st.1) ∷ (reply, pos st2.1) ∷ [])
        × Ends (stream_thread J getenv tick transfer started st2).0
  stream_thread-begin_stream who is_new q resp resp' st st1 st2 effects started e between =
      let (mine, asked) = begin_stream-asked who is_new q resp resp' st st1 effects started e in
      let (reply, m) = stream_thread-messages started st2 in
      let later = (stream_thread J getenv tick transfer started st2).1.0.chats in
      (
        reply,
        subst
              (λ (w : Speaker).
                messages_of w.user_id w.session_id later
                ≡ messages_of w.user_id w.session_id st2.0.chats ++ (reply, pos st2.1) ∷ [])
              mine m
            ∙ ap (λ l. l ++ (reply, pos st2.1) ∷ [])
                (between
                  ∙ ap
                      (λ (x : ServerState Rng × ℕ).
                        messages_of who.user_id who.session_id x.0.chats)
                      asked
                  ∙ messages_of-add_to tick who true q.user_question st)
            ∙ append_assoc (messages_of who.user_id who.session_id st.0.chats)
                ((q.user_question, pos st.1) ∷ []) ((reply, pos st2.1) ∷ []),
        stream_thread-Ends started st2,
      )
