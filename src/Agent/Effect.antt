-- ===== src/Agent/Effect.antt =====
-- What the operations of client_agent.go ask of the agent.
use repo_extension.Base.{ℕ, Option, none, some, List, [], ◌∷◌, ◌==◌, ◌||◌}
use repo_extension.Base.Text.{Text}
use repo_extension.Json.{Fields, end}
use repo_extension.Effects.{
  Eff, Answer, http, agent, Method, get, post, delete, Piece, raw, Prog, ◌>>=◌,
}
use repo_extension.Effects.Sound.{Sound, Sound-bind, Sound-downstream, Sound-if}
use repo_extension.Http.{send, string_field}
use repo_extension.Jjlab.Effect.{request, Any, send-Sound}
use repo_extension.Agent.{
  agent_name, agent_call, ensure_session, list_sessions, fork_session, delete_session,
}

module _ (Allowed : Eff → Type 0) (Rely : (e : Eff) → Answer e → Type 0) where
  call_then :
      {A : Type 0} (method : Method) (path : List Piece) (body : Option Fields)
      (f : ℕ × Fields → Prog A)
      → Allowed (http agent (request method path body))
      → ((a : ℕ × Fields) → Sound Allowed Rely Any (f a))
      → Sound Allowed Rely Any (agent_call method path body >>= f)
  call_then method path body f h hf =
      Sound-bind Allowed Rely Any Any (agent_call method path body) f
        (Sound-downstream Allowed Rely Any agent_name (send agent method path body)
          (send-Sound Allowed Rely agent method path body h))
        (λ a _. hf a)

  pub list_sessions-Sound :
      ((path : List Piece) → Allowed (http agent (request get path none)))
      → Sound Allowed Rely Any list_sessions
  unfolding list_sessions
  list_sessions-Sound reads =
      call_then get _ none _ (reads _)
        λ (status, v). Sound-if Allowed Rely Any (status == 200) _ _ (λ _. tt) (λ _. tt)

  pub ensure_session-Sound :
      (name : Text)
      → Allowed (
          http agent
            (request post (raw "/api/v1/sessions" ∷ []) (some (string_field "name" name end))))
      → Sound Allowed Rely Any (ensure_session name)
  unfolding ensure_session
  ensure_session-Sound name opens = call_then post _ _ _ opens λ (status, v).
      Sound-if Allowed Rely Any (status == 200 || status == 409) _ _ (λ _. tt) (λ _. tt)

  module _
      (writes : (method : Method) (path : List Piece) (body : Option Fields)
        → Allowed (http agent (request method path body))) where
    pub fork_session-Sound :
        (parent name message_id preset : Text)
        → Sound Allowed Rely Any (fork_session parent name message_id preset)
    unfolding fork_session
    fork_session-Sound parent name message_id preset =
        call_then post _ _ _ (writes post _ _) λ (status, v).
          Sound-if Allowed Rely Any (status == 200 || status == 409) _ _ (λ _. tt) (λ _. tt)

    pub delete_session-Sound : (name : Text) → Sound Allowed Rely Any (delete_session name)
    unfolding delete_session
    delete_session-Sound name = call_then delete _ none _ (writes delete _ _) λ (status, v).
        Sound-if Allowed Rely Any (status == 200 || status == 404) _ _ (λ _. tt) (λ _. tt)
