-- ===== src/Agent.antt =====
-- client_agent.go: the session API of the agent.
pub mod Effect
use repo_extension.Base.{
  ℕ, String, Bool, true, false, ◌||◌, Option, none, some, List, [], ◌∷◌, ◌++◌, ◌==◌, if◌then◌else◌,
}
use repo_extension.Base.Text.{Text, codes, is_empty}
use repo_extension.Errs.{Message, format, ◌%s◌, ◌%d◌, plain, err_downstream}
use repo_extension.Json
use repo_extension.Json.{
  Json, object, text, Items, nil, cons, Fields, end, field, str_from, slice_of, as_map, err_text,
}
use repo_extension.Effects.{
  agent, Method, get, post, delete, Piece, raw, path_escape, Prog, ret, fail, handle, ◌>>=◌,
  downstream,
}
use repo_extension.Http.{send, string_field}

abbrev agent_name : Text
agent_name = codes "agent"

abbrev agent_call : Method → List Piece → Option Fields → Prog (ℕ × Fields)
agent_call method path body = downstream agent_name (send agent method path body)

abbrev bad_reply : {A : Type 0} → String → ℕ → Fields → Prog A
bad_reply what status v =
    fail (err_downstream agent_name (plain (format what %d status %s err_text v)))

abbrev pub sessions_path : Text → List Piece → List Piece
sessions_path name rest = raw "/api/v1/sessions/" ∷ path_escape name ∷ rest

-- EnsureSession: 409 is success.
unfoldable pub ensure_session : Text → Prog Unit
ensure_session name = do
  (status, v) ← agent_call post (raw "/api/v1/sessions" ∷ []) (some (string_field "name" name end))
  if status == 200 || status == 409 then ret tt else bad_reply "create session: HTTP %d %s" status v

-- The names of a listing. The source collects them in a map, whose iteration order is not fixed:
-- here they stand in the order of the listing, and a repeated name is kept.
unfoldable pub session_names : Items → List Text
session_names nil = []
session_names (cons e rest) = elim (as_map e) [
  | none ↦ session_names rest
  | some m ↦
      if is_empty (str_from m (codes "name"))
      then session_names rest
      else str_from m (codes "name") ∷ session_names rest
]

unfoldable pub list_sessions : Prog (List Text)
unfolding session_names
list_sessions = do
  (status, v) ← agent_call get (raw "/api/v1/sessions" ∷ []) none
  if status == 200
      then ret (session_names (slice_of (Json.get v (codes "sessions"))))
      else fail (err_downstream agent_name (plain (format "list sessions: HTTP %d" %d status)))

-- The session of a reply that GetSession reads.
abbrev pub session_of : Json → Prog (Option Fields)
session_of (object s) = ret (some s)
session_of _ = fail (err_downstream agent_name (plain (format "get session: malformed response")))

-- GetSession: nil when the session is absent.
unfoldable pub get_session : Text → Prog (Option Fields)
get_session name = do
  (status, v) ← agent_call get (sessions_path name []) none
  if status == 200
      then session_of (Json.get v (codes "session"))
      else if status == 404
      then ret none
      else bad_reply "get session: HTTP %d %s" status v

abbrev optional_field : String → Text → Fields → Fields
optional_field k v fs = if is_empty v then fs else string_field k v fs

-- ForkSession: 409 is success.
unfoldable pub fork_session : Text → Text → Text → Text → Prog Unit
fork_session parent_sid name message_id preset = do
  (status, v) ← agent_call post (sessions_path parent_sid (raw "/fork" ∷ [])) (
      some (
        string_field "name" name
          (optional_field "message_id" message_id (optional_field "preset" preset end))))
  if status == 200 || status == 409 then ret tt else bad_reply "fork session: HTTP %d %s" status v

-- DeleteSession: 404 is success.
unfoldable pub delete_session : Text → Prog Unit
delete_session name = do
  (status, v) ← agent_call delete (sessions_path name []) none
  if status == 200 || status == 404 then ret tt else bad_reply "delete session: HTTP %d %s" status v
