-- ===== src/Http.antt =====
-- The JSON round trips that client_jj.go and client_agent.go share: `call`, `doJSON` and the methods
-- on top of it. json.Marshal and http.NewRequest fail like a transport error.
use repo_extension.Base.{ℕ, String, Option, none, some, List, ◌∷◌, leb, ◌==◌, if◌then◌else◌}
use repo_extension.Base.Text.{Text, codes}
use repo_extension.Errs.{format, ◌%v◌, ◌%d◌, plain, not_found_for_http}
use repo_extension.Json.{Fields, end, field, text}
use repo_extension.Effects.{
  Server, jjlab, Method, get, post, put, delete, Piece, raw, path_escape, HttpReply,
  transport_error, answered, garbled, http, Prog, ret, fail, call,
}

-- (status, body, err); a body that does not decode is a nil map.
abbrev pub status_and_body : HttpReply → Prog (ℕ × Fields)
status_and_body (transport_error m) = fail (plain m)
status_and_body (answered status v) = ret (status, v)
status_and_body (garbled status m) = ret (status, end)

abbrev pub send : Server → Method → List Piece → Option Fields → Prog (ℕ × Fields)
send server method path body =
    call (http server (record { method = method; path = path; body = body })) status_and_body

-- The tests of doJSON on the status. The texts that quote the request and the response are left out
-- of the messages.
abbrev pub checked : ℕ → Prog Fields → Prog Fields
checked status rest =
    if status == 404
    then fail (not_found_for_http (format "%s %s: %w"))
    else if leb 400 status
    then fail (plain (format "%s %s: HTTP %d: %s" %d status))
    else rest

abbrev pub json_reply : HttpReply → Prog Fields
json_reply (transport_error m) = fail (plain m)
json_reply (answered status v) = checked status (ret v)
json_reply (garbled status m) =
    checked status (fail (plain (format "%s %s: decode response: %w" %v m)))

-- doJSON
abbrev pub do_json : Method → List Piece → Option Fields → Prog Fields
do_json method path body =
    call (http jjlab (record { method = method; path = path; body = body })) json_reply

abbrev pub get_json : List Piece → Prog Fields
get_json path = do_json get path none

abbrev pub post_json : List Piece → Fields → Prog Fields
post_json path body = do_json post path (some body)

abbrev pub put_json : List Piece → Fields → Prog Fields
put_json path body = do_json put path (some body)

abbrev pub delete_json : List Piece → Option Fields → Prog Fields
delete_json path body = do_json delete path body

-- {"k": "v"}
abbrev pub string_field : String → Text → Fields → Fields
string_field k v fs = field (codes k) (text v) fs

-- /api/v1/repos/{org}/{repo} and what follows
abbrev pub repo_path : Text → Text → List Piece → List Piece
repo_path org repo rest = raw "/api/v1/repos/" ∷ path_escape org ∷ raw "/" ∷ path_escape repo ∷ rest
