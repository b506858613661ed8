-- ===== src/Surface/Ensuring.antt =====
-- The HTTP route that adopts a bookmark, under the discipline of the mapping (sessions_http.go:
-- ensureSession).
use repo_extension.Base.Text.{Text, Lacks}
use repo_extension.Names.{colon, valid_session_component}
use repo_extension.Names.Components.{valid-Lacks}
use repo_extension.Discipline.{Keeps}
use repo_extension.Discipline.Steps.{Keeps-bind, Keeps-handle, Keeps-if}
use repo_extension.Session.{adopt_bookmark}
use repo_extension.Session.Adopt.{Adopted, adopt_bookmark-Keeps}
use repo_extension.Session.Resolve.{Spells}
use repo_extension.Surface.{Body, session_ensured, Response, ensure_bookmark_session}

-- A body that names a session names the one that is spelled by the place of the bookmark.
abbrev pub NamesSession : Text → Text → Text → Body → Type 0
NamesSession o r b (session_ensured name adopted) = Spells name (o, r, b)
NamesSession o r b _ = Unit

abbrev pub Ensured : Text → Text → Text → Response → Type 0
Ensured o r b reply = NamesSession o r b reply.body

-- The request under the discipline of the mapping.
pub ensure_bookmark_session-Keeps :
    (o r b : Text)
    → Lacks colon o
    → Lacks colon r
    → Keeps (Ensured o r b) (ensure_bookmark_session o r b)
unfolding ensure_bookmark_session
ensure_bookmark_session-Keeps o r b lo lr =
    Keeps-if (Ensured o r b) (valid_session_component b) _ _
      (λ valid.
        Keeps-handle (NamesSession o r b) (Ensured o r b) _ _ _
          (Keeps-bind (Adopted o r b) (NamesSession o r b) (adopt_bookmark o r b) _
            (adopt_bookmark-Keeps o r b lo lr (valid-Lacks b valid)) (λ v h. h))
          (λ body h. h) (λ e. tt))
      (λ _. tt)
