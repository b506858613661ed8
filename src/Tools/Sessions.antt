-- ===== src/Tools/Sessions.antt =====
-- The workspace of a tool call (tools.go: sessionBase, refBase, sessionBaseXO).
use repo_extension.Base.{◌||◌, Option, none, some, if◌then◌else◌}
use repo_extension.Base.Text.{Text, is_empty}
use repo_extension.Names.{Triple, colon}
use repo_extension.Errs.{format, ◌%s◌, plain}
use repo_extension.Json.{Fields}
use repo_extension.Effects.{Prog, ret, fail, ◌>>=◌}
use repo_extension.Session.{resolve_session}
use repo_extension.Tools.{cut}
use repo_extension.Tools.Host.{Host, or_default}

abbrev bad_ref : {A : Type 0} → Text → Prog A
bad_ref ref = fail (plain (format "ref must be a full 'org:repo:<rev>' path (got %q)" %s ref))

abbrev no_session : {A : Type 0} → Prog A
no_session = fail (plain (format "missing session context (session_name)"))

-- strings.SplitN(ref, ":", 3) with three parts.
unfoldable pub ref_parts : Text → Option Triple
unfolding cut
ref_parts ref = elim (cut colon ref) [
  | none ↦ none
  | some (org, rest) ↦ elim (cut colon rest) [
    | none ↦ none
    | some (repo, rev) ↦ some (org, repo, rev)
  ]
]

unfoldable pub session_base : Text → Prog Triple
session_base session_name =
    if is_empty session_name then no_session else resolve_session session_name

-- The tests of refBase on the parts.
abbrev pub full_ref : Text → Option Triple → Prog Triple
full_ref ref none = bad_ref ref
full_ref ref (some (org, repo, rev)) =
    if is_empty org || is_empty repo || is_empty rev then bad_ref ref else ret (org, repo, rev)

module _ (host : Host) where
  unfoldable pub ref_base : Fields → Text → Prog Triple
  unfolding ref_parts session_base
  ref_base args session_name =
      let ref = host.arg_string args "ref" in
      if is_empty ref then session_base session_name else full_ref ref (ref_parts ref)

  unfoldable pub session_base_xo : Fields → Text → Prog Triple
  unfolding session_base
  session_base_xo args session_name = do
    (o, r, b) ← session_base session_name
    ret (
      or_default (host.arg_string args "org") o,
      or_default (host.arg_string args "repo") r,
      or_default (host.arg_string args "bookmark") b,
    )
