-- ===== src/Session.antt =====
-- sessions_http.go and variables.go: sessions resolved to workspaces, rows bound, bookmarks adopted.
pub mod Resolve
pub mod Adopt
pub mod Calls
pub mod Answers
pub mod Binding
use repo_extension.Base.{
  ℕ, String, Bool, true, false, Option, none, some, List, [], ◌∷◌, ◌==◌, if◌then◌else◌,
}
use repo_extension.Base.Text.{Text, codes, is_empty}
use repo_extension.Names.{Triple, parse_session, naming_session}
use repo_extension.Errs.{Err, Message, format, ◌%s◌, plain, err_bad, err_not_found, status_of}
use repo_extension.Effects.{
  MapRow, cache, look_up, put_entry, evict_entry, set_session_variable, delete_session_variables,
  ext, Prog, ret, fail, call, handle, ◌>>=◌, ◌>>◌, downstream,
}
use repo_extension.Store.{get_row, get_row_by_session, insert_mapping, insert_managed_repo}
use repo_extension.Jjlab.{get_repo_tree}
use repo_extension.Jjlab.Tree.{repo_exists, bookmark_exists}
use repo_extension.Agent

abbrev pub postgres : Text
postgres = codes "postgres"

-- s.cache.evict(sid)
abbrev pub evict : Text → Prog Unit
evict sid = call (cache (evict_entry sid)) λ _. ret tt

abbrev pub not_named : {A : Type 0} → Text → Prog A
not_named sid = fail (
    err_bad (
      format "session '%s' does not match org:repo:bookmark naming; cannot resolve workspace"
      %s sid))

abbrev pub not_ready : {A : Type 0} → Text → Prog A
not_ready sid = fail (
    err_not_found (
      format "session '%s' workspace is not ready yet (lifecycle event in progress); retry later"
      %s sid))

abbrev pub resolve_miss : {A : Type 0} → Text → Option Triple → Prog A
resolve_miss sid none = not_named sid
resolve_miss sid (some _) = not_ready sid

unfoldable pub resolve_row : Text → Prog Triple
resolve_row sid = do
  row ← downstream postgres (get_row_by_session sid)
  elim row [
    | none ↦ resolve_miss sid (parse_session sid)
    | some r ↦
        call (cache (put_entry sid (r.org, r.repo, r.bookmark)))
          λ _. ret (r.org, r.repo, r.bookmark)
  ]

unfoldable pub resolve_session : Text → Prog Triple
unfolding resolve_row
resolve_session sid =
    call (cache (look_up sid)) λ hit. elim hit [ some triple ↦ ret triple | none ↦ resolve_row sid ]

unfoldable pub resolve_org : Text → Prog Text
resolve_org sid = do (o, r, b) ← resolve_session sid; ret o

unfoldable pub resolve_repo : Text → Prog Text
resolve_repo sid = do (o, r, b) ← resolve_session sid; ret r

unfoldable pub resolve_bookmark : Text → Prog Text
resolve_bookmark sid = do (o, r, b) ← resolve_session sid; ret b

abbrev set_variable : Text → String → Text → Prog Unit
set_variable sid name v = call (ext (set_session_variable sid name v)) λ _. ret tt

-- The errors of the resolution and of the three writes are dropped.
unfoldable pub publish_session_vars : Text → Prog Unit
publish_session_vars sid =
    handle (resolve_session sid)
      (λ (o, r, b).
        set_variable sid "org" o >> set_variable sid "repo" r >> set_variable sid "bookmark" b)
      (λ _. ret tt)

unfoldable pub clear_session_vars : Text → Prog Unit
clear_session_vars sid = call (ext (delete_session_variables sid)) λ _. ret tt

abbrev pub mapping : Text → Text → Text → Text → MapRow
mapping org repo bookmark sid = record {
  org = org;
  repo = repo;
  bookmark = bookmark;
  session_name = sid;
}

-- A unique conflict is converged, and then the repository is not recorded as managed.
unfoldable pub bind_row : Text → Text → Text → Text → Prog Unit
bind_row org repo bookmark sid =
    handle (insert_mapping (mapping org repo bookmark sid)) (λ _. insert_managed_repo org repo)
      (λ e. if status_of e == 409 then ret tt else fail e)

-- The part of adoptBookmark behind the existing row.
unfoldable pub adopt_orphan : Text → Text → Text → Prog (Text × Bool)
adopt_orphan org repo bookmark = do
  tree ← get_repo_tree
  if repo_exists tree org repo
      then if bookmark_exists tree org repo bookmark
        then (do
          Agent.ensure_session (naming_session org repo bookmark)
          insert_mapping (mapping org repo bookmark (naming_session org repo bookmark))
          ret (naming_session org repo bookmark, true))
        else fail
            (err_not_found (format "bookmark %s/%s#%s does not exist" %s org %s repo %s bookmark))
      else fail (err_not_found (format "repository %s/%s does not exist" %s org %s repo))

unfoldable pub adopt_bookmark : Text → Text → Text → Prog (Text × Bool)
unfolding adopt_orphan
adopt_bookmark org repo bookmark = do
  row ← downstream postgres (get_row org repo bookmark)
  elim row [ some r ↦ ret (r.session_name, false) | none ↦ adopt_orphan org repo bookmark ]
