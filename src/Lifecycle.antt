-- ===== src/Lifecycle.antt =====
-- events_sub.go: the agent's lifecycle events, mirrored into bookmarks and mapping rows.
pub mod Keeping
pub mod Binding
pub mod Growing
pub mod Redelivery
pub mod Repetition
pub mod Removal
pub mod Renaming
use repo_extension.Base.{
  ℕ, String, Bool, true, false, not, ◌||◌, Option, none, some, List, [], ◌∷◌, ◌==◌, if◌then◌else◌,
}
use repo_extension.Base.Text.{Text, codes, text_eq, is_empty}
use repo_extension.Names.{Triple, parse_session}
use repo_extension.Errs.{Err, Message, format, ◌%s◌, err_bad, err_downstream, status_of}
use repo_extension.Effects.{MapRow, Prog, ret, fail, call, handle, ◌>>=◌, ◌>>◌, downstream}
use repo_extension.Store.{get_row, get_row_by_session, rename_mapping, delete_mapping}
use repo_extension.Jjlab.{ensure_repo, ensure_bookmark, delete_bookmark, can_resolve}
use repo_extension.Session.{postgres, evict, bind_row, publish_session_vars, clear_session_vars}

-- LifecycleEvent of the SDK: the name, and the optional fields.
pub record LifecycleEvent : Type 0 where
  pub session_name : Text
  pub parent : Option Text
  pub source : Option Text
  pub destination : Option Text

abbrev pub strp : Option Text → Text
strp none = []
strp (some s) = s

abbrev pub ignoring : {A : Type 0} → String → Text → Prog A
ignoring what sid = fail (err_bad (format what %s sid))

-- `main`, or the head of the repository.
unfoldable pub ensure_bookmark_anchored : Text → Text → Text → Prog Unit
ensure_bookmark_anchored org repo bm = do
  resolves ← can_resolve org repo (codes "main")
  ensure_bookmark org repo (if resolves then codes "main" else []) bm

unfoldable pub create_workspace : Text → Text → Text → Text → Prog Unit
unfolding ensure_bookmark_anchored
create_workspace org repo bm sid = do
  ensure_repo org repo
  ensure_bookmark_anchored org repo bm
  bind_row org repo bm sid

unfoldable pub ensure_created : Text → Text → Text → Text → Prog Unit
unfolding create_workspace
ensure_created org repo bm sid = do
  row ← downstream postgres (get_row_by_session sid)
  elim row [ some _ ↦ ret tt | none ↦ create_workspace org repo bm sid ]

-- The parent's bookmark, materialized when it has no row; `main` for a parent with no derived name.
unfoldable pub parent_bookmark : Text → Text → Text → Prog Text
parent_bookmark org repo parent_sid = elim (parse_session parent_sid) [
  | none ↦ ret (codes "main")
  | some (p_org, p_repo, p_bm) ↦
      if not (text_eq p_org org) || not (text_eq p_repo repo)
      then fail (
          err_bad (
            format "fork across repositories (%s → %s/%s) — unsupported"
            %s parent_sid
            %s org
            %s repo))
      else do
        prow ← downstream postgres (get_row org repo p_bm)
        elim prow [ some _ ↦ ret p_bm | none ↦ ensure_created org repo p_bm parent_sid >> ret p_bm ]
]

unfoldable pub fork_workspace : Text → Text → Text → Text → Text → Prog Unit
unfolding parent_bookmark
fork_workspace org repo bm sid parent_sid = do
  parent_bm ← parent_bookmark org repo parent_sid
  ensure_bookmark org repo parent_bm bm
  bind_row org repo bm sid

unfoldable pub ensure_forked : Text → Text → Text → Text → Text → Prog Unit
unfolding fork_workspace
ensure_forked org repo bm sid parent_sid = do
  row ← downstream postgres (get_row_by_session sid)
  elim row [ some _ ↦ ret tt | none ↦ fork_workspace org repo bm sid parent_sid ]

-- The row moves, then the old bookmark goes; a conflict ends with success.
unfoldable pub move_row : Text → Text → Text → Text → Text → Text → Prog Unit
move_row org repo from_bm to_bm from_sid to_sid =
    handle (rename_mapping org repo from_bm to_bm to_sid)
      (λ _. evict from_sid >> delete_bookmark org repo from_bm)
      (λ e. if status_of e == 409 then ret tt else fail (err_downstream postgres e))

-- A rename within one repository; an old name without a row is a plain creation.
unfoldable pub rename_in_repo : Triple → Triple → Text → Text → Prog Unit
unfolding move_row
rename_in_repo (from_org, from_repo, from_bm) (to_org, to_repo, to_bm) from_sid to_sid = do
  row ← downstream postgres (get_row from_org from_repo from_bm)
  elim row [
    | none ↦ ensure_created to_org to_repo to_bm to_sid
    | some _ ↦
        ensure_bookmark from_org from_repo from_bm to_bm
        >> move_row from_org from_repo from_bm to_bm from_sid to_sid
  ]

unfoldable pub rename_workspace : Triple → Triple → Text → Text → Prog Unit
unfolding rename_in_repo
rename_workspace source dest from_sid to_sid =
    if not (text_eq source.0 dest.0) || not (text_eq source.1 dest.1)
    then fail (
        err_bad (format "rename across repositories (%s → %s) — unsupported" %s from_sid %s to_sid))
    else rename_in_repo source dest from_sid to_sid

unfoldable pub ensure_renamed : Text → Text → Prog Unit
unfolding rename_workspace
ensure_renamed from_sid to_sid = elim (parse_session from_sid) [
  | none ↦ ignoring "session %q does not match naming — ignoring rename" from_sid
  | some source ↦ elim (parse_session to_sid) [
    | none ↦ ignoring "session %q does not match naming — ignoring rename" to_sid
    | some destination ↦ rename_workspace source destination from_sid to_sid
  ]
]

-- Bookmark first, then the row.
unfoldable pub delete_workspace : Triple → Text → Prog Unit
delete_workspace (org, repo, bm) sid = do
  row ← downstream postgres (get_row_by_session sid)
  elim row [
    | none ↦ ret tt
    | some _ ↦
        delete_bookmark org repo bm >> downstream postgres (delete_mapping org repo bm) >> evict sid
  ]

unfoldable pub ensure_deleted : Text → Prog Unit
unfolding delete_workspace
ensure_deleted sid = elim (parse_session sid) [
  | none ↦ ignoring "session %q does not match naming — ignoring delete" sid
  | some triple ↦ delete_workspace triple sid
]

-- The switch of handleLifecycleEvent.
unfoldable pub mirror : Text → LifecycleEvent → Prog Unit
mirror event env =
    if text_eq event (codes "created")
    then elim (parse_session env.session_name) [
      | none ↦
          ignoring "session %q does not match org:repo:bookmark naming — ignoring" env.session_name
      | some (org, repo, bm) ↦ ensure_created org repo bm env.session_name
    ]
    else if text_eq event (codes "forked")
    then elim (parse_session env.session_name) [
      | none ↦
          ignoring "session %q does not match org:repo:bookmark naming — ignoring" env.session_name
      | some (org, repo, bm) ↦ ensure_forked org repo bm env.session_name (strp env.parent)
    ]
    else if text_eq event (codes "renamed")
    then ensure_renamed (strp env.source) (strp env.destination)
    else if text_eq event (codes "deleted")
    then ensure_deleted env.session_name
    else ignoring "unknown lifecycle event %q — ignoring" event

-- The session whose variables are projected.
unfoldable pub projected : Text → LifecycleEvent → Text
projected event env =
    if text_eq event (codes "forked") || text_eq event (codes "renamed")
    then if is_empty (strp env.destination) then env.session_name else strp env.destination
    else env.session_name

unfoldable pub handle_lifecycle_event : Text → LifecycleEvent → Prog Unit
unfolding mirror projected
handle_lifecycle_event event env = do
  mirror event env
  if text_eq event (codes "deleted")
      then clear_session_vars env.session_name
      else publish_session_vars (projected event env)
