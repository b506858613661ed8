-- ===== src/Tools/Effect/Writers.antt =====
-- The tools that write files, and rebase (tools.go: write, delete, edit, git-resolve, git-rebase).
use repo_extension.Base.{List, [], ◌∷◌}
use repo_extension.Base.Int.{ℤ, pos}
use repo_extension.Base.Text.{Text, codes}
use repo_extension.Json
use repo_extension.Json.{
  Json, null, boolean, number, text, array, Fields, str_from, slice_of, as_map, object,
}
use repo_extension.Effects.{Prog}
use repo_extension.Session.Resolve.{Spells}
use repo_extension.Tools.{Edit, edited, bad_edit, edit_panics}
use repo_extension.Tools.Host.{Host, ToolResult, strings_of}
use repo_extension.Tools.Files.Writing.{
  write, delete, edit, resolve_conflict, commit_edit, with_edit, base_sha,
}
use repo_extension.Tools.History.Graphs.{rebase, show_rebase, show_rebased}
use repo_extension.Tools.Effect.{
  Policy, IsSafe, returns, fails, handled, either, within, ef-IsSafe, say-IsSafe, in_workspace,
}
use repo_extension.Tools.Effect.Readers.{read_file_raw-IsSafe}
use repo_extension.Tools.Effect.Requests.{Grants, commit-IsSafe, post_rebase-IsSafe}

module _ (p : Policy) (sid target : Text) (grants : Grants p sid target) (host : Host)
    (args : Fields) where
  base_sha-IsSafe : (o r b path : Text) → IsSafe p (base_sha host o r b path)
  unfolding base_sha
  base_sha-IsSafe o r b path =
      handled p _ _ _ (read_file_raw-IsSafe p host o r b path) (λ _. returns p _) (λ _. returns p _)

  pub write-IsSafe : IsSafe p (write host args sid)
  unfolding write
  write-IsSafe = in_workspace p sid _ λ (o, r, b) has. either p _ _ _ (ef-IsSafe p sid _ _) (
      within p _ _ (base_sha-IsSafe o r b (host.arg_string args "path")) λ sha.
        handled p _ _ _ (commit-IsSafe p sid target grants o r b (grants.knows _ has) _ _)
          (λ v. say-IsSafe p sid _ _ _) (λ e. ef-IsSafe p sid _ _))

  pub delete-IsSafe : IsSafe p (delete host args sid)
  unfolding delete
  delete-IsSafe = in_workspace p sid _ λ (o, r, b) has. either p _ _ _ (ef-IsSafe p sid _ _) (
      within p _ _ (base_sha-IsSafe o r b (host.arg_string args "path")) λ sha.
        handled p _ _ _ (commit-IsSafe p sid target grants o r b (grants.knows _ has) _ _)
          (λ v. say-IsSafe p sid _ _ _) (λ e. ef-IsSafe p sid _ _))

  pub resolve_conflict-IsSafe : IsSafe p (resolve_conflict host args sid)
  unfolding resolve_conflict
  resolve_conflict-IsSafe = in_workspace p sid _ λ (o, r, b) has.
      either p _ _ _ (ef-IsSafe p sid _ _) (
        within p _ _ (base_sha-IsSafe o r b (host.arg_string args "path")) λ sha.
          handled p _ _ _ (commit-IsSafe p sid target grants o r b (grants.knows _ has) _ _)
            (λ v. say-IsSafe p sid _ _ _) (λ e. ef-IsSafe p sid _ _))

  commit_edit-IsSafe :
      (o r b path : Text) (from_line to_line : ℤ) (content message old sha new : Text)
      → Spells sid (o, r, b)
      → IsSafe p (commit_edit host (o, r, b) sid path from_line to_line content message old sha new)
  unfolding commit_edit
  commit_edit-IsSafe o r b path from_line to_line content message old sha new own =
      handled p _ _ _ (commit-IsSafe p sid target grants o r b own _ _)
        (λ v. say-IsSafe p sid _ _ _) (λ e. ef-IsSafe p sid _ _)

  with_edit-IsSafe :
      (f : Text → Prog ToolResult) (e : Edit)
      → ((new : Text) → IsSafe p (f new))
      → IsSafe p (with_edit host f e)
  with_edit-IsSafe f (edited new) h = h new
  with_edit-IsSafe f (bad_edit m) h = fails p _
  with_edit-IsSafe f edit_panics h = returns p _

  pub edit-IsSafe : IsSafe p (edit host args sid)
  unfolding edit
  edit-IsSafe = in_workspace p sid _ λ (o, r, b) has. either p _ _ _ (ef-IsSafe p sid _ _) (
      handled p _ _ _ (read_file_raw-IsSafe p host o r b (host.arg_string args "path"))
        (λ (old, sha, size). with_edit-IsSafe _ _ λ new.
          commit_edit-IsSafe o r b (host.arg_string args "path")
            (host.arg_int args "start-line" (pos 0)) (host.arg_int args "end-line" (pos 0))
            (host.arg_string args "content") _ old sha new (grants.knows _ has))
        (λ e. either p _ _ _ (ef-IsSafe p sid _ _) (ef-IsSafe p sid _ _)))

  show_rebased-IsSafe :
      (source b commit_id change_id : Text) (cs : List Text)
      → IsSafe p (show_rebased sid source b commit_id change_id cs)
  show_rebased-IsSafe source b commit_id change_id [] = say-IsSafe p sid _ _ _
  show_rebased-IsSafe source b commit_id change_id (c ∷ cs) = say-IsSafe p sid _ _ _

  show_rebase-IsSafe : (source b : Text) (sum : Fields) → IsSafe p (show_rebase sid source b sum)
  unfolding show_rebase
  show_rebase-IsSafe source b sum =
      show_rebased-IsSafe source b (str_from sum (codes "commit_id"))
        (str_from sum (codes "change_id"))
        (strings_of (slice_of (Json.get sum (codes "conflicts"))))

  pub rebase-IsSafe : IsSafe p (rebase host args sid)
  unfolding rebase
  rebase-IsSafe = in_workspace p sid _ λ (o, r, b) has. either p _ _ _ (ef-IsSafe p sid _ _) (
      handled p _ _ _ (post_rebase-IsSafe p sid target grants o r b (grants.knows _ has) _)
        (λ v. show_rebase-IsSafe _ _ _) (λ e. ef-IsSafe p sid _ _))
