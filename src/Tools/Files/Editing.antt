-- ===== src/Tools/Files/Editing.antt =====
-- The optimistic lock of edit (tools.go: edit and applyLineEdit).
use repo_extension.Base.{◌≡◌, refl, Option, none, some, List, leb, ◌==◌}
use repo_extension.Base.Int.{pos}
use repo_extension.Base.Text.{Text, is_empty}
use repo_extension.Errs.{format, plain, ◌%v◌}
use repo_extension.Json.{Items, Fields}
use repo_extension.Effects.{Piece, transport_error, answered, garbled, Prog}
use repo_extension.Effects.Follows.{Follows-handle, Follows-if}
use repo_extension.Jjlab.MergeRequests.{commit}
use repo_extension.I18n.{lc}
use repo_extension.Tools.{edited, bad_edit, edit_panics, Edit, apply_line_edit}
use repo_extension.Tools.Host.{Host, ToolResult, is_not_found}
use repo_extension.Tools.Sessions.{session_base}
use repo_extension.Tools.Files.{contents_path, read_file_raw, missing_path}
use repo_extension.Tools.Files.Writing.{update_action, commit_edit, with_edit, edit}
use repo_extension.Tools.Files.Locking.{
  Seen, AnySeen, commit_request, IsLocked, AllowedEdit, seen_next, Locks, WasRead, then-Locks,
  lc-Locks, ef-Locks, session_base-Locks, garbled-Locks, read-Locks,
}

module _ (host : Host) (args : Fields) where
  -- A commit is a single request.
  commit-Locks :
      (o r b message : Text) (actions : Items) (s : Seen)
      → IsLocked host args s (commit_request o r b message actions)
      → Locks host args AnySeen (commit o r b message actions) s
  unfolding commit
  commit-Locks o r b message actions s h = (
    h,
    elim [
      | transport_error m ↦ tt
      | answered status v ↦
          Follows-if (AllowedEdit host args) (seen_next host args) AnySeen (status == 404) _ _ none
            (λ _. tt)
            λ _.
              Follows-if (AllowedEdit host args) (seen_next host args) AnySeen (leb 400 status) _ _
                none (λ _. tt) (λ _. tt)
      | garbled status m ↦
          garbled-Locks host args AnySeen status (plain (format "%s %s: decode response: %w" %v m))
            none
    ],
  )

  edited-Locks :
      (o r b sid message old sha new : Text) (s : Option (List Piece × Text × Text))
      → s ≡ some (contents_path o r b (host.arg_string args "path"), old, sha)
      → apply_line_edit old
          (host.arg_int args "start-line" (pos 0))
          (host.arg_int args "end-line" (pos 0))
          (host.arg_string args "content")
        ≡ edited new
      → Locks host args AnySeen
          (commit_edit host
            (o, r, b)
            sid
            (host.arg_string args "path")
            (host.arg_int args "start-line" (pos 0))
            (host.arg_int args "end-line" (pos 0))
            (host.arg_string args "content")
            message
            old
            sha
            new)
          s
  unfolding commit_edit
  edited-Locks o r b sid message old sha new s e k =
      Follows-handle (AllowedEdit host args) (seen_next host args) AnySeen AnySeen
        (commit o r b message (update_action host (host.arg_string args "path") new sha)) _ _ s
        (commit-Locks o r b message (update_action host (host.arg_string args "path") new sha) s
          (record {
            place = (o, r, b);
            message = message;
            old = old;
            sha = sha;
            new = new;
            was_read = e;
            was_edited = k;
            writes = refl;
          }))
        (λ v t _.
          then-Locks host args AnySeen (lc sid _ _) _ t (lc-Locks host args sid _ _ t) (λ _ _. tt))
        (λ x t. ef-Locks host args ToolResult sid _ _ t)

  with_edit-Locks :
      (f : Text → Prog ToolResult) (x : Edit) (s : Seen)
      → ((new : Text) → x ≡ edited new → Locks host args AnySeen (f new) s)
      → Locks host args AnySeen (with_edit host f x) s
  with_edit-Locks f (edited new) s h = h new refl
  with_edit-Locks f (bad_edit m) s h = tt
  with_edit-Locks f edit_panics s h = tt

  -- Whatever the services, the database and the SDK answer, edit writes no row, asks the agent for
  -- nothing, and sends jjlab GETs and at most one commit for each of them. The commit replaces the
  -- file that the GET was for, in its repository and on its bookmark, by the edit of the text that
  -- it answered, and carries the sha of the same answer.
  pub edit-Locked :
      (session_name : Text) → Locks host args AnySeen (edit host args session_name) none
  unfolding edit missing_path
  edit-Locked session_name =
      then-Locks host args AnySeen (session_base session_name) _ none
        (session_base-Locks host args session_name none)
        λ (o, r, b) t.
          Follows-if (AllowedEdit host args) (seen_next host args) AnySeen
            (is_empty (host.arg_string args "path")) _ _ t
            (λ _. ef-Locks host args ToolResult session_name _ _ t)
            λ _.
              Follows-handle (AllowedEdit host args) (seen_next host args)
                (WasRead host args (contents_path o r b (host.arg_string args "path"))) AnySeen
                (read_file_raw host o r b (host.arg_string args "path")) _ _ t
                (read-Locks host args o r b (host.arg_string args "path") t)
                (λ (old, sha, size) u e.
                  with_edit-Locks _ _ u
                    (λ new k. edited-Locks o r b session_name _ old sha new u e k))
                (λ x u.
                  Follows-if (AllowedEdit host args) (seen_next host args) AnySeen (is_not_found x)
                    _ _ u (λ _. ef-Locks host args ToolResult session_name _ _ u)
                    (λ _. ef-Locks host args ToolResult session_name _ _ u))
