-- ===== src/Tools/Files/Writing.antt =====
-- The tools write, delete, edit and git-resolve (tools.go).
use repo_extension.Base.{String, [], ◌++◌, if◌then◌else◌}
use repo_extension.Base.Int.{ℤ, pos, less}
use repo_extension.Base.Text.{Text, codes, is_empty}
use repo_extension.Base.Lists.{length}
use repo_extension.Errs.{Message, format, ◌%s◌, ◌%v◌, ◌%d◌, ◌%int64◌, plain, message_of}
use repo_extension.Json.{object, Items, nil, cons, Fields, end, str_from}
use repo_extension.Effects.{Prog, ret, fail, handle, ◌>>=◌}
use repo_extension.Http.{string_field}
use repo_extension.Jjlab.MergeRequests.{commit}
use repo_extension.I18n.{ef}
use repo_extension.Tools.{
  content_lines, Edit, edited, bad_edit, edit_panics, apply_line_edit, diff_lines,
}
use repo_extension.Tools.Host.{
  Host, string, count, patch, list, no_values, no_entries, ◌=>◌⨾◌, ToolResult, tool_panics, say,
  is_not_found, or_default, short_id,
}
use repo_extension.Tools.Sessions.{session_base}
use repo_extension.Tools.Files.{missing_path, read_file_raw}

-- One action of a commit.
abbrev pub action_of : String → Text → Fields → Items
action_of action path rest =
    cons (object (string_field "action" (codes action) (string_field "path" path rest))) nil

module _ (host : Host) where
  -- The sha that a write is based on: "" when the file cannot be read.
  unfoldable pub base_sha : Text → Text → Text → Text → Prog Text
  unfolding read_file_raw
  base_sha o r b path =
      handle (read_file_raw host o r b path) (λ (_, sha, _). ret sha) (λ _. ret [])

  unfoldable pub update_action : Text → Text → Text → Items
  update_action path content sha =
      action_of "update" path
        (string_field "content_base64" (host.encode_base64 content) (string_field "sha" sha end))

  -- The tail of write and delete.
  abbrev changed : Text → Text → Text → Message → Message → Fields → Prog ToolResult
  changed session_name path sha en zh v =
      say session_name (en %s path %s short_id (str_from v (codes "change_id")))
        (zh %s path %s short_id (str_from v (codes "change_id")))
        ("path"
          => string path ⨾ "change_id"
          => string (str_from v (codes "change_id")) ⨾ "base_sha"
          => string sha ⨾ no_entries)

  unfoldable pub write : Fields → Text → Prog ToolResult
  unfolding session_base base_sha update_action short_id
  write args session_name = do
    (o, r, b) ← session_base session_name
    let path = host.arg_string args "path"
    if is_empty path then missing_path session_name else do
      let message = or_default (host.arg_string args "message") (codes "write " ++ path)
      sha ← base_sha o r b path
      handle (commit o r b message (update_action path (host.arg_string args "content") sha))
          (changed session_name path sha (format "wrote file '%s' (change %s)")
            (format "已写入文件 '%s'（变更 %s）"))
          (λ e.
            ef session_name (format "failed to write file: %v" %v message_of e)
              (format "写入文件失败：%v" %v message_of e))

  unfoldable pub delete : Fields → Text → Prog ToolResult
  unfolding session_base base_sha short_id
  delete args session_name = do
    (o, r, b) ← session_base session_name
    let path = host.arg_string args "path"
    if is_empty path then missing_path session_name else do
      let message = or_default (host.arg_string args "message") (codes "delete " ++ path)
      sha ← base_sha o r b path
      handle (commit o r b message (action_of "delete" path (string_field "sha" sha end)))
          (changed session_name path sha (format "deleted file '%s' (change %s)")
            (format "已删除文件 '%s'（变更 %s）"))
          (λ e.
            ef session_name (format "failed to delete file: %v" %v message_of e)
              (format "删除文件失败：%v" %v message_of e))

  unfoldable pub resolve_conflict : Fields → Text → Prog ToolResult
  unfolding session_base base_sha update_action short_id
  resolve_conflict args session_name = do
    (o, r, b) ← session_base session_name
    let path = host.arg_string args "path"
    if is_empty path then missing_path session_name else do
      sha ← base_sha o r b path
      handle
          (commit o r b (codes "resolve " ++ path)
            (update_action path (host.arg_string args "content") sha))
          (λ v.
            let commit_id = str_from v (codes "sha") in
            let change_id = str_from v (codes "change_id") in
            say session_name
              (format "resolved '%s' (tip %s, change %s)."
                %s path
                %s short_id commit_id
                %s short_id change_id)
              (format "已解析 '%s'（尖端 %s，变更 %s）。" %s path %s short_id commit_id %s short_id change_id)
              ("commit_id"
                => string commit_id ⨾ "change_id"
                => string change_id ⨾ "conflicts"
                => list no_values ⨾ no_entries))
          (λ e.
            ef session_name (format "resolve failed: %v" %v message_of e)
              (format "解析失败：%v" %v message_of e))

  -- The arguments stand in the order of the source: the line before the count.
  unfoldable pub edit_desc : ℤ → ℤ → Text → Message
  edit_desc start_line end_line content =
      if less end_line start_line
      then format "inserted %d line(s) before line %d"
        %int64 start_line
        %d length (content_lines content)
      else format "replaced lines %d-%d" %int64 start_line %int64 end_line

  -- The write of an edit, based on the sha that was read.
  unfoldable pub commit_edit :
      Text × Text × Text → Text → Text → ℤ → ℤ → Text → Text → Text → Text → Text → Prog ToolResult
  unfolding update_action edit_desc short_id
  commit_edit (o, r, b) session_name path start_line end_line content message old sha new =
      handle (commit o r b message (update_action path new sha))
        (λ v.
          let change_id = str_from v (codes "change_id") in
          let desc = edit_desc start_line end_line content in
          say session_name
            (format "edited file '%s': %s (change %s)" %s path %v desc %s short_id change_id)
            (format "已编辑文件 '%s'：%s（变更 %s）" %s path %v desc %s short_id change_id)
            ("path"
              => string path ⨾ "start-line"
              => count start_line ⨾ "end-line"
              => count end_line ⨾ "old_sha"
              => string sha ⨾ "change_id"
              => string change_id ⨾ "diff"
              => patch (diff_lines old new) ⨾ no_entries))
        (λ e.
          ef session_name (format "failed to write edited result: %v" %v message_of e)
            (format "写入编辑结果失败：%v" %v message_of e))

  -- What edit does with the edited text.
  abbrev pub with_edit : (Text → Prog ToolResult) → Edit → Prog ToolResult
  with_edit f (edited new) = f new
  with_edit f (bad_edit m) = fail (plain m)
  with_edit f edit_panics = ret tool_panics

  unfoldable pub edit : Fields → Text → Prog ToolResult
  unfolding session_base read_file_raw commit_edit apply_line_edit
  edit args session_name = do
    (o, r, b) ← session_base session_name
    let path = host.arg_string args "path"
    let start_line = host.arg_int args "start-line" (pos 0)
    let end_line = host.arg_int args "end-line" (pos 0)
    let content = host.arg_string args "content"
    let message = or_default (host.arg_string args "message") (codes "edit " ++ path)
    if is_empty path
        then missing_path session_name
        else handle (read_file_raw host o r b path)
            (λ (old, sha, _).
              with_edit
                (λ new.
                  commit_edit (o, r, b) session_name path start_line end_line content message old
                    sha new)
                (apply_line_edit old start_line end_line content))
            (λ e.
              if is_not_found e
              then ef session_name
                  (format "failed to read file '%s': not found or inaccessible" %s path)
                  (format "读取文件 '%s' 失败：未找到或不可访问" %s path)
              else ef session_name (format "read '%s' before edit: %v" %s path %v message_of e)
                  (format "编辑前读取 '%s'：%v" %s path %v message_of e))
