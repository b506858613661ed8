-- ===== src/Tools/Bookmarks.antt =====
-- The tools fork-bookmark and delete-bookmark, which propose worksheets (tools.go).
use repo_extension.Base.{String, none, some, [], if◌then◌else◌}
use repo_extension.Base.Text.{Text, codes, is_empty, text_eq}
use repo_extension.Names.{Triple, naming_session}
use repo_extension.Errs.{Message, format, ◌%s◌, ◌%v◌, message_of}
use repo_extension.Json.{Fields, end, str_from}
use repo_extension.Effects.{Prog, ret, handle, ◌>>=◌}
use repo_extension.Http.{string_field}
use repo_extension.I18n.{ef}
use repo_extension.Agent.{get_session}
use repo_extension.Jjlab.{get_repo_tree}
use repo_extension.Jjlab.Tree.{bookmark_exists}
use repo_extension.Jjlab.MergeRequests.{get_bookmark_head}
use repo_extension.Worksheets.{publish_worksheet}
use repo_extension.Tools.Host.{Host, string, no_entries, ◌=>◌⨾◌, ToolResult, say}
use repo_extension.Tools.Sessions.{session_base}

-- The tip of the session's chat, "" where it is not known.
unfoldable pub fork_tip : Text → Prog Text
fork_tip session_name =
    handle (get_session session_name)
      (elim [ none ↦ ret [] | some sess ↦ ret (str_from sess (codes "tip_id")) ]) (λ _. ret [])

abbrev proposed : Text → String → Text → Message → Message → Prog ToolResult
proposed session_name action bookmark en zh =
    say session_name (en %s bookmark) (zh %s bookmark)
      ("worksheet" => string (codes action) ⨾ "bookmark" => string bookmark ⨾ no_entries)

abbrev not_published : Text → Message → Prog ToolResult
not_published session_name e =
    ef session_name (format "failed to publish worksheet: %v" %v e) (format "发布工单失败：%v" %v e)

-- The arguments of the worksheets.
abbrev pub fork_args : Text → Text → Text → Text → Text → Fields
fork_args bookmark quest parent tip head = string_field "bookmark" bookmark (
    string_field "quest" quest (
      string_field "parent" parent
        (string_field "fork_tip" tip (string_field "base_rev" head end))))

abbrev pub delete_args : Triple → Text → Fields
delete_args (o, r, b) bookmark =
    string_field "bookmark" bookmark (string_field "session" (naming_session o r bookmark) end)

-- fork-bookmark behind its tests: the snapshots of the call, and the worksheet that carries them.
unfoldable pub propose_fork : Triple → Text → Text → Text → Text → Prog ToolResult
unfolding fork_tip
propose_fork (o, r, b) bookmark quest session_name call_id = do
  tip ← fork_tip session_name
  handle (get_bookmark_head o r b)
      (λ head.
        handle
          (publish_worksheet session_name (codes "fork-bookmark")
            (fork_args bookmark quest b tip head) call_id)
          (λ _.
            proposed session_name "fork-bookmark" bookmark
              (format "worksheet published: fork to '%s' (awaiting user approval)")
              (format "工单已发布：派生到「%s」（等待用户批准）"))
          (λ e. not_published session_name (message_of e)))
      (λ e.
        ef session_name (format "failed to resolve bookmark head: %v" %v message_of e)
          (format "解析书签头失败：%v" %v message_of e))

unfoldable pub propose_delete : Triple → Text → Text → Text → Prog ToolResult
propose_delete (o, r, b) bookmark session_name call_id = do
  tree ← get_repo_tree
  if bookmark_exists tree o r bookmark
      then handle
          (publish_worksheet session_name (codes "delete-bookmark") (delete_args (o, r, b) bookmark)
            call_id)
          (λ _.
            proposed session_name "delete-bookmark" bookmark
              (format
                "worksheet published: delete bookmark '%s' and its session (awaiting user approval)")
              (format "工单已发布：删除书签「%s」及其会话（等待用户批准）"))
          (λ e. not_published session_name (message_of e))
      else ef session_name (format "bookmark '%s' does not exist" %s bookmark)
          (format "书签 '%s' 不存在" %s bookmark)

module _ (host : Host) where
  unfoldable pub fork_bookmark : Fields → Text → Text → Prog ToolResult
  unfolding session_base propose_fork
  fork_bookmark args call_id session_name = do
    (o, r, b) ← session_base session_name
    let bookmark = host.arg_string args "bookmark"
    let quest = host.arg_string args "quest"
    if is_empty bookmark
        then ef session_name (format "missing 'bookmark' argument") (format "缺少 'bookmark' 参数")
        else if text_eq bookmark b
        then ef session_name (format "bookmark must differ from the current bookmark '%s'" %s b)
            (format "书签必须不同于当前书签 '%s'" %s b)
        else if is_empty quest
        then ef session_name (format "missing 'quest' argument") (format "缺少 'quest' 参数")
        else propose_fork (o, r, b) bookmark quest session_name call_id

  unfoldable pub delete_bookmark : Fields → Text → Text → Prog ToolResult
  unfolding session_base propose_delete
  delete_bookmark args call_id session_name = do
    (o, r, b) ← session_base session_name
    let bookmark = host.arg_string args "bookmark"
    if is_empty bookmark
        then ef session_name (format "missing 'bookmark' argument") (format "缺少 'bookmark' 参数")
        else if text_eq bookmark b
        then ef session_name
            (format "refusing to delete this session's own bookmark '%s'" %s bookmark)
            (format "拒绝删除本会话自己的书签 '%s'" %s bookmark)
        else if text_eq bookmark (codes "main")
        then ef session_name (format "refusing to delete the default bookmark 'main'")
            (format "拒绝删除默认书签 'main'")
        else propose_delete (o, r, b) bookmark session_name call_id
