-- ===== src/Tools/Files.antt =====
-- The tool read, and the paths of files (tools.go).
pub mod Writing
pub mod Locking
pub mod Editing
use repo_extension.Base.{
  ℕ, zero, suc, ◌==◌, ◌+◌, ◌-◌, String, Bool, true, false, none, some, List, [], ◌∷◌, ◌++◌, ltb,
  if◌then◌else◌,
}
use repo_extension.Base.Int.{ℤ, pos, negsuc, less, magnitude, int64_add}
use repo_extension.Base.Text.{Text, codes, is_empty, split}
use repo_extension.Base.Lists.{length, take, drop}
use repo_extension.Errs.{Message, format, ◌%s◌, ◌%v◌, ◌%d◌, ◌%int64◌, plain, message_of}
use repo_extension.Json
use repo_extension.Json.{Json, text, number, object, Items, nil, cons, Fields, end, str_from}
use repo_extension.Effects.{Piece, raw, path_escape, query_escape, Prog, ret, fail, handle, ◌>>=◌}
use repo_extension.Http.{get_json, string_field, repo_path}
use repo_extension.Jjlab.MergeRequests.{commit}
use repo_extension.I18n.{ef}
use repo_extension.Tools.{
  newline, content_lines, Edit, edited, bad_edit, edit_panics, apply_line_edit, diff_lines,
}
use repo_extension.Tools.Host.{
  Host, string, count, flag, patch, list, no_values, Entries, no_entries, ◌=>◌⨾◌, ToolResult,
  tool_result, tool_panics, say, is_not_found, or_default, short_id,
}
use repo_extension.Tools.Sessions.{session_base, ref_base}

-- The pieces of escPath behind the trimmed slash.
abbrev escaped_parts : List Text → List Piece
escaped_parts [] = []
escaped_parts (p ∷ []) = path_escape p ∷ []
escaped_parts (p ∷ q ∷ parts) = path_escape p ∷ raw "/" ∷ escaped_parts (q ∷ parts)

-- strings.TrimPrefix(p, "/")
abbrev trim_slash : Text → Text
trim_slash [] = []
trim_slash (c ∷ p) = if c == b'/' then p else c ∷ p

unfoldable pub esc_path : Text → List Piece
esc_path p = escaped_parts (split b'/' (trim_slash p))

unfoldable pub contents_path : Text → Text → Text → Text → List Piece
unfolding esc_path
contents_path o r b path =
    repo_path o r (raw "/contents/" ∷ (esc_path path ++ (raw "?ref=" ∷ query_escape b ∷ [])))

-- The lines of a file: without the empty one behind the last newline.
abbrev drop_last_empty : List Text → List Text
drop_last_empty [] = []
drop_last_empty (l ∷ []) = if is_empty l then [] else l ∷ []
drop_last_empty (l ∷ m ∷ ls) = l ∷ drop_last_empty (m ∷ ls)

unfoldable pub file_lines : Text → List Text
file_lines s = drop_last_empty (split newline s)

-- What read shows of `lines`: `start_idx`, `end_idx` and whether the file goes on; or nothing.
pub data Page : Type 0 where
  past_end : Page
  page : ℕ → ℤ → Bool → Page

-- `offset` is at least 1. A `limit` that is not positive is no limit.
unfoldable pub page_of : ℕ → ℕ → ℤ → Page
page_of total offset limit =
    if ltb total (offset - 1)
    then past_end
    else if less (pos 0) limit
    then (let want = int64_add (offset - 1) (magnitude limit) in
        if less want (pos total)
        then page (offset - 1) want true
        else page (offset - 1) (pos total) false)
    else page (offset - 1) (pos total) false

-- lines[from:to] in the loop that prints them, with their numbers.
abbrev numbered_lines : ℕ → List Text → List Message
numbered_lines i [] = []
numbered_lines i (l ∷ ls) = (format "%d: %s\n" %d (i + 1) %s l) ∷ numbered_lines (i + 1) ls

unfoldable pub shown_lines : List Text → ℕ → ℤ → List Text
shown_lines lines start_idx (pos end_idx) = take (end_idx - start_idx) (drop start_idx lines)
shown_lines lines start_idx (negsuc _) = []

-- i + 1 for an int64 that is not the largest.
abbrev pub next : ℤ → ℤ
next (pos n) = pos (n + 1)
next (negsuc zero) = pos 0
next (negsuc (suc n)) = negsuc n

-- `if offset < 1 { offset = 1 }`
abbrev pub first_line : ℤ → ℕ
first_line (pos zero) = 1
first_line (pos (suc n)) = suc n
first_line (negsuc _) = 1

unfoldable pub page_content : List Text → ℕ → ℤ → Bool → List Message
unfolding shown_lines
page_content lines start_idx end_idx truncated =
    numbered_lines start_idx (shown_lines lines start_idx end_idx)
    ++ (if truncated
        then (format "\n(file not fully read: showing lines %d-%d of %d; continue with offset=%d)\n"
            %d (start_idx + 1)
            %int64 end_idx
            %d length lines
            %int64 next end_idx)
          ∷ []
        else [])

abbrev file_meta : Text → Text → ℤ → ℕ → Bool → Entries → Entries
file_meta path sha size total truncated rest =
    "path"
    => string path ⨾ "sha"
    => string sha ⨾ "size"
    => count size ⨾ "total_lines"
    => count (pos total) ⨾ "truncated"
    => flag truncated ⨾ rest

-- The result of read for a page.
unfoldable pub show_page : Text → Text → Text → ℤ → List Text → ℕ → Page → Prog ToolResult
unfolding page_content
show_page session_name path sha size lines offset past_end =
    say session_name
      (format "file '%s' has %d lines; offset=%d is past the end."
        %s path
        %d length lines
        %d offset)
      (format "文件 '%s' 共 %d 行；offset=%d 已超出末尾。" %s path %d length lines %d offset)
      (file_meta path sha size (length lines) false no_entries)
show_page session_name path sha size lines offset (page start_idx end_idx truncated) = ret (
    tool_result (page_content lines start_idx end_idx truncated) (
      file_meta path sha size (length lines) truncated
        (if truncated then "next_offset" => count (next end_idx) ⨾ no_entries else no_entries)))

abbrev missing_path : {A : Type 0} → Text → Prog A
missing_path session_name =
    ef session_name (format "missing 'path' argument") (format "缺少 'path' 参数")

module _ (host : Host) where
  abbrev pub file_size : Fields → Text → ℤ
  file_size v raw_text = elim (Json.get v (codes "size")) [
    | number n ↦ host.int64_of n
    | _ ↦ pos (length raw_text)
  ]

  -- (text, sha, size)
  unfoldable pub read_file_raw : Text → Text → Text → Text → Prog (Text × Text × ℤ)
  unfolding contents_path
  read_file_raw o r b path = do
    v ← get_json (contents_path o r b path)
    elim (host.decode_base64 (str_from v (codes "content"))) [
      | none ↦ fail (plain (format "failed to base64-decode file content"))
      | some raw_text ↦ ret (raw_text, str_from v (codes "sha"), file_size v raw_text)
    ]

  unfoldable pub read : Fields → Text → Prog ToolResult
  unfolding ref_base read_file_raw file_lines page_of show_page
  read args session_name = do
    (o, r, b) ← ref_base host args session_name
    let path = host.arg_string args "path"
    if is_empty path
        then missing_path session_name
        else handle (read_file_raw o r b path)
            (λ (raw_text, sha, size).
              let offset = first_line (host.arg_int args "offset" (pos 1)) in
              let lines = file_lines raw_text in
              show_page session_name path sha size lines offset
                (page_of (length lines) offset (host.arg_int args "limit" (pos 0))))
            (λ e.
              if is_not_found e
              then say session_name
                  (format "failed to read file '%s': not found or inaccessible" %s path)
                  (format "读取文件 '%s' 失败：未找到或不可访问" %s path) no_entries
              else ef session_name (format "read '%s': %v" %s path %v message_of e)
                  (format "读取 '%s'：%v" %s path %v message_of e))
