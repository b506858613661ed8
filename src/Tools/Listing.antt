-- ===== src/Tools/Listing.antt =====
-- The tool ls (tools.go).
pub mod Searching
pub mod Limits
pub mod Exploring
use repo_extension.Base.{
  ℕ, suc, ◌==◌, String, Bool, true, false, not, ◌||◌, none, some, List, [], ◌∷◌, ◌++◌,
  if◌then◌else◌,
}
use repo_extension.Base.Int.{ℤ, pos, less, magnitude}
use repo_extension.Base.Text.{Text, codes, is_empty, text_eq, contains}
use repo_extension.Base.Lists.{length, take}
use repo_extension.Errs.{Message, format, ◌%s◌, ◌%v◌, ◌%d◌, message_of}
use repo_extension.Json
use repo_extension.Json.{
  Json, array, text, number, Items, nil, cons, Fields, str_from, slice_of, as_map,
}
use repo_extension.Effects.{Piece, raw, query_escape, verbatim, Prog, ret, handle, ◌>>=◌}
use repo_extension.Http.{get_json, repo_path}
use repo_extension.Jjlab.{get_repo_tree}
use repo_extension.Jjlab.Tree.{BookmarkInfo, Repos, RepoTree}
use repo_extension.I18n.{ef}
use repo_extension.Tools.{split_match}
use repo_extension.Tools.Host.{
  Host, Value, string, count, flag, list, map, Values, no_values, value, no_entries, ◌=>◌⨾◌,
  ToolResult, tool_result, say, short_id, strings_of, size_of,
}
use repo_extension.Tools.Sessions.{ref_base}

-- url.Values.Encode of keys that stand in their order.
abbrev pub query_params : List (String × Piece) → List Piece
query_params [] = []
query_params ((k, p) ∷ []) = raw k ∷ raw "=" ∷ p ∷ []
query_params ((k, p) ∷ q ∷ rest) = raw k ∷ raw "=" ∷ p ∷ raw "&" ∷ query_params (q ∷ rest)

abbrev pub optional : String → Text → List (String × Piece)
optional k v = if is_empty v then [] else (k, query_escape v) ∷ []

-- entry
pub record DirEntry : Type 0 where
  pub path : Text
  pub is_dir : Bool
  pub size : ℤ

abbrev is_dir_word : Text → Bool
is_dir_word s = text_eq s (codes "tree") || text_eq s (codes "dir")

-- v["tree"], or v["entries"] where that is no slice.
abbrev listed_entries : Fields → Items
listed_entries v = elim (Json.get v (codes "tree")) [
  | array xs ↦ xs
  | _ ↦ slice_of (Json.get v (codes "entries"))
]

-- entries[:max], and whether it is shorter.
unfoldable pub limited {ℓ} : {A : Type ℓ} → ℤ → List A → List A × Bool
limited max xs =
    if less (pos 0) max
    then (if less max (size_of xs) then (take (magnitude max) xs, true) else (xs, false))
    else (xs, false)

abbrev entry_value : DirEntry → Value
entry_value e = map (
    "path"
    => string e.path ⨾ "type"
    => string (codes (if e.is_dir then "tree" else "blob")) ⨾ "size"
    => count e.size ⨾ no_entries)

-- entriesSlice
unfoldable pub entries_slice : List DirEntry → Values
entries_slice [] = no_values
entries_slice (e ∷ es) = value (entry_value e) (entries_slice es)

unfoldable pub count_dirs : List DirEntry → ℕ
count_dirs [] = 0
count_dirs (e ∷ es) = let n = count_dirs es in if e.is_dir then suc n else n

unfoldable pub count_files : List DirEntry → ℕ
count_files [] = 0
count_files (e ∷ es) = let n = count_files es in if e.is_dir then n else suc n

abbrev entry_lines : List DirEntry → List Message
entry_lines [] = []
entry_lines (e ∷ es) =
    ((if e.is_dir then format "  [dir] %s/\n" else format "  %s\n") %s e.path) ∷ entry_lines es

-- pathWithSlash
unfoldable pub path_with_slash : Text → Text
path_with_slash [] = []
path_with_slash (c ∷ path) = if c == b'/' then c ∷ path else b'/' ∷ c ∷ path

abbrev listing_path : Text → Text → Text → Text → List Piece
listing_path o r b path = repo_path o r (
    raw "/contents"
    ∷ verbatim (path_with_slash path)
    ∷ raw (if is_empty path then "" else "/")
    ∷ raw "?ref="
    ∷ query_escape b
    ∷ [])

abbrev listing_header : Text → Text → List DirEntry → List DirEntry → Message
listing_header b path entries shown =
    (if is_empty path
      then format "rev '%s' has %d entries (%d dirs, %d files):\n" %s b
      else format "rev '%s' path '%s' has %d entries (%d dirs, %d files):\n" %s b %s path)
    %d length shown
    %d count_dirs entries
    %d count_files entries

-- The note of ls and of grep under results that were cut.
abbrev truncation : String → Bool → List Message
truncation note truncated = if truncated then format note ∷ [] else []

-- strings.Join(parts, ", ")
abbrev pub comma_joined : List Text → Text
comma_joined [] = []
comma_joined (p ∷ []) = p
comma_joined (p ∷ q ∷ ps) = p ++ (codes ", " ++ comma_joined (q ∷ ps))

module _ (host : Host) where
  abbrev entry_size : Json → ℤ
  entry_size (number n) = host.int64_of n
  entry_size _ = pos 0

  -- toEntries
  unfoldable pub to_dir_entry : Fields → DirEntry
  to_dir_entry m = record {
    path =
        if is_empty (str_from m (codes "path"))
        then str_from m (codes "name")
        else str_from m (codes "path");
    is_dir = is_dir_word (str_from m (codes "kind")) || is_dir_word (str_from m (codes "type"));
    size = entry_size (Json.get m (codes "size"));
  }

  abbrev dir_entries : Items → List DirEntry
  dir_entries nil = []
  dir_entries (cons e rest) = elim (as_map e) [
    | none ↦ dir_entries rest
    | some m ↦ to_dir_entry m ∷ dir_entries rest
  ]

  unfoldable pub to_entries : Fields → List DirEntry
  unfolding to_dir_entry
  to_entries v = dir_entries (listed_entries v)

  unfoldable pub show_entries : Text → Text → ℤ → List DirEntry → ToolResult
  unfolding limited entries_slice count_dirs count_files
  show_entries b path max entries =
      let (shown, truncated) = limited max entries in
      tool_result
        (listing_header b path entries shown
          ∷ (entry_lines shown
              ++ truncation "\n(entries truncated; specify a smaller path or higher max)\n"
                  truncated))
        ("entries" => list (entries_slice shown) ⨾ "truncated" => flag truncated ⨾ no_entries)

  unfoldable pub ls : Fields → Text → Prog ToolResult
  unfolding ref_base to_entries show_entries path_with_slash
  ls args session_name = do
    (o, r, b) ← ref_base host args session_name
    let path = host.arg_string args "path"
    handle (get_json (listing_path o r b path))
        (λ v. ret (show_entries b path (host.arg_int args "max" (pos 0)) (to_entries v)))
        (λ e.
          ef session_name (format "failed to list directory: %v" %v message_of e)
            (format "列出目录失败：%v" %v message_of e))
