-- ===== src/Tools.antt =====
-- tools.go: the helpers of the tool calls that compute on texts.
pub mod Host
pub mod Sessions
pub mod Files
pub mod Listing
pub mod History
pub mod Merges
pub mod Bookmarks
pub mod Effect
pub mod Paging
pub mod Dispatch
pub mod Fixture
pub mod LineEdit
pub mod Diffs
pub mod Refs
pub mod Tests
use repo_extension.Base.{
  ℕ, suc, ◌+◌, ◌-◌, Bool, true, false, ◌||◌, not, Option, none, some, List, [], ◌∷◌, ◌++◌, ltb, leb,
  ◌==◌, if◌then◌else◌,
}
use repo_extension.Base.Int.{ℤ, pos, negsuc, less, magnitude}
use repo_extension.Base.Text.{Text, codes, text_eq, is_empty, split, join}
use repo_extension.Base.Lists.{length, take, drop}
use repo_extension.Names.{Triple, colon}
use repo_extension.Errs.{Message, format, ◌%s◌, ◌%d◌, plain}
use repo_extension.Json.{Fields}
use repo_extension.Effects.{Prog, ret, fail}
use repo_extension.Session.{resolve_session}
use repo_extension.Worksheets.{arg}

abbrev pub newline : ℕ
newline = b'\n'

-- strings.HasSuffix(s, "\n")
unfoldable pub ends_newline : Text → Bool
ends_newline [] = false
ends_newline (c ∷ []) = c == newline
ends_newline (c ∷ d ∷ s) = ends_newline (d ∷ s)

-- strings.TrimSuffix(s, "\n")
unfoldable pub trim_newline : Text → Text
trim_newline [] = []
trim_newline (c ∷ []) = if c == newline then [] else c ∷ []
trim_newline (c ∷ d ∷ s) = c ∷ trim_newline (d ∷ s)

-- A new text, an error, or the panic of a slice out of range.
pub data Edit : Type 0 where
  edited : Text → Edit
  bad_edit : Message → Edit
  edit_panics : Edit

-- The lines of `current`.
unfoldable pub lines_of : Text → List Text
unfolding trim_newline
lines_of current =
    if is_empty (trim_newline current) then [] else split newline (trim_newline current)

unfoldable pub content_lines : Text → List Text
content_lines content = if is_empty content then [] else split newline content

unfoldable pub rejoin : Text → List Text → Text
unfolding ends_newline
rejoin current result =
    if ends_newline current then join newline result ++ (newline ∷ []) else join newline result

-- lines[:from], the content and lines[to:]; `take` and `drop` are the slices within their range.
abbrev pub splice : ℕ → ℕ → Text → List Text → List Text
splice from to content lines = take from lines ++ (content_lines content ++ drop to lines)

unfoldable pub insert_lines : Text → ℕ → Text → Edit
unfolding lines_of content_lines rejoin
insert_lines current start content =
    let total = length (lines_of current) in
    let insert_at = if ltb total (start - 1) then total else start - 1 in
    edited (rejoin current (splice insert_at insert_at content (lines_of current)))

unfoldable pub replace_lines : Text → ℕ → ℕ → Text → Edit
unfolding lines_of content_lines rejoin
replace_lines current start end content =
    if leb end (length (lines_of current))
    then edited (rejoin current (splice (start - 1) end content (lines_of current)))
    else edit_panics

unfoldable pub apply_line_edit : Text → ℤ → ℤ → Text → Edit
unfolding less insert_lines replace_lines
apply_line_edit current start end content =
    let total = length (lines_of current) in
    if less start (pos 1)
    then bad_edit (format "start_line must be >= 1")
    else if less (pos (total + 1)) start
    then bad_edit
        (format "start_line=%d out of range (file has %d lines)" %d magnitude start %d total)
    else if less end start
    then insert_lines current (magnitude start) content
    else if less (pos (total + 1)) end
    then bad_edit (format "end_line=%d out of range (file has %d lines)" %d magnitude end %d total)
    else replace_lines current (magnitude start) (magnitude end) content

-- What diffLines finds: the place, the removed lines and the added lines.
pub record Hunk : Type 0 where
  pub start : ℕ
  pub removed : List Text
  pub added : List Text

-- Each loop of diffLines counts equal lines; the second runs from the ends.
unfoldable pub common : List Text → List Text → ℕ
common [] ys = 0
common (x ∷ xs) [] = 0
common (x ∷ xs) (y ∷ ys) = let rest = common xs ys in if text_eq x y then suc rest else 0

abbrev pub back_to_front : List Text → List Text → List Text
back_to_front [] acc = acc
back_to_front (x ∷ xs) acc = back_to_front xs (x ∷ acc)

-- The lines that diffLines compares.
unfoldable pub diff_input : Text → List Text
unfolding trim_newline
diff_input s =
    let lines = split newline (trim_newline s) in
    elim lines [
      | [] ↦ []
      | l ∷ rest ↦ elim rest [ [] ↦ if is_empty l then [] else l ∷ [] | m ∷ more ↦ l ∷ m ∷ more ]
    ]

unfoldable pub hunk_of : List Text → List Text → Hunk
unfolding common
hunk_of olds news =
    let i = common olds news in
    let j = common (back_to_front (drop i olds) []) (back_to_front (drop i news) []) in
    record {
      start = i;
      removed = take (length olds - j - i) (drop i olds);
      added = take (length news - j - i) (drop i news);
    }

-- diffLines, with the hunk in place of its text.
unfoldable pub diff_lines : Text → Text → Option Hunk
unfolding diff_input hunk_of
diff_lines old new =
    if text_eq old new then none else some (hunk_of (diff_input old) (diff_input new))

-- strings.IndexByte and the two slices around the byte.
unfoldable pub cut : ℕ → Text → Option (Text × Text)
cut sep [] = none
cut sep (c ∷ s) =
    let rest = cut sep s in
    if c == sep
    then some ([], s)
    else elim rest [ none ↦ none | some (before, after) ↦ some (c ∷ before, after) ]

-- "path:line:text"
unfoldable pub split_match : Text → Text × Text × Text
unfolding cut
split_match m = elim (cut colon m) [
  | none ↦ (m, [], [])
  | some (path, rest) ↦ elim (cut colon rest) [
    | none ↦ (path, [], rest)
    | some (line, text) ↦ (path, line, text)
  ]
]
