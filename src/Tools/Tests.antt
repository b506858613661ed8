-- ===== src/Tools/Tests.antt =====
-- The helpers of the tools at work on small texts.
use repo_extension.Base.{
  none, suc, ◌<◌, ◌+◌, ◌≤◌, ◌≡◌, ◌↔◌, refl, false, List, [], ◌∷◌, ◌++◌, arith,
}
use repo_extension.Base.Text.{Text, codes, split, text_eq}
use repo_extension.Base.Lists.{length, take, drop}
use repo_extension.Names.{colon, naming_session}
use repo_extension.Json
use repo_extension.Json.{Fields, end, field, text, number}
use repo_extension.Effects.{ret}
use repo_extension.Tools.{
  newline, edited, edit_panics, lines_of, apply_line_edit, hunk_of, split_match,
}
use repo_extension.Base.Int.{pos, less, int64_limit}
use repo_extension.Tools.Sessions.{ref_base}
use repo_extension.Effects.Run.{AnyAnswer}
use repo_extension.Effects.Sound.{Sound}
use repo_extension.Discipline
use repo_extension.Jjlab.Effect.{Any}
use repo_extension.Tools.Dispatch.{mr_merge_tool, mr_view_tool, execute}
use repo_extension.Tools.Effect.Own.{IsOwnCall, execute-Own}
use repo_extension.Tools.Effect.Quiet.{IsQuiet, reader-Quiet}
use repo_extension.Tools.Merges.Changing.{merge_fetched}
use repo_extension.Tools.Merges.Guards.{may_merge, Refuses, merge_fetched-Refuses}
use repo_extension.Tools.Listing.{limited}
use repo_extension.Tools.Listing.Limits.{IsLimited, limited_lem}
use repo_extension.Tools.History.Patches.{split_blocks, blocks_of, newline_joined, diff_for_path}
use repo_extension.Tools.History.Narrowing.{header_of, behind_first, diff_for_path-behind_first}
use repo_extension.Tools.Paging.{follow, follow-all}
use repo_extension.Tools.Fixture.{host}
use repo_extension.Tools.LineEdit.{apply_line_edit-panics, insert_then_delete}
use repo_extension.Tools.Diffs.{patched, hunk_of-patched}
use repo_extension.Tools.Refs.{split_match_lem, ref_base-naming_session}
use repo_extension.Worksheets.{on_call_hook}
use repo_extension.Worksheets.Approvals.{approval, once, forked, deleted, on_call_hook-approved}
use repo_extension.Tools.Files.Writing.{edit}
use repo_extension.Tools.Files.Locking.{Locks, AnySeen}
use repo_extension.Tools.Files.Editing.{edit-Locked}
use repo_extension.Tools.Bookmarks.{fork_args, delete_args}
use repo_extension.System.Fixture.{org, repo, bookmark, sid, spells}

-- Two lines, and a replacement of the third.
abbrev two_lines : Text
two_lines = codes "a\nb\n"

apply_line_edit-panics_example :
    (apply_line_edit two_lines (pos 3) (pos 3) (codes "x") ≡ edit_panics) ↔ (
      (pos 3 ≡ pos (length (lines_of two_lines) + 1))
      × (less (pos 3) (pos 1) ≡ false)
      × (less (pos 3) (pos 3) ≡ false))
apply_line_edit-panics_example = apply_line_edit-panics two_lines (codes "x") (pos 3) (pos 3)

inside : 1 ≤ length (lines_of (codes "a\nb" ++ (newline ∷ [])))
unfolding lines_of split
inside = omega arith

insert_then_delete_example :
    (inserted_text : Text) × (apply_line_edit
        (codes "a\nb" ++ (newline ∷ []))
        (pos 2)
        (pos 1)
        (codes "x\ny")
      ≡ edited inserted_text)
    × (apply_line_edit inserted_text (pos 2) (pos (1 + length (split newline (codes "x\ny")))) []
        ≡ edited (codes "a\nb" ++ (newline ∷ [])))
insert_then_delete_example = insert_then_delete (codes "a\nb") (codes "x\ny") 1 inside (cc)

abbrev olds : List Text
olds = codes "a" ∷ codes "b" ∷ codes "c" ∷ []

abbrev news : List Text
news = codes "a" ∷ codes "x" ∷ codes "y" ∷ codes "c" ∷ []

hunk_of-patched_example :
    (patched (hunk_of olds news) olds ≡ news)
    × (take (length (hunk_of olds news).removed) (drop (hunk_of olds news).start olds)
        ≡ (hunk_of olds news).removed)
hunk_of-patched_example = hunk_of-patched olds news

split_match_lem_example :
    (split_match (codes "f" ++ (colon ∷ (codes "7" ++ (colon ∷ codes "x:y"))))
      ≡ (codes "f", codes "7", codes "x:y"))
    × (split_match (codes "f" ++ (colon ∷ codes "7")) ≡ (codes "f", [], codes "7"))
    × (split_match (codes "f") ≡ (codes "f", [], []))
split_match_lem_example =
    split_match_lem (codes "f") (codes "7") (codes "x:y") (omega arith, tt) (omega arith, tt)

abbrev ref_args : Fields
ref_args = field (codes "ref") (text (codes "o:r:feat:x")) end

ref_named : host.arg_string ref_args "ref" ≡ naming_session (codes "o") (codes "r") (codes "feat:x")
unfolding Json.str_from Json.get text_eq naming_session
ref_named = refl

ref_base-naming_session_example :
    ref_base host ref_args [] ≡ ret (codes "o", codes "r", codes "feat:x")
ref_base-naming_session_example =
    ref_base-naming_session host ref_args [] (codes "o") (codes "r") (codes "feat:x") ref_named
      ((omega arith, tt), cc) ((omega arith, tt), cc) (cc)

abbrev merge_args : Fields
merge_args = field (codes "mr") (number (codes "7")) end

execute-Own_example :
    Sound
      (IsOwnCall (codes "o:r:main") (host.arg_string merge_args "target"))
      Discipline.Rely
      Any
      (execute host mr_merge_tool merge_args [] (codes "o:r:main"))
execute-Own_example = execute-Own host mr_merge_tool merge_args [] (codes "o:r:main")

reader-Quiet_example :
    Sound IsQuiet AnyAnswer Any (execute host mr_view_tool merge_args [] (codes "o:r:main"))
reader-Quiet_example = reader-Quiet host mr_view_tool merge_args [] (codes "o:r:main") tt

abbrev five_lines : List Text
five_lines = codes "a" ∷ codes "b" ∷ codes "c" ∷ codes "d" ∷ codes "e" ∷ []

few : length five_lines + suc 1 < int64_limit
unfolding int64_limit
few = omega arith

-- Three calls with a limit of two lines.
follow-all_example : follow (length five_lines) five_lines 1 (pos (suc 1)) ≡ five_lines
follow-all_example = follow-all five_lines 1 few

abbrev merged_mr : Fields
merged_mr =
    field (codes "state") (text (codes "merged")) (field (codes "base") (text (codes "main")) end)

refused : may_merge (codes "main") merged_mr ≡ false
unfolding may_merge Json.str_from Json.get text_eq
refused = refl

merge_fetched-Refuses_example :
    Refuses (merge_fetched (codes "o", codes "r", codes "main") 7 merged_mr (codes "o:r:main"))
merge_fetched-Refuses_example =
    merge_fetched-Refuses (codes "o") (codes "r") (codes "main") 7 merged_mr (codes "o:r:main")
      refused

limited_lem_example :
    IsLimited 2 five_lines (limited (pos 2) five_lines).0 (limited (pos 2) five_lines).1
limited_lem_example = limited_lem 1 five_lines

diff_for_path-behind_first_example :
    diff_for_path (codes "diff --git " ++ codes "a/f b/f\n+x") (codes "f")
    ≡ newline_joined (
        blocks_of
          (header_of (codes "f"))
          (behind_first (split_blocks 0 (codes "diff --git " ++ codes "a/f b/f\n+x"))))
diff_for_path-behind_first_example = diff_for_path-behind_first (codes "f") (codes "a/f b/f\n+x")

other_names : (text_eq (codes "n") bookmark ≡ false) × (text_eq (codes "n") (codes "main") ≡ false)
unfolding text_eq
other_names = (refl, refl)

on_call_hook-approved_example :
    (on_call_hook (codes "worksheet-decided") sid (
        approval
          (codes "ws")
          (codes "fork-bookmark")
          (fork_args (codes "n") (codes "q") bookmark (codes "t") (codes "h"))
          (codes "c"))
      ≡ once
          (codes "ws")
          sid
          (forked (org, repo, bookmark) sid (codes "n") (codes "q") (codes "t") (codes "h")))
    × (on_call_hook (codes "worksheet-decided") sid (
          approval
            (codes "ws")
            (codes "delete-bookmark")
            (delete_args (org, repo, bookmark) (codes "n"))
            (codes "c"))
        ≡ once
            (codes "ws")
            sid
            (deleted (org, repo, bookmark) (codes "n") (naming_session org repo (codes "n"))))
on_call_hook-approved_example =
    on_call_hook-approved sid (codes "ws") (codes "c") (codes "n") org repo bookmark spells refl
      (codes "q") (codes "t") (codes "h") refl refl other_names.0 other_names.1

-- Line 2 of a.txt is replaced.
abbrev edit_args : Fields
edit_args = field (codes "path") (text (codes "a.txt")) (
    field (codes "start-line") (number (codes "2")) (
      field (codes "end-line") (number (codes "2"))
        (field (codes "content") (text (codes "x")) end)))

edit-Locked_example : Locks host edit_args AnySeen (edit host edit_args sid) none
edit-Locked_example = edit-Locked host edit_args sid
