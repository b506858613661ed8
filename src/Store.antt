-- ===== src/Store.antt =====
-- pg.go: the tables of the private database, the statements on them, and the methods of Store.
pub mod Tables
pub mod Unique
pub mod Distinct
pub mod Refinement
use repo_extension.Base.{
  ℕ, String, ◌≡◌, Bool, true, false, ◌&&◌, Option, none, some, List, [], ◌∷◌, ◌++◌, ◌==◌,
  if◌then◌else◌,
}
use repo_extension.Base.Text.{Text, codes, text_eq}
use repo_extension.Errs.{Err, Message, format, plain, err_conflict, err_not_found}
use repo_extension.Effects.{
  MapRow, Select, Exec, SelectReply, selected, select_failed, ExecReply, affected, unique_violation,
  exec_failed, Prog, ret, fail, call, select, exec, ◌>>=◌, ◌>>◌, row_at, row_by_session,
  rows_for_repo, all_rows, managed_at, all_managed, insert_row, rename_row, delete_row,
  delete_rows_for_repo, insert_managed, delete_managed, insert_executed,
}

-- rows.Scan over every row, or the error of the query.
abbrev pub rows_reply : SelectReply → Prog (List MapRow)
rows_reply (selected rows) = ret rows
rows_reply (select_failed m) = fail (plain m)

abbrev pub list_rows : Select → Prog (List MapRow)
list_rows q = call (select q) rows_reply

abbrev pub first_row : List MapRow → Option MapRow
first_row [] = none
first_row (row ∷ _) = some row

-- scanMapRow: QueryRow reads the first row; ErrNoRows is a nil row.
abbrev pub scan_map_row : Select → Prog (Option MapRow)
scan_map_row q = do rows ← list_rows q; ret (first_row rows)

abbrev pub is_some {ℓ} : {A : Type ℓ} → Option A → Bool
is_some none = false
is_some (some _) = true

-- A statement whose result is not looked at.
abbrev pub exec_reply : ExecReply → Prog Unit
exec_reply (affected _) = ret tt
exec_reply unique_violation = fail (plain (format "SQLSTATE 23505"))
exec_reply (exec_failed m) = fail (plain m)

abbrev pub run_exec : Exec → Prog Unit
run_exec x = call (exec x) exec_reply

unfoldable pub is_managed : Text → Text → Prog Bool
is_managed org repo = do row ← scan_map_row (managed_at org repo); ret (is_some row)

unfoldable pub insert_managed_repo : Text → Text → Prog Unit
insert_managed_repo org repo = run_exec (insert_managed org repo)

unfoldable pub delete_managed_repo : Text → Text → Prog Unit
delete_managed_repo org repo = run_exec (delete_managed org repo)

unfoldable pub list_managed : Prog (List MapRow)
list_managed = list_rows all_managed

unfoldable pub get_row : Text → Text → Text → Prog (Option MapRow)
get_row org repo bookmark = scan_map_row (row_at org repo bookmark)

unfoldable pub get_row_by_session : Text → Prog (Option MapRow)
get_row_by_session session_name = scan_map_row (row_by_session session_name)

abbrev pub insert_reply : ExecReply → Prog Unit
insert_reply (affected _) = ret tt
insert_reply unique_violation = fail (err_conflict (format "bookmark or session already bound"))
insert_reply (exec_failed m) = fail (plain m)

-- InsertRow
unfoldable pub insert_mapping : MapRow → Prog Unit
insert_mapping row = call (exec (insert_row row)) insert_reply

abbrev pub rename_reply : ExecReply → Prog Unit
rename_reply (affected n) =
    if n == 0 then fail (err_not_found (format "mapping row not found")) else ret tt
rename_reply unique_violation =
    fail (err_conflict (format "target bookmark or session already bound"))
rename_reply (exec_failed m) = fail (plain m)

-- RenameRow
unfoldable pub rename_mapping : Text → Text → Text → Text → Text → Prog Unit
rename_mapping org repo from_bm to_bm to_session =
    call (exec (rename_row org repo from_bm to_bm to_session)) rename_reply

unfoldable pub delete_mapping : Text → Text → Text → Prog Unit
delete_mapping org repo bookmark = run_exec (delete_row org repo bookmark)

unfoldable pub delete_mappings_for_repo : Text → Text → Prog Unit
delete_mappings_for_repo org repo = run_exec (delete_rows_for_repo org repo)

unfoldable pub list_rows_for_repo : Text → Text → Prog (List MapRow)
list_rows_for_repo org repo = list_rows (rows_for_repo org repo)

unfoldable pub list_all_rows : Prog (List MapRow)
list_all_rows = list_rows all_rows

abbrev pub claim_reply : ExecReply → Prog Bool
claim_reply (affected n) = ret (n == 1)
claim_reply unique_violation = fail (plain (format "SQLSTATE 23505"))
claim_reply (exec_failed m) = fail (plain m)

-- ExecutedWorksheet: `true` when this call was the first to claim the worksheet.
unfoldable pub executed_worksheet : Text → Prog Bool
executed_worksheet worksheet_id = call (exec (insert_executed worksheet_id)) claim_reply
