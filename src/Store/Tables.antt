-- ===== src/Store/Tables.antt =====
-- The tables that the DDL of pg.go declares, and its statements as functions on them.
use repo_extension.Base.{
  Bool, not, ◌&&◌, ◌||◌, Option, none, some, List, [], ◌∷◌, ◌++◌, if◌then◌else◌,
}
use repo_extension.Base.Text.{Text, text_eq}
use repo_extension.Base.Lists.{keep, any, length}
use repo_extension.Effects.{
  MapRow, Select, Exec, ExecReply, affected, unique_violation, row_at, row_by_session,
  rows_for_repo, all_rows, managed_at, all_managed, insert_row, rename_row, delete_row,
  delete_rows_for_repo, insert_managed, delete_managed, insert_executed,
}

-- session_repos, managed_repos and the keys of executed_worksheets.
pub record Tables : Type 0 where
  pub rows : List MapRow
  pub managed : List MapRow
  pub executed : List Text

-- WHERE org=$1 AND repo=$2
abbrev pub in_repo : Text → Text → MapRow → Bool
in_repo org repo r = text_eq r.org org && text_eq r.repo repo

-- PRIMARY KEY (org, repo, bookmark)
abbrev pub is_at : Text → Text → Text → MapRow → Bool
is_at org repo bookmark r = in_repo org repo r && text_eq r.bookmark bookmark

-- session_name TEXT NOT NULL UNIQUE
abbrev pub has_session : Text → MapRow → Bool
has_session sid r = text_eq r.session_name sid

-- Two rows that the constraints of session_repos do not allow side by side.
abbrev pub clashes : MapRow → MapRow → Bool
clashes new old = is_at new.org new.repo new.bookmark old || has_session new.session_name old

abbrev pub repo_row : Text → Text → MapRow
repo_row org repo = record { org = org; repo = repo; bookmark = []; session_name = [] }

-- SET bookmark=$4, session_name=$5
abbrev pub moved : Text → Text → MapRow → MapRow
moved to_bm to_session r = record r { bookmark = to_bm; session_name = to_session }

-- The rows that an UPDATE leaves alone, and those that it changes.
abbrev pub others : Text → Text → Text → List MapRow → List MapRow
others org repo bookmark rows = keep (λ r. not (is_at org repo bookmark r)) rows

abbrev pub update_at : Text → Text → Text → (MapRow → MapRow) → List MapRow → List MapRow
update_at org repo bookmark f [] = []
update_at org repo bookmark f (r ∷ rows) =
    (if is_at org repo bookmark r then f r else r) ∷ update_at org repo bookmark f rows

abbrev pub find : (MapRow → Bool) → List MapRow → Option MapRow
find p [] = none
find p (r ∷ rows) = if p r then some r else find p rows

-- The rows of a SELECT; `order` is the ORDER BY, which depends on the collation of the database.
unfoldable pub query : (List MapRow → List MapRow) → Select → Tables → List MapRow
query order (row_at org repo bookmark) t = keep (is_at org repo bookmark) t.rows
query order (row_by_session sid) t = keep (has_session sid) t.rows
query order (rows_for_repo org repo) t = order (keep (in_repo org repo) t.rows)
query order all_rows t = order t.rows
query order (managed_at org repo) t = keep (in_repo org repo) t.managed
query order all_managed t = order t.managed

unfoldable pub apply_insert : MapRow → Tables → ExecReply × Tables
apply_insert row t =
    if any (clashes row) t.rows
    then (unique_violation, t)
    else (affected 1, record t { rows = t.rows ++ row ∷ [] })

unfoldable pub apply_rename : Text → Text → Text → Text → Text → Tables → ExecReply × Tables
apply_rename org repo from_bm to_bm to_session t = elim (find (is_at org repo from_bm) t.rows) [
  | none ↦ (affected 0, t)
  | some r ↦
      if any (clashes (moved to_bm to_session r)) (others org repo from_bm t.rows)
      then (unique_violation, t)
      else (
        affected 1,
        record t { rows = update_at org repo from_bm (moved to_bm to_session) t.rows },
      )
]

unfoldable pub apply_exec : Exec → Tables → ExecReply × Tables
unfolding apply_insert apply_rename
apply_exec (insert_row row) t = apply_insert row t
apply_exec (rename_row org repo from_bm to_bm to_session) t =
    apply_rename org repo from_bm to_bm to_session t
apply_exec (delete_row org repo bookmark) t = (
  affected (length (keep (is_at org repo bookmark) t.rows)),
  record t { rows = keep (λ r. not (is_at org repo bookmark r)) t.rows },
)
apply_exec (delete_rows_for_repo org repo) t = (
  affected (length (keep (in_repo org repo) t.rows)),
  record t { rows = keep (λ r. not (in_repo org repo r)) t.rows },
)
apply_exec (insert_managed org repo) t =
    if any (in_repo org repo) t.managed
    then (affected 0, t)
    else (affected 1, record t { managed = t.managed ++ repo_row org repo ∷ [] })
apply_exec (delete_managed org repo) t = (
  affected (length (keep (in_repo org repo) t.managed)),
  record t { managed = keep (λ r. not (in_repo org repo r)) t.managed },
)
apply_exec (insert_executed worksheet_id) t =
    if any (text_eq worksheet_id) t.executed
    then (affected 0, t)
    else (affected 1, record t { executed = t.executed ++ worksheet_id ∷ [] })
