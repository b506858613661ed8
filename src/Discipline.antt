-- ===== src/Discipline.antt =====
-- The discipline of the mapping: a row binds a session to the workspace that its name spells, and so
-- does a cache entry. What a program may write, what it reads in return, and the state in which
-- this holds.
pub mod Perform
pub mod Rows
pub mod Steps
use repo_extension.Base.{◌≡◌, Option, none, some, List, true, String}
use repo_extension.Base.Text.{Text}
use repo_extension.Base.Lists.{All}
use repo_extension.Names.{Triple, parse_session}
use repo_extension.Effects.{
  MapRow, Select, SelectReply, selected, select_failed, Eff, http, select, exec, cache, ext, Answer,
  Prog, row_at, row_by_session, rows_for_repo, all_rows, managed_at, all_managed, insert_row,
  rename_row, look_up, put_entry, evict_entry, CacheCall, Exec,
}
use repo_extension.Effects.Sound.{Sound}
use repo_extension.Effects.World.{World}
use repo_extension.Cache.{SessEntry}
use repo_extension.Store.Unique.{Unique}

-- The session's name spells the row's workspace.
abbrev pub IsNamed : MapRow → Type 0
IsNamed r = parse_session r.session_name ≡ some (r.org, r.repo, r.bookmark)

abbrev pub IsNamedEntry : SessEntry → Type 0
IsNamedEntry e = parse_session e.sid ≡ some e.triple

abbrev pub AllowedExec : Exec → Type 0
AllowedExec (insert_row r) = IsNamed r
AllowedExec (rename_row o r from_bm to_bm to_session) =
    parse_session to_session ≡ some (o, r, to_bm)
AllowedExec _ = Unit

abbrev pub AllowedCache : CacheCall → Type 0
AllowedCache (put_entry sid triple) = parse_session sid ≡ some triple
AllowedCache _ = Unit

abbrev pub Allowed : Eff → Type 0
Allowed (exec x) = AllowedExec x
Allowed (cache c) = AllowedCache c
Allowed (http _ _) = Unit
Allowed (select _) = Unit
Allowed (ext _) = Unit

abbrev pub Fits : Select → MapRow → Type 0
Fits (row_at o r b) x = IsNamed x × (x.org ≡ o) × (x.repo ≡ r) × (x.bookmark ≡ b)
Fits (row_by_session sid) x = IsNamed x × (x.session_name ≡ sid)
Fits (rows_for_repo o r) x = IsNamed x × (x.org ≡ o) × (x.repo ≡ r)
Fits all_rows x = IsNamed x
Fits (managed_at _ _) x = Unit
Fits all_managed x = Unit

abbrev pub RowsFit : Select → SelectReply → Type 0
RowsFit q (selected rows) = All (Fits q) rows
RowsFit q (select_failed _) = Unit

abbrev pub Hit : CacheCall → Option Triple → Type 0
Hit (look_up sid) (some triple) = parse_session sid ≡ some triple
Hit (look_up sid) none = Unit
Hit (put_entry _ _) _ = Unit
Hit (evict_entry _) _ = Unit

abbrev pub Rely : (e : Eff) → Answer e → Type 0
Rely (select q) a = RowsFit q a
Rely (cache c) a = Hit c a
Rely (http _ _) _ = Unit
Rely (exec _) _ = Unit
Rely (ext _) _ = Unit

-- The program keeps to the discipline, and a value that it returns satisfies `Q`.
abbrev pub Keeps : {A : Type 0} → (A → Type 0) → Prog A → Type 0
Keeps Q m = Sound Allowed Rely Q m

abbrev pub Always : {A : Type 0} → A → Type 0
Always _ = Unit

pub record IsConsistent {R : Type 0} (w : World R) : Type 0 where
  pub named : All IsNamed w.tables.rows
  pub unique : Unique w.tables.rows
  pub cached : All IsNamedEntry w.cache.m
