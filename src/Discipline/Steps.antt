-- ===== src/Discipline/Steps.antt =====
-- The methods of Store and the client operations under the discipline.
use repo_extension.Base.{
  ◌≡◌, Bool, true, false, Option, none, some, List, [], ◌∷◌, ◌==◌, if◌then◌else◌,
}
use repo_extension.Base.Text.{Text}
use repo_extension.Base.Lists.{All}
use repo_extension.Names.{parse_session}
use repo_extension.Errs.{Err}
use repo_extension.Effects.{
  MapRow, Select, SelectReply, selected, select_failed, ExecReply, affected, unique_violation,
  exec_failed, Prog, handle, ◌>>=◌, downstream,
}
use repo_extension.Effects.Sound.{Sound-handle, Sound-bind, Sound-downstream, Sound-if}
use repo_extension.Store
use repo_extension.Store.{
  list_rows, rows_reply, first_row, scan_map_row, exec_reply, insert_reply, rename_reply,
}
use repo_extension.Session.{mapping, evict}
use repo_extension.Discipline.{Allowed, Rely, Keeps, Always, Fits, RowsFit}

-- The rules of the logic at the discipline.
pub Keeps-bind :
    {A B : Type 0} (P : A → Type 0) (Q : B → Type 0) (m : Prog A) (f : A → Prog B)
    → Keeps P m
    → ((a : A) → P a → Keeps Q (f a))
    → Keeps Q (m >>= f)
Keeps-bind P Q m f h hf = Sound-bind Allowed Rely P Q m f h hf

pub Keeps-handle :
    {A B : Type 0} (P : A → Type 0) (Q : B → Type 0) (m : Prog A) (f : A → Prog B)
    (g : Err → Prog B)
    → Keeps P m
    → ((a : A) → P a → Keeps Q (f a))
    → ((e : Err) → Keeps Q (g e))
    → Keeps Q (handle m f g)
Keeps-handle P Q m f g h hf hg = Sound-handle Allowed Rely P Q m f g h hf hg

pub Keeps-if :
    {A : Type 0} (Q : A → Type 0) (b : Bool) (m n : Prog A)
    → (b ≡ true → Keeps Q m)
    → (b ≡ false → Keeps Q n)
    → Keeps Q (if b then m else n)
Keeps-if Q b m n hm hn = Sound-if Allowed Rely Q b m n hm hn

rows_reply-Keeps :
    (q : Select) (r : SelectReply) → RowsFit q r → Keeps (All (Fits q)) (rows_reply r)
rows_reply-Keeps q (selected rows) h = h
rows_reply-Keeps q (select_failed m) h = tt

pub list_rows-Keeps : (q : Select) → Keeps (All (Fits q)) (list_rows q)
list_rows-Keeps q = (tt, λ r h. rows_reply-Keeps q r h)

-- What is known of the row that a query for one row answers.
abbrev pub RowFits : Select → Option MapRow → Type 0
RowFits q none = Unit
RowFits q (some x) = Fits q x

pub first_row-Fits :
    (q : Select) (rows : List MapRow) → All (Fits q) rows → RowFits q (first_row rows)
first_row-Fits q [] h = tt
first_row-Fits q (x ∷ rows) h = h.0

scan_map_row-Keeps : (q : Select) → Keeps (RowFits q) (scan_map_row q)
scan_map_row-Keeps q =
    Keeps-bind (All (Fits q)) (RowFits q) (list_rows q) _ (list_rows-Keeps q) (first_row-Fits q)

pub row_or_error-Keeps :
    (what : Text) (q : Select) → Keeps (RowFits q) (downstream what (scan_map_row q))
row_or_error-Keeps what q =
    Sound-downstream Allowed Rely (RowFits q) what (scan_map_row q) (scan_map_row-Keeps q)

pub exec_reply-Keeps : (r : ExecReply) → Keeps Always (exec_reply r)
exec_reply-Keeps (affected n) = tt
exec_reply-Keeps unique_violation = tt
exec_reply-Keeps (exec_failed m) = tt

insert_reply-Keeps : (r : ExecReply) → Keeps Always (insert_reply r)
insert_reply-Keeps (affected n) = tt
insert_reply-Keeps unique_violation = tt
insert_reply-Keeps (exec_failed m) = tt

rename_reply-Keeps : (r : ExecReply) → Keeps Always (rename_reply r)
rename_reply-Keeps (affected n) = Keeps-if Always (n == 0) _ _ (λ _. tt) (λ _. tt)
rename_reply-Keeps unique_violation = tt
rename_reply-Keeps (exec_failed m) = tt

pub insert_mapping-Keeps :
    (o r b sid : Text)
    → parse_session sid ≡ some (o, r, b)
    → Keeps Always (Store.insert_mapping (mapping o r b sid))
unfolding Store.insert_mapping
insert_mapping-Keeps o r b sid h = (h, λ x _. insert_reply-Keeps x)

pub insert_managed-Keeps : (o r : Text) → Keeps Always (Store.insert_managed_repo o r)
unfolding Store.insert_managed_repo
insert_managed-Keeps o r = (tt, λ x _. exec_reply-Keeps x)

pub rename_mapping-Keeps :
    (o r from_bm to_bm to_sid : Text)
    → parse_session to_sid ≡ some (o, r, to_bm)
    → Keeps Always (Store.rename_mapping o r from_bm to_bm to_sid)
unfolding Store.rename_mapping
rename_mapping-Keeps o r from_bm to_bm to_sid h = (h, λ x _. rename_reply-Keeps x)

pub delete_mapping-Keeps : (o r b : Text) → Keeps Always (Store.delete_mapping o r b)
unfolding Store.delete_mapping
delete_mapping-Keeps o r b = (tt, λ x _. exec_reply-Keeps x)

pub evict-Keeps : (sid : Text) → Keeps Always (evict sid)
evict-Keeps sid = (tt, λ x _. tt)

-- A database step whose error is wrapped.
pub wrapped-Keeps :
    {A : Type 0} (Q : A → Type 0) (what : Text) (m : Prog A)
    → Keeps Q m
    → Keeps Q (downstream what m)
wrapped-Keeps Q what m h = Sound-downstream Allowed Rely Q what m h
