-- ===== src/Session/Resolve.antt =====
-- The resolution of sessions under the discipline of the mapping (sessions_http.go:
-- resolveSession).
use repo_extension.Base.{◌≡◌, Option, none, some, ◌==◌}
use repo_extension.Base.Text.{Text}
use repo_extension.Names.{Triple, parse_session}
use repo_extension.Errs.{status_of}
use repo_extension.Effects.{MapRow, row_at, row_by_session, look_up, ret, downstream}
use repo_extension.Store
use repo_extension.Store.{scan_map_row}
use repo_extension.Discipline.{Keeps, Always, Fits, Hit}
use repo_extension.Discipline.Steps.{
  Keeps-bind, Keeps-handle, Keeps-if, RowFits, row_or_error-Keeps, insert_mapping-Keeps,
  insert_managed-Keeps,
}
use repo_extension.Session.{
  postgres, resolve_miss, resolve_row, resolve_session, mapping, bind_row, publish_session_vars,
}

abbrev pub Spells : Text → Triple → Type 0
Spells sid triple = parse_session sid ≡ some triple

pub get_row_by_session-Keeps :
    (sid : Text)
    → Keeps (RowFits (row_by_session sid)) (downstream postgres (Store.get_row_by_session sid))
unfolding Store.get_row_by_session
get_row_by_session-Keeps sid = row_or_error-Keeps postgres (row_by_session sid)

pub get_row-Keeps :
    (o r b : Text) → Keeps (RowFits (row_at o r b)) (downstream postgres (Store.get_row o r b))
unfolding Store.get_row
get_row-Keeps o r b = row_or_error-Keeps postgres (row_at o r b)

resolve_miss-Keeps : (sid : Text) (o : Option Triple) → Keeps (Spells sid) (resolve_miss sid o)
resolve_miss-Keeps sid none = tt
resolve_miss-Keeps sid (some v) = tt

spelled :
    (sid : Text) (x : MapRow) → Fits (row_by_session sid) x → Spells sid (x.org, x.repo, x.bookmark)
spelled sid x h = rw h.1 at h.0

pub resolve_row-Keeps : (sid : Text) → Keeps (Spells sid) (resolve_row sid)
unfolding resolve_row
resolve_row-Keeps sid =
    Keeps-bind (RowFits (row_by_session sid)) (Spells sid) _ _ (get_row_by_session-Keeps sid)
      (elim [
        | none ↦ λ h. resolve_miss-Keeps sid (parse_session sid)
        | some x ↦ λ h. (spelled sid x h, λ _ _. spelled sid x h)
      ])

Hit-Keeps :
    (sid : Text) (o : Option Triple)
    → Hit (look_up sid) o
    → Keeps (Spells sid) (elim o [ some triple ↦ ret triple | none ↦ resolve_row sid ])
Hit-Keeps sid none h = resolve_row-Keeps sid
Hit-Keeps sid (some v) h = h

pub resolve_session-Keeps : (sid : Text) → Keeps (Spells sid) (resolve_session sid)
unfolding resolve_session
resolve_session-Keeps sid = (tt, λ o h. Hit-Keeps sid o h)

pub publish_session_vars-Keeps : (sid : Text) → Keeps Always (publish_session_vars sid)
unfolding publish_session_vars
publish_session_vars-Keeps sid =
    Keeps-handle (Spells sid) Always (resolve_session sid) _ _ (resolve_session-Keeps sid)
      (λ v _. (tt, λ _ _. (tt, λ _ _. (tt, λ _ _. tt)))) (λ e. tt)

pub bind_row-Keeps :
    (o r b sid : Text) → parse_session sid ≡ some (o, r, b) → Keeps Always (bind_row o r b sid)
unfolding bind_row
bind_row-Keeps o r b sid h =
    Keeps-handle Always Always (Store.insert_mapping (mapping o r b sid)) _ _
      (insert_mapping-Keeps o r b sid h) (λ _ _. insert_managed-Keeps o r)
      (λ e. Keeps-if Always (status_of e == 409) _ _ (λ _. tt) (λ _. tt))
