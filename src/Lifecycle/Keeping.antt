-- ===== src/Lifecycle/Keeping.antt =====
-- The handlers of events_sub.go under the discipline of the mapping.
use mathlib.Core.Path.{subst}
use repo_extension.Base.{◌≡◌, sym, ap, ◌∙◌, true, false, not, ◌||◌, Option, none, some, ◌==◌, arith}
use repo_extension.Base.Text.{Text, codes, text_eq, eq_of_text_eq}
use repo_extension.Names.{Triple, parse_session}
use repo_extension.Errs.{status_of}
use repo_extension.Effects.{MapRow, row_at, row_by_session, Prog, ◌>>=◌}
use repo_extension.Effects.Sound.{Sound-option}
use repo_extension.Store
use repo_extension.Jjlab.{ensure_repo, ensure_bookmark, delete_bookmark, can_resolve}
use repo_extension.Jjlab.Effect
use repo_extension.Session.{postgres, evict, clear_session_vars}
use repo_extension.Session.Resolve.{
  get_row_by_session-Keeps, get_row-Keeps, bind_row-Keeps, publish_session_vars-Keeps,
}
use repo_extension.Discipline.{Allowed, Rely, Keeps, Always}
use repo_extension.Discipline.Steps.{
  Keeps-bind, Keeps-handle, Keeps-if, RowFits, rename_mapping-Keeps, delete_mapping-Keeps,
  evict-Keeps, wrapped-Keeps,
}
use repo_extension.Lifecycle.{
  LifecycleEvent, strp, ensure_bookmark_anchored, create_workspace, ensure_created, parent_bookmark,
  fork_workspace, ensure_forked, move_row, rename_in_repo, rename_workspace, ensure_renamed,
  delete_workspace, ensure_deleted, mirror, projected, handle_lifecycle_event,
}

pub ensure_bookmark-Keeps : (o r src b : Text) → Keeps Always (ensure_bookmark o r src b)
ensure_bookmark-Keeps o r src b =
    Effect.ensure_bookmark-Sound Allowed Rely (λ _. tt) (λ _. tt) o r src b

pub delete_bookmark-Keeps : (o r b : Text) → Keeps Always (delete_bookmark o r b)
delete_bookmark-Keeps o r b = Effect.delete_bookmark-Sound Allowed Rely (λ _. tt) (λ _. tt) o r b

pub ensure_repo-Keeps : (o r : Text) → Keeps Always (ensure_repo o r)
ensure_repo-Keeps o r = Effect.ensure_repo-Sound Allowed Rely (λ _. tt) (λ _. tt) o r

can_resolve-Keeps : (o r rev : Text) → Keeps Always (can_resolve o r rev)
can_resolve-Keeps o r rev = Effect.can_resolve-Sound Allowed Rely (λ _. tt) o r rev

-- Sequencing where nothing is known of the first result.
pub then-Keeps :
    {A B : Type 0} (Q : B → Type 0) (m : Prog A) (f : A → Prog B)
    → Keeps Always m
    → ((a : A) → Keeps Q (f a))
    → Keeps Q (m >>= f)
then-Keeps Q m f h hf = Keeps-bind Always Q m f h (λ a _. hf a)

pub row-Keeps :
    {A : Type 0} (Q : A → Type 0) (row : Option MapRow) (f : MapRow → Prog A) (n : Prog A)
    → ((x : MapRow) → Keeps Q (f x))
    → Keeps Q n
    → Keeps Q (elim row [ some x ↦ f x | none ↦ n ])
row-Keeps Q none f n hf hn = hn
row-Keeps Q (some x) f n hf hn = hf x

anchored-Keeps : (o r b : Text) → Keeps Always (ensure_bookmark_anchored o r b)
unfolding ensure_bookmark_anchored
anchored-Keeps o r b =
    then-Keeps Always (can_resolve o r (codes "main")) _ (can_resolve-Keeps o r (codes "main"))
      (λ x. ensure_bookmark-Keeps o r _ b)

module _ (o r b sid : Text) (spells : parse_session sid ≡ some (o, r, b)) where
  create_workspace-Keeps : Keeps Always (create_workspace o r b sid)
  unfolding create_workspace
  create_workspace-Keeps = then-Keeps Always (ensure_repo o r) _ (ensure_repo-Keeps o r) λ _.
      then-Keeps Always (ensure_bookmark_anchored o r b) _ (anchored-Keeps o r b)
        λ _. bind_row-Keeps o r b sid spells

  pub ensure_created-Keeps : Keeps Always (ensure_created o r b sid)
  unfolding ensure_created
  ensure_created-Keeps =
      Keeps-bind (RowFits (row_by_session sid)) Always _ _ (get_row_by_session-Keeps sid)
        λ row _. row-Keeps Always row _ _ (λ _. tt) create_workspace-Keeps

triple_of :
    (a b c o r : Text)
    → text_eq a o ≡ true
    → text_eq b r ≡ true
    → ◌≡◌ {A = Triple} (a, b, c) (o, r, c)
triple_of a b c o r h k = λ i. (eq_of_text_eq a o h i, eq_of_text_eq b r k i, c)

-- The guard on two repositories lets equal ones through.
pub same_repo :
    (a b c o r : Text)
    → (not (text_eq a o) || not (text_eq b r)) ≡ false
    → ◌≡◌ {A = Triple} (a, b, c) (o, r, c)
same_repo a b c o r h = triple_of a b c o r (ground arith) (ground arith)

pub parent_bookmark-Keeps : (o r sid : Text) → Keeps Always (parent_bookmark o r sid)
unfolding parent_bookmark
parent_bookmark-Keeps o r sid =
    Sound-option Allowed Rely Always (parse_session sid) _ _ (λ _. tt)
      λ v e.
        Keeps-if Always (not (text_eq v.0 o) || not (text_eq v.1 r)) _ _ (λ _. tt)
          λ g.
            let spells : parse_session sid ≡ some (o, r, v.2) =
              e ∙ ap (λ (x : Triple). some x) (same_repo v.0 v.1 v.2 o r g) in
            Keeps-bind (RowFits (row_at o r v.2)) Always _ _ (get_row-Keeps o r v.2) λ row _.
              row-Keeps Always row _ _ (λ _. tt)
                (then-Keeps Always (ensure_created o r v.2 sid) _
                  (ensure_created-Keeps o r v.2 sid spells) (λ _. tt))

module _ (o r b sid : Text) (spells : parse_session sid ≡ some (o, r, b)) (parent_sid : Text) where
  fork_workspace-Keeps : Keeps Always (fork_workspace o r b sid parent_sid)
  unfolding fork_workspace
  fork_workspace-Keeps =
      then-Keeps Always (parent_bookmark o r parent_sid) _ (parent_bookmark-Keeps o r parent_sid)
        λ p.
          then-Keeps Always (ensure_bookmark o r p b) _ (ensure_bookmark-Keeps o r p b)
            λ _. bind_row-Keeps o r b sid spells

  pub ensure_forked-Keeps : Keeps Always (ensure_forked o r b sid parent_sid)
  unfolding ensure_forked
  ensure_forked-Keeps =
      Keeps-bind (RowFits (row_by_session sid)) Always _ _ (get_row_by_session-Keeps sid)
        λ row _. row-Keeps Always row _ _ (λ _. tt) fork_workspace-Keeps

move_row-Keeps :
    (o r from_bm to_bm from_sid to_sid : Text)
    → parse_session to_sid ≡ some (o, r, to_bm)
    → Keeps Always (move_row o r from_bm to_bm from_sid to_sid)
unfolding move_row
move_row-Keeps o r from_bm to_bm from_sid to_sid h =
    Keeps-handle Always Always (Store.rename_mapping o r from_bm to_bm to_sid) _ _
      (rename_mapping-Keeps o r from_bm to_bm to_sid h)
      (λ _ _.
        then-Keeps Always (evict from_sid) _ (evict-Keeps from_sid)
          (λ _. delete_bookmark-Keeps o r from_bm))
      (λ e. Keeps-if Always (status_of e == 409) _ _ (λ _. tt) (λ _. tt))

in_repo-Keeps :
    (o r fb b : Text) (from_sid to_sid : Text)
    → parse_session to_sid ≡ some (o, r, b)
    → Keeps Always (rename_in_repo (o, r, fb) (o, r, b) from_sid to_sid)
unfolding rename_in_repo
in_repo-Keeps o r fb b from_sid to_sid h =
    Keeps-bind (RowFits (row_at o r fb)) Always _ _ (get_row-Keeps o r fb) λ row _.
      row-Keeps Always row _ _
        (λ x.
          then-Keeps Always (ensure_bookmark o r fb b) _ (ensure_bookmark-Keeps o r fb b)
            (λ _. move_row-Keeps o r fb b from_sid to_sid h))
        (ensure_created-Keeps o r b to_sid h)

rename_workspace-Keeps :
    (source dest : Triple) (from_sid to_sid : Text)
    → parse_session to_sid ≡ some dest
    → Keeps Always (rename_workspace source dest from_sid to_sid)
unfolding rename_workspace
rename_workspace-Keeps (fo, fr, fb) (o, r, b) from_sid to_sid h =
    Keeps-if Always (not (text_eq fo o) || not (text_eq fr r)) _ _ (λ _. tt)
      λ g.
        subst (λ v. Keeps Always (rename_in_repo v (o, r, b) from_sid to_sid))
          (sym (same_repo fo fr fb o r g)) (in_repo-Keeps o r fb b from_sid to_sid h)

pub ensure_renamed-Keeps : (from_sid to_sid : Text) → Keeps Always (ensure_renamed from_sid to_sid)
unfolding ensure_renamed
ensure_renamed-Keeps from_sid to_sid =
    Sound-option Allowed Rely Always (parse_session from_sid) _ _ (λ _. tt)
      λ source _.
        Sound-option Allowed Rely Always (parse_session to_sid) _ _ (λ _. tt)
          λ dest h. rename_workspace-Keeps source dest from_sid to_sid h

delete_workspace-Keeps : (v : Triple) (sid : Text) → Keeps Always (delete_workspace v sid)
unfolding delete_workspace
delete_workspace-Keeps (o, r, b) sid =
    Keeps-bind (RowFits (row_by_session sid)) Always _ _ (get_row_by_session-Keeps sid) λ row _.
      row-Keeps Always row _ _
        (λ x.
          then-Keeps Always _ _
            (then-Keeps Always (delete_bookmark o r b) _ (delete_bookmark-Keeps o r b) (λ _.
              wrapped-Keeps Always postgres (Store.delete_mapping o r b)
                (delete_mapping-Keeps o r b)))
            (λ _. evict-Keeps sid))
        tt

pub ensure_deleted-Keeps : (sid : Text) → Keeps Always (ensure_deleted sid)
unfolding ensure_deleted
ensure_deleted-Keeps sid =
    Sound-option Allowed Rely Always (parse_session sid) _ _ (λ _. tt)
      λ v _. delete_workspace-Keeps v sid

clear_session_vars-Keeps : (sid : Text) → Keeps Always (clear_session_vars sid)
unfolding clear_session_vars
clear_session_vars-Keeps sid = (tt, λ _ _. tt)

mirror-Keeps : (event : Text) (env : LifecycleEvent) → Keeps Always (mirror event env)
unfolding mirror
mirror-Keeps event env =
    Keeps-if Always (text_eq event (codes "created")) _ _
      (λ _.
        Sound-option Allowed Rely Always (parse_session env.session_name) _ _ (λ _. tt)
          λ v h. ensure_created-Keeps v.0 v.1 v.2 env.session_name h)
      λ _.
        Keeps-if Always (text_eq event (codes "forked")) _ _
          (λ _.
            Sound-option Allowed Rely Always (parse_session env.session_name) _ _ (λ _. tt)
              λ v h. ensure_forked-Keeps v.0 v.1 v.2 env.session_name h (strp env.parent))
          λ _.
            Keeps-if Always (text_eq event (codes "renamed")) _ _
              (λ _. ensure_renamed-Keeps (strp env.source) (strp env.destination))
              λ _.
                Keeps-if Always (text_eq event (codes "deleted")) _ _
                  (λ _. ensure_deleted-Keeps env.session_name) (λ _. tt)

pub handle_lifecycle_event-Keeps :
    (event : Text) (env : LifecycleEvent) → Keeps Always (handle_lifecycle_event event env)
unfolding handle_lifecycle_event
handle_lifecycle_event-Keeps event env =
    then-Keeps Always (mirror event env) _ (mirror-Keeps event env) λ _.
      Keeps-if Always (text_eq event (codes "deleted")) _ _
        (λ _. clear_session_vars-Keeps env.session_name)
        (λ _. publish_session_vars-Keeps (projected event env))
