-- ===== src/Lifecycle/Renaming.antt =====
-- What a rename leaves (events_sub.go: ensureRenamed).
use mathlib.Core.Path.{subst}
use repo_extension.Base.{
  ◌≡◌, sym, Bool, true, false, not, ◌||◌, Option, none, some, List, [], ◌∷◌, ◌==◌, if◌then◌else◌,
  inl, inr, Bool-cases, Option-cases,
}
use repo_extension.Base.Text.{Text, text_eq}
use repo_extension.Base.Lists.{All, Member, any}
use repo_extension.Names.{Triple, parse_session}
use repo_extension.Errs.{ok, status_of, err_downstream}
use repo_extension.Effects.{
  MapRow, row_at, ret, fail, handle, ◌>>◌, downstream, ExecReply, affected, unique_violation,
  exec_failed,
}
use repo_extension.Effects.World.{
  Net, World, Fate, done, refused, unacked, fate_now, exec_reply as exec_reply_of, exec_tables,
  perform, perform_exec, perform_cache, run,
}
use repo_extension.Effects.Run.{
  run-bind, Ends, Ends-ok, Ends_of_ok, IsNetwork, AnyAnswer, run-SameData_ok,
}
use repo_extension.Store
use repo_extension.Store.{rename_reply}
use repo_extension.Store.Tables.{
  Tables, is_at, clashes, moved, others, update_at, find, apply_rename, apply_exec,
}
use repo_extension.Store.Unique.{find_sound, moved-eq-target, target}
use repo_extension.Jjlab.{ensure_bookmark, delete_bookmark}
use repo_extension.Jjlab.Effect
use repo_extension.Jjlab.Effect.{Any}
use repo_extension.Discipline.{IsNamed, IsConsistent}
use repo_extension.Discipline.Rows.{member_of_All}
use repo_extension.Session.{mapping, postgres, evict}
use repo_extension.Session.Binding.{Bound, named-eq-mapping, any-Member, lookup_tables}
use repo_extension.Lifecycle.{move_row, rename_in_repo, rename_workspace, ensure_renamed}
use repo_extension.Lifecycle.Keeping.{same_repo}
use repo_extension.Lifecycle.Binding.{network_then, created_ends}
use repo_extension.Lifecycle.Removal.{Member-of_keep}

-- The row that an UPDATE finds is in the table behind it, moved.
Member-update_at :
    (o r from_bm to_bm to_sid : Text) (rows : List MapRow) (x : MapRow)
    → find (is_at o r from_bm) rows ≡ some x
    → Member (target o r to_bm to_sid) (update_at o r from_bm (moved to_bm to_sid) rows)
Member-update_at o r from_bm to_bm to_sid [] x h = cc
Member-update_at o r from_bm to_bm to_sid (y ∷ rows) x h = elim (Bool-cases (is_at o r from_bm y)) [
  | inl e ↦ rw e (inl (moved-eq-target o r from_bm to_bm to_sid y e))
  | inr e ↦ inr (Member-update_at o r from_bm to_bm to_sid rows x (rw e at h))
]

-- What the acknowledged outcomes of the UPDATE have in common.
abbrev Acknowledged : ExecReply → Type 0
Acknowledged (affected n) = (n == 0) ≡ false
Acknowledged unique_violation = Unit
Acknowledged (exec_failed m) = ⊥

module _ (o r from_bm to_bm to_sid : Text)
    (spells : parse_session to_sid ≡ some (o, r, to_bm)) where
  apply_rename-Member :
      (t : Tables)
      → All IsNamed t.rows
      → Acknowledged (apply_rename o r from_bm to_bm to_sid t).0
      → Member (mapping o r to_bm to_sid) (apply_rename o r from_bm to_bm to_sid t).1.rows
  unfolding apply_rename
  apply_rename-Member t n h = elim (Option-cases (find (is_at o r from_bm) t.rows)) [
    | inl e ↦ let none_found : ◌≡◌ {A = Bool} true false = rw (e, apply_rename) at h in cc
    | inr (x, e) ↦
        let m =
          moved-eq-target o r from_bm to_bm to_sid x
            (find_sound o r from_bm to_bm to_sid t.rows x e) in
        elim (Bool-cases (any (clashes (target o r to_bm to_sid)) (others o r from_bm t.rows))) [
          | inl c ↦
              let (y, k, q) =
                any-Member (clashes (target o r to_bm to_sid)) (others o r from_bm t.rows) c in
              let (k', _) = Member-of_keep (λ z. not (is_at o r from_bm z)) t.rows y k in
              let same =
                named-eq-mapping o r to_bm to_sid y spells (member_of_All IsNamed t.rows y n k')
                  q in
              rw (e, apply_rename, m, c) (subst (λ z. Member z t.rows) same k')
          | inr c ↦
              rw (e, apply_rename, m, c) (Member-update_at o r from_bm to_bm to_sid t.rows x e)
        ]
  ]

  Acknowledged-rows :
      (f : Fate) (t : Tables)
      → All IsNamed t.rows
      → Acknowledged (exec_reply_of f (apply_rename o r from_bm to_bm to_sid t).0)
      → Member
          (mapping o r to_bm to_sid)
          (exec_tables f t (apply_rename o r from_bm to_bm to_sid t).1).rows
  Acknowledged-rows done t n h = apply_rename-Member t n h
  Acknowledged-rows refused t n h = absurd h
  Acknowledged-rows unacked t n h = absurd h

  module _ {R : Type 0} (net : Net R) (from_sid : Text) where
    abbrev Q : Unit {0} → World R → Type 0
    Q _ w = Bound to_sid (o, r, to_bm) w

    after_move :
        (w : World R)
        → Q tt w
        → Ends net Q (run net (evict from_sid >> delete_bookmark o r from_bm) w)
    unfolding run perform perform_cache
    after_move w h = Ends_of_ok net Q (delete_bookmark o r from_bm) _ λ _ w2 e2.
        subst (λ t. Member (mapping o r to_bm to_sid) t.rows)
          (sym
            (run-SameData_ok net Any (delete_bookmark o r from_bm) _ w2 (ok tt)
              (Effect.delete_bookmark-Sound IsNetwork AnyAnswer (λ _. tt) (λ _. tt) o r from_bm)
              e2).same_tables)
          h

    after_reply :
        (x : ExecReply) (w : World R)
        → (Acknowledged x → Q tt w)
        → Ends net Q (
            run net
              (handle
                (rename_reply x)
                (λ _. evict from_sid >> delete_bookmark o r from_bm)
                (λ e. if status_of e == 409 then ret tt else fail (err_downstream postgres e)))
              w)
    unfolding run
    after_reply (affected n) w h = elim (Bool-cases (n == 0)) [
      | inl e ↦ rw e tt
      | inr e ↦ rw e (after_move w (h e))
    ]
    after_reply unique_violation w h = h tt
    after_reply (exec_failed m) w h = tt

    move_ends :
        (w : World R)
        → All IsNamed w.tables.rows
        → Ends net Q (run net (move_row o r from_bm to_bm from_sid to_sid) w)
    unfolding run perform perform_exec apply_exec move_row Store.rename_mapping
    move_ends w n = after_reply _ _ (λ h. Acknowledged-rows (fate_now w.fates) w.tables n h)

module _ {R : Type 0} (net : Net R) (from_sid to_sid o r b : Text)
    (spells : parse_session to_sid ≡ some (o, r, b)) where
  IsNamed-behind :
      (w w1 : World R) (row : Option MapRow) (fb : Text)
      → run net (downstream postgres (Store.get_row o r fb)) w ≡ (ok row, w1)
      → All IsNamed w.tables.rows
      → All IsNamed w1.tables.rows
  unfolding Store.get_row
  IsNamed-behind w w1 row fb e n =
      subst (λ t. All IsNamed t.rows) (sym (lookup_tables net (row_at o r fb) w w1 row e)) n

  in_repo_ends :
      (fb : Text) (w : World R)
      → All IsNamed w.tables.rows
      → Ends net
          (λ _ u. Bound to_sid (o, r, b) u)
          (run net (rename_in_repo (o, r, fb) (o, r, b) from_sid to_sid) w)
  unfolding rename_in_repo Store.get_row
  in_repo_ends fb w n =
      run-bind net (λ _ u. Bound to_sid (o, r, b) u) (downstream postgres (Store.get_row o r fb)) _
        w
        (elim [
          | none ↦ λ w1 e. created_ends net o r b to_sid spells w1 (IsNamed-behind w w1 none fb e n)
          | some x ↦ λ w1 e.
              network_then net (λ _ u. Bound to_sid (o, r, b) u) (ensure_bookmark o r fb b) _ w1
                (Effect.ensure_bookmark-Sound IsNetwork AnyAnswer (λ _. tt) (λ _. tt) o r fb b)
                (IsNamed-behind w w1 (some x) fb e n)
                (λ _ w2 n2. move_ends o r fb b to_sid spells net from_sid w2 n2)
        ])

  rename_ends :
      (source : Triple) (w : World R)
      → All IsNamed w.tables.rows
      → Ends net
          (λ _ u. Bound to_sid (o, r, b) u)
          (run net (rename_workspace source (o, r, b) from_sid to_sid) w)
  unfolding rename_workspace run
  rename_ends (fo, fr, fb) w n = elim (Bool-cases (not (text_eq fo o) || not (text_eq fr r))) [
    | inl g ↦ rw (g, rename_workspace) tt
    | inr g ↦
        rw (g, rename_workspace)
          (subst
            (λ v.
              Ends net (λ _ u. Bound to_sid (o, r, b) u)
                (run net (rename_in_repo v (o, r, b) from_sid to_sid) w))
            (sym (same_repo fo fr fb o r g)) (in_repo_ends fb w n))
  ]

  -- In a consistent world, when a rename to a session that spells (o, r, b) succeeds, whatever the
  -- faults on the way, the table holds the row that binds the new session: also when the old session
  -- had no row, and when the success is a conflict that was taken for a rename that already won.
  pub ensure_renamed-Bound :
      (w w' : World R)
      → IsConsistent w
      → run net (ensure_renamed from_sid to_sid) w ≡ (ok tt, w')
      → Bound to_sid (o, r, b) w'
  unfolding ensure_renamed run
  ensure_renamed-Bound w w' c e = elim (Option-cases (parse_session from_sid)) [
    | inl q ↦ cc (rw (q, ensure_renamed) at e)
    | inr (source, q) ↦
        Ends-ok net (λ _ u. Bound to_sid (o, r, b) u)
          (rename_workspace source (o, r, b) from_sid to_sid) w tt w' (rename_ends source w c.named)
          (rw (q, spells, ensure_renamed) at e)
  ]
