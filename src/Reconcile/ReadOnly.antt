-- ===== src/Reconcile/ReadOnly.antt =====
-- What the convergence of drift may touch (reconcile.go: convergeDrift).
use repo_extension.Base.{List, [], ◌∷◌}
use repo_extension.Base.Text.{Text}
use repo_extension.Errs.{Message}
use repo_extension.Effects.{
  Eff, http, select, exec, cache, ext, jjlab, agent, Method, get, Exec, delete_row, CacheCall,
  evict_entry, MapRow, Select, SelectReply, selected, select_failed, ExecReply, affected,
  unique_violation, exec_failed, Prog, ◌>>=◌, downstream, rows_for_repo, all_managed,
}
use repo_extension.Effects.Sound.{
  Sound, Sound-bind, Sound-then, Sound-if, Sound-handle, Sound-downstream,
}
use repo_extension.Effects.Run.{AnyAnswer}
use repo_extension.Store
use repo_extension.Store.{list_rows, rows_reply, exec_reply}
use repo_extension.Jjlab.Effect
use repo_extension.Jjlab.Effect.{Any}
use repo_extension.Jjlab.Tree.{RepoTree}
use repo_extension.Session.{postgres}
use repo_extension.Reconcile.{wrap, is_stale, unmap, converge_rows, converge_repos, converge_drift}

abbrev IsRead : Method → Type 0
IsRead get = Unit
IsRead _ = ⊥

abbrev IsRowDeletion : Exec → Type 0
IsRowDeletion (delete_row _ _ _) = Unit
IsRowDeletion _ = ⊥

abbrev IsEviction : CacheCall → Type 0
IsEviction (evict_entry _) = Unit
IsEviction _ = ⊥

-- Reads of jjlab and of the table, deletions of single mapping rows, and evictions.
abbrev pub IsCareful : Eff → Type 0
IsCareful (http jjlab q) = IsRead q.method
IsCareful (http agent q) = ⊥
IsCareful (select q) = Unit
IsCareful (exec x) = IsRowDeletion x
IsCareful (cache c) = IsEviction c
IsCareful (ext c) = ⊥

abbrev pub Careful : {A : Type 0} → Prog A → Type 0
Careful m = Sound IsCareful AnyAnswer Any m

exec_reply-Careful : (r : ExecReply) → Careful (exec_reply r)
exec_reply-Careful (affected n) = tt
exec_reply-Careful unique_violation = tt
exec_reply-Careful (exec_failed m) = tt

rows_reply-Careful : (r : SelectReply) → Careful (rows_reply r)
rows_reply-Careful (selected rows) = tt
rows_reply-Careful (select_failed m) = tt

unmap-Careful : (row : MapRow) → Careful (unmap row)
unfolding unmap Store.delete_mapping
unmap-Careful row =
    Sound-bind IsCareful AnyAnswer Any Any
      (downstream postgres (Store.delete_mapping row.org row.repo row.bookmark)) _
      (Sound-downstream IsCareful AnyAnswer Any postgres
        (Store.delete_mapping row.org row.repo row.bookmark) (tt, λ r _. exec_reply-Careful r))
      (λ _ _. (tt, λ _ _. tt))

converge_rows-Careful :
    (tree : RepoTree) (sessions : List Text) (m : MapRow) (rows : List MapRow)
    → Careful (converge_rows tree sessions m rows)
unfolding converge_rows
converge_rows-Careful tree sessions m [] = tt
converge_rows-Careful tree sessions m (row ∷ rows) =
    Sound-if IsCareful AnyAnswer Any (is_stale tree sessions m row) _ _
      (λ _.
        Sound-then IsCareful AnyAnswer Any Any (unmap row) _ (unmap-Careful row)
          (converge_rows-Careful tree sessions m rows))
      (λ _. converge_rows-Careful tree sessions m rows)

listed-Careful :
    {B : Type 0} (q : Select) (what : Message) (f : List MapRow → Prog B)
    → ((rows : List MapRow) → Careful (f rows))
    → Careful (wrap what (list_rows q) >>= f)
listed-Careful q what f hf =
    Sound-bind IsCareful AnyAnswer Any Any (wrap what (list_rows q)) f
      (Sound-handle IsCareful AnyAnswer Any Any (list_rows q) _ _ (tt, λ r _. rows_reply-Careful r)
        (λ _ _. tt) (λ _. tt))
      (λ rows _. hf rows)

converge_repos-Careful :
    (tree : RepoTree) (sessions : List Text) (managed : List MapRow)
    → Careful (converge_repos tree sessions managed)
unfolding converge_repos Store.list_rows_for_repo
converge_repos-Careful tree sessions [] = tt
converge_repos-Careful tree sessions (m ∷ managed) =
    listed-Careful (rows_for_repo m.org m.repo) _ _ λ rows.
      Sound-then IsCareful AnyAnswer Any Any (converge_rows tree sessions m rows) _
        (converge_rows-Careful tree sessions m rows) (converge_repos-Careful tree sessions managed)

-- Whatever the services, the database and the cache answer, each call of the convergence of drift is a
-- GET to jjlab, a query, the deletion of one mapping row or an eviction: it calls neither the agent nor
-- the message bus and changes nothing at jjlab.
pub converge_drift-Careful : (sessions : List Text) → Careful (converge_drift sessions)
unfolding converge_drift Store.list_managed
converge_drift-Careful sessions = listed-Careful all_managed _ _ (elim [
  | [] ↦ tt
  | m ∷ rest ↦
      Sound-bind IsCareful AnyAnswer Any Any _ _
        (Effect.get_repo_tree-Sound IsCareful AnyAnswer (λ _. tt))
        (λ tree _. converge_repos-Careful tree sessions (m ∷ rest))
])
