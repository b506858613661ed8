-- ===== src/Reconcile.antt =====
-- reconcile.go: one round of the reconciler, and the loop around it as the list of its wake-ups. The
-- log lines are not modelled; the maps of Go are lists, in the order of an iteration.
pub mod Keeping
pub mod Kept
pub mod ReadOnly
pub mod Rows
pub mod Repair
pub mod Backfill
pub mod Round
pub mod Tidy
pub mod Managed
pub mod Eventually
use repo_extension.Base.{
  ℕ, String, Bool, true, false, not, Option, none, some, List, [], ◌∷◌, ◌==◌, if◌then◌else◌,
}
use repo_extension.Base.Text.{Text, codes, text_eq}
use repo_extension.Base.Int.{ℤ, pos, less}
use repo_extension.Base.Lists.{any}
use repo_extension.Names.{Triple, parse_session}
use repo_extension.Errs.{Err, Message, format, ◌%s◌, ◌%v◌, plain, message_of, is_permanent}
use repo_extension.Effects.{MapRow, Prog, ret, fail, call, handle, ◌>>=◌, ◌>>◌, downstream}
use repo_extension.Store.{list_managed, list_rows_for_repo, list_all_rows, delete_mapping}
use repo_extension.Jjlab.{get_repo_tree}
use repo_extension.Jjlab.Tree.{RepoTree, bookmark_exists}
use repo_extension.Agent
use repo_extension.Session.{postgres, evict}
use repo_extension.Lifecycle.{ensure_created}

abbrev pub has_text : Text → List Text → Bool
has_text s xs = any (λ x. text_eq x s) xs

-- fmt.Errorf("…: %w", err)
abbrev wrap : {A : Type 0} → Message → Prog A → Prog A
wrap m p = handle p ret (λ e. fail (plain (m %v message_of e)))

-- The two cases of the switch, for a row of the managed repository `m`: the bookmark is gone, or
-- the session is.
unfoldable pub is_stale : RepoTree → List Text → MapRow → MapRow → Bool
is_stale tree sessions m row =
    if bookmark_exists tree m.org m.repo row.bookmark
    then not (has_text row.session_name sessions)
    else true

unfoldable pub unmap : MapRow → Prog Unit
unmap row = do
  downstream postgres (delete_mapping row.org row.repo row.bookmark)
  evict row.session_name

unfoldable pub converge_rows : RepoTree → List Text → MapRow → List MapRow → Prog Unit
unfolding is_stale unmap
converge_rows tree sessions m [] = ret tt
converge_rows tree sessions m (row ∷ rows) =
    let rest = converge_rows tree sessions m rows in
    if is_stale tree sessions m row then unmap row >> rest else rest

unfoldable pub converge_repos : RepoTree → List Text → List MapRow → Prog Unit
unfolding converge_rows
converge_repos tree sessions [] = ret tt
converge_repos tree sessions (m ∷ managed) =
    wrap (format "list rows %s/%s: %w" %s m.org %s m.repo) (list_rows_for_repo m.org m.repo)
    >>= λ rows. converge_rows tree sessions m rows >> converge_repos tree sessions managed

unfoldable pub converge_drift : List Text → Prog Unit
unfolding converge_repos
converge_drift sessions = do
  managed ← wrap (format "list managed: %w") list_managed
  elim managed [
    | [] ↦ ret tt
    | m ∷ rest ↦ get_repo_tree >>= λ tree. converge_repos tree sessions (m ∷ rest)
  ]

abbrev pub is_mapped : List MapRow → Text → Bool
is_mapped rows name = any (λ row. text_eq row.session_name name) rows

unfoldable pub backfill_one : List MapRow → Text → Prog Unit
backfill_one rows name = if is_mapped rows name then ret tt else elim (parse_session name) [
  | none ↦ ret tt
  | some (org, repo, bm) ↦
      handle (ensure_created org repo bm name) ret (λ e. if is_permanent e then ret tt else fail e)
]

unfoldable pub backfill_names : List MapRow → List Text → Prog Unit
unfolding backfill_one
backfill_names rows [] = ret tt
backfill_names rows (name ∷ names) = backfill_one rows name >> backfill_names rows names

unfoldable pub backfill_workspaces : List Text → Prog Unit
unfolding backfill_names
backfill_workspaces sessions = do
  rows ← downstream postgres list_all_rows
  backfill_names rows sessions

unfoldable pub reconcile_once : Prog Unit
reconcile_once = do
  sessions ← Agent.list_sessions
  converge_drift sessions
  backfill_workspaces sessions

-- What the select of runReconciler meets next.
pub data Wakeup : Type 0 where
  cancelled ticked : Wakeup

-- A round that fails is logged, and the loop goes on.
unfoldable pub reconcile_round : Prog Unit
reconcile_round = handle reconcile_once ret (λ _. ret tt)

unfoldable pub run_reconciler : List Wakeup → Prog Unit
unfolding reconcile_round
run_reconciler [] = ret tt
run_reconciler (cancelled ∷ wakeups) = ret tt
run_reconciler (ticked ∷ wakeups) = reconcile_round >> run_reconciler wakeups

-- 60 seconds, in nanoseconds.
abbrev default_interval : ℤ
default_interval = pos 60_000_000_000

unfoldable pub reconcile_interval : ℤ → ℤ
unfolding less
reconcile_interval interval = if less (pos 0) interval then interval else default_interval
