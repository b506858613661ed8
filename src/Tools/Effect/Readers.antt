-- ===== src/Tools/Effect/Readers.antt =====
-- The tools that only read (tools.go: read, ls, grep, explore, git-graph, git-diff, git-blame, git-log,
-- git-show, mr-list, mr-view).
use repo_extension.Base.{ℕ, List, [], ◌∷◌}
use repo_extension.Base.Int.{ℤ}
use repo_extension.Base.Text.{Text, is_empty, codes}
use repo_extension.Errs.{Message}
use repo_extension.Json.{Fields, str_from, Items, nil, cons}
use repo_extension.Effects.{jjlab, Prog, ◌>>=◌}
use repo_extension.Jjlab.{get_repo_tree}
use repo_extension.Jjlab.Effect
use repo_extension.Jjlab.Effect.{Any}
use repo_extension.Jjlab.MergeRequests.{
  list_mrs, get_mr, mr_diff, list_mr_reviews, list_mr_comments,
}
use repo_extension.Tools.Host.{Host, Values, no_values, value, ToolResult, is_not_found}
use repo_extension.Tools.Files.{read, read_file_raw, Page, past_end, page, show_page}
use repo_extension.Tools.Listing.{ls}
use repo_extension.Tools.Listing.Exploring.{explore, show_orgs}
use repo_extension.Tools.Listing.Searching.{grep, show_matches}
use repo_extension.Tools.History.{blame, log, show_commits, CommitInfo}
use repo_extension.Tools.History.Graphs.{graph, show_graph}
use repo_extension.Tools.History.Patches.{diff, show_diff, show}
use repo_extension.Tools.Merges
use repo_extension.Tools.Merges.{list_open, show_mrs, view, view_fetched}
use repo_extension.Tools.Effect.{
  Policy, IsSafe, safe, returns, fails, decoded, handled, either, within, ef-IsSafe, say-IsSafe,
  get_json-IsSafe, in_workspace, at_ref, in_other,
}

module _ (p : Policy) (host : Host) where
  pub read_file_raw-IsSafe : (o r b path : Text) → IsSafe p (read_file_raw host o r b path)
  unfolding read_file_raw
  read_file_raw-IsSafe o r b path =
      within p _ _ (get_json-IsSafe p _) (λ v. decoded p _ _ _ (fails p _) (λ _. returns p _))

  show_page-IsSafe :
      (s path sha : Text) (size : ℤ) (lines : List Text) (offset : ℕ) (shown : Page)
      → IsSafe p (show_page s path sha size lines offset shown)
  unfolding show_page
  show_page-IsSafe s path sha size lines offset past_end = say-IsSafe p s _ _ _
  show_page-IsSafe s path sha size lines offset (page i e more) = returns p _

  pub read-IsSafe : (args : Fields) (s : Text) → IsSafe p (read host args s)
  unfolding read
  read-IsSafe args s = at_ref p host args s _ λ (o, r, b).
      either p (is_empty (host.arg_string args "path")) _ _ (ef-IsSafe p s _ _) (
        handled p _ _ _ (read_file_raw-IsSafe o r b (host.arg_string args "path"))
          (λ (raw_text, sha, size). show_page-IsSafe s _ _ _ _ _ _)
          (λ e. either p (is_not_found e) _ _ (say-IsSafe p s _ _ _) (ef-IsSafe p s _ _)))

  pub ls-IsSafe : (args : Fields) (s : Text) → IsSafe p (ls host args s)
  unfolding ls
  ls-IsSafe args s =
      at_ref p host args s _ λ (o, r, b).
        handled p _ _ _ (get_json-IsSafe p _) (λ _. returns p _) (λ e. ef-IsSafe p s _ _)

  show_matches-IsSafe :
      (s b pattern : Text) (max : ℤ) (ms : List Text)
      → IsSafe p (show_matches host s b pattern max ms)
  unfolding show_matches
  show_matches-IsSafe s b pattern max [] = say-IsSafe p s _ _ _
  show_matches-IsSafe s b pattern max (m ∷ ms) = returns p _

  pub grep-IsSafe : (args : Fields) (s : Text) → IsSafe p (grep host args s)
  unfolding grep
  grep-IsSafe args s = at_ref p host args s _ λ (o, r, b).
      either p (is_empty (host.arg_string args "pattern")) _ _ (ef-IsSafe p s _ _) (
        handled p _ _ _ (get_json-IsSafe p _) (λ v. show_matches-IsSafe s _ _ _ _)
          (λ e. ef-IsSafe p s _ _))

  pub tree-IsSafe : IsSafe p get_repo_tree
  tree-IsSafe = safe p get_repo_tree (Effect.get_repo_tree-Sound p.Allowed p.Rely (p.lookups jjlab))

  show_orgs-IsSafe :
      (s : Text) (lines : List Message) (meta : Values) → IsSafe p (show_orgs s lines meta)
  unfolding show_orgs
  show_orgs-IsSafe s lines no_values = say-IsSafe p s _ _ _
  show_orgs-IsSafe s lines (value v meta) = returns p _

  pub explore-IsSafe : (args : Fields) (s : Text) → IsSafe p (explore host args s)
  unfolding explore
  explore-IsSafe args s =
      handled p get_repo_tree _ _ tree-IsSafe (λ tree. show_orgs-IsSafe s _ _)
        (λ e. ef-IsSafe p s _ _)

  show_graph-IsSafe : (s : Text) (items : Items) → IsSafe p (show_graph s items)
  unfolding show_graph
  show_graph-IsSafe s nil = say-IsSafe p s _ _ _
  show_graph-IsSafe s (cons e rest) = returns p _

  pub graph-IsSafe : (args : Fields) (s : Text) → IsSafe p (graph host args s)
  unfolding graph
  graph-IsSafe args s = at_ref p host args s _ λ (o, r, b).
      handled p _ _ _ (get_json-IsSafe p _) (λ v. show_graph-IsSafe s _) (λ e. ef-IsSafe p s _ _)

  show_diff-IsSafe : (s path a b whole : Text) → IsSafe p (show_diff host s path a b whole)
  unfolding show_diff
  show_diff-IsSafe s path a b whole = either p _ _ _ (say-IsSafe p s _ _ _) (say-IsSafe p s _ _ _)

  pub diff-IsSafe : (args : Fields) (s : Text) → IsSafe p (diff host args s)
  unfolding diff
  diff-IsSafe args s = in_other p host args s _ λ (o, r, b). either p _ _ _ (ef-IsSafe p s _ _) (
      handled p _ _ _ (get_json-IsSafe p _)
        (λ v.
          show_diff-IsSafe s (host.arg_string args "path") (host.arg_string args "rev-a")
            (host.arg_string args "rev-b") (str_from v (codes "diff")))
        (λ e. ef-IsSafe p s _ _))

  pub blame-IsSafe : (args : Fields) (s : Text) → IsSafe p (blame host args s)
  unfolding blame
  blame-IsSafe args s = in_other p host args s _ λ (o, r, b).
      either p _ _ _ (ef-IsSafe p s _ _)
        (handled p _ _ _ (get_json-IsSafe p _) (λ v. returns p _) (λ e. ef-IsSafe p s _ _))

  show_commits-IsSafe : (s : Text) (cs : List CommitInfo) → IsSafe p (show_commits s cs)
  unfolding show_commits
  show_commits-IsSafe s [] = say-IsSafe p s _ _ _
  show_commits-IsSafe s (c ∷ cs) = returns p _

  pub log-IsSafe : (args : Fields) (s : Text) → IsSafe p (log host args s)
  unfolding log
  log-IsSafe args s = in_workspace p s _ λ (o, r, b) _.
      handled p _ _ _ (get_json-IsSafe p _) (λ v. show_commits-IsSafe s _) (λ e. ef-IsSafe p s _ _)

  pub show-IsSafe : (args : Fields) (s : Text) → IsSafe p (show host args s)
  unfolding show
  show-IsSafe args s = in_workspace p s _ λ (o, r, b) _. either p _ _ _ (ef-IsSafe p s _ _) (
      handled p _ _ _ (get_json-IsSafe p _)
        (λ v. either p _ _ _ (say-IsSafe p s _ _ _) (say-IsSafe p s _ _ _))
        (λ e. ef-IsSafe p s _ _))

  show_mrs-IsSafe : (s state : Text) (items : Items) → IsSafe p (show_mrs s state items)
  unfolding show_mrs
  show_mrs-IsSafe s state nil = say-IsSafe p s _ _ _
  show_mrs-IsSafe s state (cons e rest) = returns p _

  pub list_open-IsSafe : (args : Fields) (s : Text) → IsSafe p (list_open host args s)
  unfolding list_open list_mrs
  list_open-IsSafe args s = in_workspace p s _ λ (o, r, b) _.
      handled p _ _ _ (within p _ _ (get_json-IsSafe p _) (λ _. returns p _))
        (λ items. show_mrs-IsSafe s _ items) (λ e. ef-IsSafe p s _ _)

  pub get_mr-IsSafe : (o r : Text) (n : _) → IsSafe p (get_mr o r n)
  unfolding get_mr
  get_mr-IsSafe o r n =
      within p _ _ (get_json-IsSafe p _) (λ v. decoded p _ _ _ (returns p v) (λ m. returns p m))

  -- A part of mr-view.
  part-IsSafe :
      {A : Type 0} (m : Prog A) (f : A → List Message) (g : List Message → Prog ToolResult)
      → IsSafe p m
      → ((ls : List Message) → IsSafe p (g ls))
      → IsSafe p (Merges.or_nothing m f >>= g)
  part-IsSafe m f g hm hg =
      within p _ _ (handled p m _ _ hm (λ _. returns p _) (λ _. returns p _)) hg

  view_fetched-IsSafe : (o r : Text) (n : _) (mr : Fields) → IsSafe p (view_fetched host o r n mr)
  unfolding view_fetched mr_diff list_mr_reviews list_mr_comments
  view_fetched-IsSafe o r n mr = part-IsSafe _ _ _ (get_json-IsSafe p _) λ _.
      part-IsSafe _ _ _ (within p _ _ (get_json-IsSafe p _) (λ _. returns p _)) λ _.
        part-IsSafe _ _ _ (within p _ _ (get_json-IsSafe p _) (λ _. returns p _)) (λ _. returns p _)

  pub view-IsSafe : (args : Fields) (s : Text) → IsSafe p (view host args s)
  unfolding view
  view-IsSafe args s = in_workspace p s _ λ (o, r, b) _.
      either p _ _ _
        (handled p _ _ _ (get_mr-IsSafe o r _) (view_fetched-IsSafe o r _) (λ e. ef-IsSafe p s _ _))
        (ef-IsSafe p s _ _)
