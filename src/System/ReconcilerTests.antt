-- ===== src/System/ReconcilerTests.antt =====
-- The theorems on the reconciler's loop at work on one small server.
use mathlib.Core.Path.{subst}
use repo_extension.Base.{
  some, ◌&&◌, false, ◌≡◌, refl, sym, ap, ◌∙◌, [], ◌∷◌, inl, inr, arith, some_inj,
}
use repo_extension.Base.Text.{text_eq, codes, split}
use repo_extension.Base.Lists.{any}
use repo_extension.Names.{Triple, parse_session}
use repo_extension.Errs.{ok}
use repo_extension.Effects.World.{World, refused, unacked, run, perform}
use repo_extension.Json
use repo_extension.Jjlab
use repo_extension.Jjlab.{get_repo_tree, ensure_repo}
use repo_extension.Jjlab.Tree
use repo_extension.Agent
use repo_extension.Session.Binding.{Bound}
use repo_extension.Lifecycle.{ensure_bookmark_anchored}
use repo_extension.Reconcile.{run_reconciler}
use repo_extension.Reconcile.Repair.{IsServing}
use repo_extension.Reconcile.Eventually.{ticks, run_reconciler-converges}
use repo_extension.Reconcile.Tidy.{is_orphaned}
use repo_extension.Session.{mapping}
use repo_extension.Store.Tables.{repo_row, in_repo}
use repo_extension.Cache.{new_sess_cache}
use repo_extension.System.Fixture.{org, repo, bookmark, sid, net, spells, reorders}

lists_sid :
    (w : World Unit) → (w' : World Unit) × (run net Agent.list_sessions w ≡ (ok (sid ∷ []), w'))
unfolding run perform Agent.list_sessions Agent.session_names Json.get Json.str_from text_eq
lists_sid w = (w, refl)

shows_tree :
    (w : World Unit)
    → (tree : Tree.RepoTree) × (w' : World Unit) × (run net get_repo_tree w ≡ (ok tree, w'))
unfolding run perform get_repo_tree Jjlab.scan_orgs Json.get Json.str_from text_eq Tree.put_org
    Tree.put_repo Tree.to_bookmarks
shows_tree w = (_, w, refl)

makes_workspace :
    (w : World Unit)
    → (w1 w2 : World Unit) × (run net (ensure_repo org repo) w ≡ (ok tt, w1))
      × (run net (ensure_bookmark_anchored org repo bookmark) w1 ≡ (ok tt, w2))
unfolding run perform ensure_repo ensure_bookmark_anchored Jjlab.can_resolve Jjlab.ensure_bookmark
    Jjlab.get_repo_tree Json.get Json.str_from text_eq Tree.bookmark_exists Tree.repo_exists
    Tree.put_org Tree.put_repo Tree.to_bookmarks
makes_workspace w = (w, w, refl, refl)

abbrev Makes : World Unit → Triple → Type 0
Makes w (o, r, b) =
    (w1 w2 : World Unit) × (run net (ensure_repo o r) w ≡ (ok tt, w1))
    × (run net (ensure_bookmark_anchored o r b) w1 ≡ (ok tt, w2))

serves : IsServing net (sid ∷ [])
serves = record {
  lists = lists_sid;
  shows = shows_tree;
  makes = λ s o r b m n w. elim m [
    | inl same ↦
        subst (Makes w)
          (some_inj (org, repo, bookmark) (o, r, b) (sym spells ∙ ap parse_session same ∙ n))
          (makes_workspace w)
    | inr absent ↦ absurd absent
  ];
}

-- The repository is managed, with a row of a session that the agent does not list.
abbrev drifted : World Unit
drifted = record {
  tables = record {
    rows = mapping org repo (codes "x") (codes "o:r:x") ∷ [];
    managed = repo_row org repo ∷ [];
    executed = [];
  };
  cache = new_sess_cache 5;
  now = 0;
  fates = refused ∷ unacked ∷ [];
  remote = tt;
}

spells_x : parse_session (codes "o:r:x") ≡ some (org, repo, codes "x")
unfolding parse_session split
spells_x = refl

run_reconciler-converges_example :
    (w1 : World Unit) × (run net (run_reconciler (ticks 3)) drifted ≡ (ok tt, w1))
    × Bound sid (org, repo, bookmark) w1
    × ((any (in_repo org repo) drifted.tables.managed
          && any (is_orphaned (sid ∷ []) (repo_row org repo)) w1.tables.rows)
        ≡ false)
run_reconciler-converges_example =
    run_reconciler-converges net (sid ∷ []) serves reorders 3 drifted
      (record { named = (spells_x, tt); unique = (tt, tt); cached = tt }) (omega arith) sid org repo
      bookmark org repo (inl refl) spells
