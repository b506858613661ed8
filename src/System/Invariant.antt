-- ===== src/System/Invariant.antt =====
-- The states that the server reaches (main.go), under the discipline of its programs.
use mathlib.Core.Path.{subst}
use repo_extension.Base.{◌≡◌, sym, some, List, [], ◌∷◌, ◌++◌}
use repo_extension.Base.Lists.{All}
use repo_extension.Names.{parse_session}
use repo_extension.Effects.{ret, fail, call}
use repo_extension.Effects.World.{Net, World, perform}
use repo_extension.Store.Distinct.{Distinct, Unique-Distinct}
use repo_extension.Discipline.{Keeps, Always, IsConsistent, IsNamed, IsNamedEntry}
use repo_extension.Discipline.Rows.{IsReordering}
use repo_extension.Discipline.Steps.{Keeps-bind}
use repo_extension.Discipline.Perform.{perform-IsConsistent}
use repo_extension.Session.Resolve.{Spells, resolve_session-Keeps}
use repo_extension.Lifecycle.Keeping.{handle_lifecycle_event-Keeps, then-Keeps}
use repo_extension.Reconcile.Keeping.{reconcile_once-Keeps}
use repo_extension.Worksheets.{on_call_hook}
use repo_extension.Worksheets.Keeping.{on_call_hook-Keeps}
use repo_extension.Surface.{ensure_bookmark_session}
use repo_extension.Surface.Ensuring.{Ensured, ensure_bookmark_session-Keeps}
use repo_extension.Tools.Dispatch.{execute}
use repo_extension.Tools.Effect.Keeping.{execute-Keeps}
use repo_extension.System.{
  Task, background, resolving, Started, on_lifecycle, on_tick, on_hook, on_ensure, on_call, on_tool,
  System, Turn, background_turn, resolving_turn, Step, start, act, outside, restart, Reach, here,
  next, IsPlain, StartsPlain, AllPlain,
}

abbrev IsDisciplined : Task → Type 0
IsDisciplined (background p) = Keeps Always p
IsDisciplined (resolving sid p) = Keeps (Spells sid) p

Started-IsDisciplined : (t : Task) (h : Started t) → IsPlain h → IsDisciplined t
Started-IsDisciplined _ (on_lifecycle event env) plain = handle_lifecycle_event-Keeps event env
Started-IsDisciplined _ on_tick plain = reconcile_once-Keeps
Started-IsDisciplined _ (on_hook hook session args) h =
    then-Keeps Always (on_call_hook hook session args) _ (on_call_hook-Keeps hook session args h)
      (λ _. tt)
Started-IsDisciplined _ (on_ensure o r b) h =
    Keeps-bind (Ensured o r b) Always (ensure_bookmark_session o r b) _
      (ensure_bookmark_session-Keeps o r b h.0 h.1) (λ _ _. tt)
Started-IsDisciplined _ (on_call host tool args call_id session) h =
    then-Keeps Always (execute host tool args call_id session) _
      (execute-Keeps host tool args call_id session h) (λ _. tt)
Started-IsDisciplined _ (on_tool sid) plain = resolve_session-Keeps sid

All-middle :
    (P : Task → Type 0) (before after : List Task) (t : Task)
    → All P (before ++ (t ∷ after))
    → P t × ((t' : Task) → P t' → All P (before ++ (t' ∷ after)))
All-middle P [] after t h = (h.0, λ t' p. (p, h.1))
All-middle P (x ∷ before) after t h =
    let (p, f) = All-middle P before after t h.1 in (p, λ t' p'. (h.0, f t' p'))

-- A tool call that has resolved its session has the workspace that the session's name spells.
abbrev pub IsResolved : Task → Type 0
IsResolved (resolving sid (ret triple)) = parse_session sid ≡ some triple
IsResolved (resolving sid (fail e)) = Unit
IsResolved (resolving sid (call e k)) = Unit
IsResolved (background p) = Unit

All-IsResolved : (ts : List Task) → All IsDisciplined ts → All IsResolved ts
All-IsResolved [] h = tt
All-IsResolved (resolving sid (ret triple) ∷ ts) h = (h.0, All-IsResolved ts h.1)
All-IsResolved (resolving sid (fail e) ∷ ts) h = (tt, All-IsResolved ts h.1)
All-IsResolved (resolving sid (call e k) ∷ ts) h = (tt, All-IsResolved ts h.1)
All-IsResolved (background p ∷ ts) h = (tt, All-IsResolved ts h.1)

module _ {R : Type 0} (net : Net R) (reorders : IsReordering net.order) where
  pub record IsGood (s : System R) : Type 0 where
    pub tasks_good : All IsDisciplined s.tasks
    pub world_good : IsConsistent s.world

  Turn-IsGood :
      {w w' : World R} {t t' : Task}
      → Turn net w t t' w'
      → IsConsistent w
      → IsDisciplined t
      → IsConsistent w' × IsDisciplined t'
  Turn-IsGood {w} (background_turn e k) c d =
      let (c', r) = perform-IsConsistent net reorders e w d.0 c in (c', d.1 (perform net e w).0 r)
  Turn-IsGood {w} (resolving_turn sid e k) c d =
      let (c', r) = perform-IsConsistent net reorders e w d.0 c in (c', d.1 (perform net e w).0 r)

  Step-IsGood : (s u : System R) (st : Step net s u) → StartsPlain net st → IsGood s → IsGood u
  Step-IsGood s u (start t h e) plain g = subst IsGood (sym e) (record {
    tasks_good = (Started-IsDisciplined t h plain, g.tasks_good);
    world_good = g.world_good;
  })
  Step-IsGood s u (act before after t t' w' es turn e) plain g =
      let (d, put) =
        All-middle IsDisciplined before after t (subst (All IsDisciplined) es g.tasks_good) in
      let (c, d') = Turn-IsGood turn g.world_good d in
      subst IsGood (sym e) (record { tasks_good = put t' d'; world_good = c })
  Step-IsGood s u (outside now fates remote e) plain g = subst IsGood (sym e) (record {
    tasks_good = g.tasks_good;
    world_good = record {
      named = g.world_good.named;
      unique = g.world_good.unique;
      cached = g.world_good.cached;
    };
  })
  Step-IsGood s u (restart ttl e) plain g = subst IsGood (sym e) (record {
    tasks_good = tt;
    world_good = record { named = g.world_good.named; unique = g.world_good.unique; cached = tt };
  })

  Reach-IsGood : {s u : System R} → IsGood s → (r : Reach net s u) → AllPlain net r → IsGood u
  Reach-IsGood g here plain = g
  Reach-IsGood g (next r st) plain = Step-IsGood _ _ st plain.1 (Reach-IsGood g r plain.0)

  -- From a consistent world with no task running, if ORDER BY only reorders rows, and if no start on
  -- the way names a bookmark of a worksheet, a target of a tool, or an organization or a repository
  -- of the HTTP route with a colon in it: whatever the interleaving of the handlers, the faults of the
  -- database, the answers of the services and the restarts, no two rows of the state that is reached
  -- share their organization, repository and bookmark, and no two share their session; every row and
  -- every cache entry has the workspace that its session's name spells, and so has every tool call
  -- that has resolved its session.
  pub Reach-safe :
      (s u : System R)
      → s.tasks ≡ []
      → IsConsistent s.world
      → (r : Reach net s u) → AllPlain net r
      → Distinct u.world.tables.rows
        × All IsNamed u.world.tables.rows
        × All IsNamedEntry u.world.cache.m
        × All IsResolved u.tasks
  Reach-safe s u none_running c r plain =
      let idle : IsGood s = record {
        tasks_good = subst (All IsDisciplined) (sym none_running) tt;
        world_good = c;
      } in
      let g = Reach-IsGood idle r plain in
      (
        Unique-Distinct u.world.tables.rows g.world_good.unique,
        g.world_good.named,
        g.world_good.cached,
        All-IsResolved u.tasks g.tasks_good,
      )
