-- ===== src/Startup/Pools.antt =====
-- What the start of the process holds open, and in which order it calls (pg.go: OpenStore and
-- ensureDatabase; main.go: main).
use mathlib.Core.Path.{subst}
use repo_extension.Base.{ap, sym, ℕ, ◌≡◌, refl, Bool, true, false, not, ◌&&◌, ◌==◌}
use repo_extension.Startup.{
  Pool, maintenance, private, StartCall, open_pool, ping, find_database, create_database, apply_ddl,
  close_pool, connect_bus, parse_manifest, serve, Reply, succeeded, no_rows, failed, Boot, finish,
  ask, and_then, PgConfig, created, ensure_database, Opened, store, not_opened, migrate,
  open_private, open_store, serve_with, Env, pg_config, main,
}

-- What the answers so far have left. `refused`: the pool of the store, its Ping or its DDL failed.
pub record Seen : Type 0 where
  pub maintenance_open : Bool
  pub private_open : Bool
  pub has_schema : Bool
  pub has_bus : Bool
  pub has_manifest : Bool
  pub served : Bool
  pub refused : Bool

abbrev pub nothing_seen : Seen
nothing_seen = record {
  maintenance_open = false;
  private_open = false;
  has_schema = false;
  has_bus = false;
  has_manifest = false;
  served = false;
  refused = false;
}

abbrev succeeds : Reply → Bool
succeeds succeeded = true
succeeds no_rows = false
succeeds (failed _ _) = false

-- A call on the pool of the store that the store depends on.
abbrev needed : Reply → Seen → Seen
needed succeeded s = s
needed no_rows s = record s { refused = true }
needed (failed _ _) s = record s { refused = true }

abbrev pub after : StartCall → Reply → Seen → Seen
after (open_pool maintenance _) r s = record s { maintenance_open = succeeds r }
after (open_pool private _) r s = needed r (record s { private_open = succeeds r })
after (ping private) r s = needed r s
after (apply_ddl private) r s = needed r (record s { has_schema = succeeds r })
after (close_pool maintenance) r s = record s { maintenance_open = false }
after (close_pool private) r s = record s { private_open = false }
after (connect_bus _) r s = record s { has_bus = succeeds r }
after parse_manifest r s = record s { has_manifest = succeeds r }
after serve r s = record s { served = succeeds r }
after (ping maintenance) r s = s
after (apply_ddl maintenance) r s = s
after (find_database _ _) r s = s
after (create_database _ _) r s = s

abbrev pub is_open : Pool → Seen → Bool
is_open maintenance s = s.maintenance_open
is_open private s = s.private_open

-- A pool is opened when it is closed and used while it is open; the bus is for a store with its schema, and the
-- extension is served when all is there.
abbrev pub Allowed : StartCall → Seen → Type 0
Allowed (open_pool p _) s = is_open p s ≡ false
Allowed (ping p) s = is_open p s ≡ true
Allowed (find_database p _) s = is_open p s ≡ true
Allowed (create_database p _) s = is_open p s ≡ true
Allowed (apply_ddl p) s = is_open p s ≡ true
Allowed (close_pool p) s = is_open p s ≡ true
Allowed (connect_bus _) s = (s.private_open && s.has_schema) ≡ true
Allowed parse_manifest s = Unit
Allowed serve s = (s.private_open && s.has_schema && s.has_bus && s.has_manifest) ≡ true

-- Whatever is answered, each call is allowed in the state in which it is made, and the program ends
-- with a value and a state as stated.
abbrev pub Boots : {A : Type 0} → (A → Seen → Type 0) → Boot A → Seen → Type 0
Boots Q (finish a) s = Q a s
Boots Q (ask c k) s = Allowed c s × ((r : Reply) → Boots Q (k r) (after c r s))

Boots-then :
    {A B : Type 0} (P : A → Seen → Type 0) (Q : B → Seen → Type 0) (m : Boot A) (f : A → Boot B)
    (s : Seen)
    → Boots P m s
    → ((a : A) (t : Seen) → P a t → Boots Q (f a) t)
    → Boots Q (and_then m f) s
Boots-then P Q (finish a) f s h hf = hf a s h
Boots-then P Q (ask c k) f s h hf = (h.0, λ r. Boots-then P Q (k r) f (after c r s) (h.1 r) hf)

-- The state as it was.
abbrev Same : {A : Type 0} → Seen → A → Seen → Type 0
Same s _ t = t ≡ s

created-Boots :
    (cfg : PgConfig) (s : Seen) → s.maintenance_open ≡ true → Boots (Same s) (created cfg) s
unfolding created
created-Boots cfg s h = (h, elim [ succeeded ↦ refl | no_rows ↦ refl | failed code m ↦ refl ])

abbrev maintained : Seen
maintained = record nothing_seen { maintenance_open = true }

-- CREATE DATABASE, and then the deferred Close.
closing-Boots :
    (cfg : PgConfig)
    → Boots
        (Same nothing_seen)
        (and_then (created cfg) λ e. ask (close_pool maintenance) λ _. finish e)
        maintained
closing-Boots cfg =
    Boots-then (Same maintained) (Same nothing_seen) (created cfg) _ maintained
      (created-Boots cfg maintained refl)
      (λ a t e. (
        ap (λ (u : Seen). u.maintenance_open) e,
        λ _. ap (λ (u : Seen). record u { maintenance_open = false }) e,
      ))

-- The maintenance pool is closed again on each path.
ensure_database-Boots :
    (cfg : PgConfig) → Boots (Same nothing_seen) (ensure_database cfg) nothing_seen
unfolding ensure_database
ensure_database-Boots cfg = (
  refl,
  elim [
    | succeeded ↦ (
      refl,
      elim [
        | succeeded ↦ closing-Boots cfg
        | no_rows ↦ closing-Boots cfg
        | failed _ _ ↦ (refl, λ _. refl)
      ],
    )
    | no_rows ↦ refl
    | failed _ _ ↦ refl
  ],
)

abbrev pub is_store : Opened → Bool
is_store store = true
is_store (not_opened _) = false

-- A store is returned exactly if no needed call was refused; the pool of the store is open and has the
-- schema exactly if it is returned, the maintenance pool is closed, and nothing is served yet.
abbrev pub HasOpened : Opened → Seen → Type 0
HasOpened o t =
    (is_store o ≡ not t.refused)
    × (t.private_open ≡ is_store o)
    × (t.has_schema ≡ is_store o)
    × (t.maintenance_open ≡ false)
    × (t.served ≡ false)

-- The part behind ensureDatabase.
opening-Boots : (cfg : PgConfig) → Boots HasOpened (open_private cfg) nothing_seen
unfolding open_private migrate
opening-Boots cfg = (
  refl,
  elim [
    | succeeded ↦ (
      refl,
      elim [
        | succeeded ↦ (
          refl,
          elim [
            | succeeded ↦ (refl, refl, refl, refl, refl)
            | no_rows ↦ (refl, λ _. (refl, refl, refl, refl, refl))
            | failed _ _ ↦ (refl, λ _. (refl, refl, refl, refl, refl))
          ],
        )
        | no_rows ↦ (refl, λ _. (refl, refl, refl, refl, refl))
        | failed _ _ ↦ (refl, λ _. (refl, refl, refl, refl, refl))
      ],
    )
    | no_rows ↦ (refl, refl, refl, refl, refl)
    | failed _ _ ↦ (refl, refl, refl, refl, refl)
  ],
)

-- Whatever the driver answers, OpenStore opens a pool that is not open, uses one that is, and
-- returns a store exactly if the pool of the store, its Ping and its DDL were not refused, whatever became
-- of the creation of the database: then this pool alone is open and has its schema, and else no
-- pool is left open.
pub open_store-Boots : (cfg : PgConfig) → Boots HasOpened (open_store cfg) nothing_seen
unfolding open_store
open_store-Boots cfg =
    Boots-then (Same nothing_seen) HasOpened (ensure_database cfg) _ nothing_seen
      (ensure_database-Boots cfg)
      (λ a t e. subst (Boots HasOpened (open_private cfg)) (sym e) (opening-Boots cfg))

-- The exit code is 0 exactly if the extension was served to its end; a store that was opened is closed
-- exactly then.
abbrev pub HasExited : ℕ → Seen → Type 0
HasExited code t =
    ((code == 0) ≡ t.served)
    × (t.private_open ≡ (not t.served && t.has_schema))
    × (t.maintenance_open ≡ false)

stopped : (t : Seen) → HasOpened store t → HasExited 1 t
stopped t (a, b, c, d, n) = (sym n, rw (b, c, n) refl, d)

module _ (getenv : Env) where
  serving-Boots : (o : Opened) (t : Seen) → HasOpened o t → Boots HasExited (serve_with getenv o) t
  unfolding serve_with
  serving-Boots (not_opened _) t (a, b, c, d, n) = (sym n, rw (b, c, n) refl, d)
  serving-Boots store t h = (
    rw (h.1, h.2) refl,
    elim [
      | succeeded ↦ (
        tt,
        elim [
          | succeeded ↦ (
            rw (h.1, h.2) refl,
            elim [
              | succeeded ↦ (h.1, λ _. (refl, refl, h.3))
              | no_rows ↦ (refl, rw (h.1, h.2) refl, h.3)
              | failed _ _ ↦ (refl, rw (h.1, h.2) refl, h.3)
            ],
          )
          | no_rows ↦ stopped t h
          | failed _ _ ↦ stopped t h
        ],
      )
      | no_rows ↦ stopped t h
      | failed _ _ ↦ stopped t h
    ],
  )

  -- Whatever the driver, the bus, the manifest and the extension SDK answer, main uses no pool that
  -- is not open, connects to the bus only with a store that has its schema, and serves the extension only
  -- with the store, the bus and the manifest; it exits with 0 exactly if the extension was served to
  -- its end, and closes a store that was opened exactly then.
  pub main-Boots : Boots HasExited (main getenv) nothing_seen
  unfolding main
  main-Boots =
      Boots-then HasOpened HasExited (open_store (pg_config getenv)) _ nothing_seen
        (open_store-Boots (pg_config getenv)) serving-Boots
