-- ===== src/Session/Adopt.antt =====
-- Adoption under the discipline of the mapping (sessions_http.go: adoptBookmark).
use repo_extension.Base.{Bool, false, none, some}
use repo_extension.Base.Text.{Text, Lacks}
use repo_extension.Names.{naming_session, colon}
use repo_extension.Names.Bijection.{parse_session-naming_session}
use repo_extension.Effects.{MapRow, row_at}
use repo_extension.Jjlab.{get_repo_tree}
use repo_extension.Jjlab.Tree.{repo_exists, bookmark_exists}
use repo_extension.Jjlab.Effect
use repo_extension.Agent
use repo_extension.Store
use repo_extension.Discipline.{Allowed, Rely, Keeps, Always, Fits}
use repo_extension.Discipline.Steps.{Keeps-bind, Keeps-if, RowFits, insert_mapping-Keeps}
use repo_extension.Session.{mapping, adopt_orphan, adopt_bookmark}
use repo_extension.Session.Resolve.{get_row-Keeps, Spells}

-- What an adoption answers: the session whose name spells the bookmark's place.
abbrev pub Adopted : Text → Text → Text → Text × Bool → Type 0
Adopted o r b v = Spells v.0 (o, r, b)

module _ (o r b : Text) (lo : Lacks colon o) (lr : Lacks colon r) (lb : Lacks colon b) where
  spelled : Spells (naming_session o r b) (o, r, b)
  spelled = parse_session-naming_session o r b lo lr lb

  adopt_orphan-Keeps : Keeps (Adopted o r b) (adopt_orphan o r b)
  unfolding adopt_orphan
  adopt_orphan-Keeps =
      Keeps-bind Always (Adopted o r b) get_repo_tree _
        (Effect.get_repo_tree-Sound Allowed Rely (λ _. tt))
        λ tree _.
          Keeps-if (Adopted o r b) (repo_exists tree o r) _ _
            (λ _.
              Keeps-if (Adopted o r b) (bookmark_exists tree o r b) _ _
                (λ _.
                  Keeps-bind Always (Adopted o r b) (Agent.ensure_session (naming_session o r b)) _
                    (Agent.Effect.ensure_session-Sound Allowed Rely (naming_session o r b) tt)
                    λ _ _.
                      Keeps-bind Always (Adopted o r b)
                        (Store.insert_mapping (mapping o r b (naming_session o r b))) _
                        (insert_mapping-Keeps o r b (naming_session o r b) spelled)
                        (λ _ _. spelled))
                (λ _. tt))
            (λ _. tt)

  found : (x : MapRow) → Fits (row_at o r b) x → Adopted o r b (x.session_name, false)
  found x (n, eo, er, eb) = rw (← eo, ← er, ← eb) n

  pub adopt_bookmark-Keeps : Keeps (Adopted o r b) (adopt_bookmark o r b)
  unfolding adopt_bookmark
  adopt_bookmark-Keeps =
      Keeps-bind (RowFits (row_at o r b)) (Adopted o r b) _ _ (get_row-Keeps o r b)
        (elim [ none ↦ λ _. adopt_orphan-Keeps | some x ↦ λ h. found x h ])
