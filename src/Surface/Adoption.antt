-- ===== src/Surface/Adoption.antt =====
-- What the HTTP route that adopts a bookmark calls (sessions_http.go: ensureSession, adoptBookmark).
use mathlib.Core.Path.{subst}
use repo_extension.Base.{◌≡◌, refl, sym, Bool, false, none, some, List, [], ◌∷◌}
use repo_extension.Base.Text.{Text}
use repo_extension.Names.{Triple, parse_session, naming_session, valid_session_component}
use repo_extension.Names.Bijection.{naming_session-parse_session}
use repo_extension.Effects.{
  Eff, http, select, exec, cache, ext, Server, Request, jjlab, agent, get, post, Piece, raw, Exec,
  ExecReply, affected, unique_violation, exec_failed, insert_row, row_at, SelectReply, selected,
  select_failed, Select, MapRow, Prog, downstream,
}
use repo_extension.Effects.Sound.{
  Sound, Sound-bind, Sound-handle, Sound-if, Sound-then, Sound-downstream,
}
use repo_extension.Json.{end}
use repo_extension.Http.{string_field}
use repo_extension.Jjlab.{get_repo_tree}
use repo_extension.Jjlab.Tree.{repo_exists, bookmark_exists}
use repo_extension.Jjlab.Effect
use repo_extension.Jjlab.Effect.{request, Any}
use repo_extension.Agent
use repo_extension.Store
use repo_extension.Store.{list_rows, rows_reply, scan_map_row, insert_reply}
use repo_extension.Discipline.{Rely, Fits, RowsFit}
use repo_extension.Discipline.Steps.{RowFits, first_row-Fits}
use repo_extension.Session.{mapping, postgres, adopt_orphan, adopt_bookmark}
use repo_extension.Surface.{Body, session_ensured, Response, ensure_bookmark_session}
use repo_extension.Base.Lists.{All}

-- The two kinds of request: a GET to jjlab, and the opening of the one session.
pub data IsAdoptionRequest (o r b : Text) : Server → Request → Type 0 where
  reads : (path : List Piece) → IsAdoptionRequest o r b jjlab (request get path none)
  opens : IsAdoptionRequest o r b agent (
      request post
        (raw "/api/v1/sessions" ∷ [])
        (some (string_field "name" (naming_session o r b) end)))

-- The one row that may be written.
pub data IsAdoptionExec (o r b : Text) : Exec → Type 0 where
  binds : IsAdoptionExec o r b (insert_row (mapping o r b (naming_session o r b)))

abbrev pub IsAdoptionCall : Text → Text → Text → Eff → Type 0
IsAdoptionCall o r b (http server q) = IsAdoptionRequest o r b server q
IsAdoptionCall o r b (select q) = Unit
IsAdoptionCall o r b (exec x) = IsAdoptionExec o r b x
IsAdoptionCall o r b (cache c) = ⊥
IsAdoptionCall o r b (ext c) = ⊥

-- A body that names a session names the one of the bookmark.
abbrev pub NamesOwn : Text → Text → Text → Body → Type 0
NamesOwn o r b (session_ensured name adopted) = name ≡ naming_session o r b
NamesOwn o r b _ = Unit

abbrev pub AnswersOwn : Text → Text → Text → Response → Type 0
AnswersOwn o r b reply = NamesOwn o r b reply.body

module _ (o r b : Text) where
  abbrev Adopts : {A : Type 0} → (A → Type 0) → Prog A → Type 0
  Adopts Q m = Sound (IsAdoptionCall o r b) Rely Q m

  abbrev OwnName : Text × Bool → Type 0
  OwnName v = v.0 ≡ naming_session o r b

  insert_reply-Adopts : (x : ExecReply) → Adopts Any (insert_reply x)
  insert_reply-Adopts (affected n) = tt
  insert_reply-Adopts unique_violation = tt
  insert_reply-Adopts (exec_failed m) = tt

  insert_mapping-Adopts : Adopts Any (Store.insert_mapping (mapping o r b (naming_session o r b)))
  unfolding Store.insert_mapping
  insert_mapping-Adopts = (binds, λ x _. insert_reply-Adopts x)

  adopt_orphan-Adopts : Adopts OwnName (adopt_orphan o r b)
  unfolding adopt_orphan
  adopt_orphan-Adopts =
      Sound-bind (IsAdoptionCall o r b) Rely Any OwnName get_repo_tree _
        (Effect.get_repo_tree-Sound (IsAdoptionCall o r b) Rely reads)
        λ tree _.
          Sound-if (IsAdoptionCall o r b) Rely OwnName (repo_exists tree o r) _ _
            (λ _.
              Sound-if (IsAdoptionCall o r b) Rely OwnName (bookmark_exists tree o r b) _ _
                (λ _.
                  Sound-then (IsAdoptionCall o r b) Rely Any OwnName
                    (Agent.ensure_session (naming_session o r b)) _
                    (Agent.Effect.ensure_session-Sound (IsAdoptionCall o r b) Rely
                      (naming_session o r b) opens)
                    (Sound-then (IsAdoptionCall o r b) Rely Any OwnName
                      (Store.insert_mapping (mapping o r b (naming_session o r b))) _
                      insert_mapping-Adopts refl))
                (λ _. tt))
            (λ _. tt)

  rows_reply-Adopts :
      (q : Select) (x : SelectReply) → RowsFit q x → Adopts (All (Fits q)) (rows_reply x)
  rows_reply-Adopts q (selected rows) h = h
  rows_reply-Adopts q (select_failed m) h = tt

  row-Adopts : Adopts (RowFits (row_at o r b)) (downstream postgres (Store.get_row o r b))
  unfolding Store.get_row
  row-Adopts =
      Sound-downstream (IsAdoptionCall o r b) Rely (RowFits (row_at o r b)) postgres
        (scan_map_row (row_at o r b))
        (Sound-bind (IsAdoptionCall o r b) Rely (All (Fits (row_at o r b))) (RowFits (row_at o r b))
          (list_rows (row_at o r b)) _ (tt, λ x h. rows_reply-Adopts (row_at o r b) x h)
          (first_row-Fits (row_at o r b)))

  found-OwnName : (x : MapRow) → Fits (row_at o r b) x → OwnName (x.session_name, false)
  found-OwnName x (n, eo, er, eb) =
      sym
        (naming_session-parse_session x.session_name o r b (
          subst (λ (v : Triple). parse_session x.session_name ≡ some v) (λ i. (eo i, er i, eb i))
            n)).0

  adopt_bookmark-Adopts : Adopts OwnName (adopt_bookmark o r b)
  unfolding adopt_bookmark
  adopt_bookmark-Adopts =
      Sound-bind (IsAdoptionCall o r b) Rely (RowFits (row_at o r b)) OwnName
        (downstream postgres (Store.get_row o r b)) _ row-Adopts
        (elim [ none ↦ λ _. adopt_orphan-Adopts | some x ↦ λ h. found-OwnName x h ])

  -- Where each row that the database answers binds a session to the workspace that its name spells: the
  -- request of the route for a bookmark sends only GETs to jjlab, and to the agent only the request that opens
  -- the session named after this organization, repository and bookmark; the only statement it executes is
  -- the insertion of the row that binds that session to that bookmark; it does not touch the cache and sends
  -- no message; and a reply that names a session names that one.
  pub ensure_bookmark_session-Own :
      Sound (IsAdoptionCall o r b) Rely (AnswersOwn o r b) (ensure_bookmark_session o r b)
  unfolding ensure_bookmark_session
  ensure_bookmark_session-Own =
      Sound-if (IsAdoptionCall o r b) Rely (AnswersOwn o r b) (valid_session_component b) _ _
        (λ valid.
          Sound-handle (IsAdoptionCall o r b) Rely (NamesOwn o r b) (AnswersOwn o r b) _ _ _
            (Sound-bind (IsAdoptionCall o r b) Rely OwnName (NamesOwn o r b) (adopt_bookmark o r b)
              _ adopt_bookmark-Adopts (λ v h. h))
            (λ body h. h) (λ e. tt))
        (λ _. tt)
