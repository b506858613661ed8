-- ===== src/Session/Calls.antt =====
-- What the resolution and the adoption call (sessions_http.go: resolveSession, adoptBookmark).
use repo_extension.Base.{Option, none, some, List, [], ◌∷◌}
use repo_extension.Base.Text.{Text}
use repo_extension.Names.{Triple, parse_session, naming_session}
use repo_extension.Effects.{
  Eff, Answer, http, select, exec, cache, agent, get, jjlab, post, Select, SelectReply, selected,
  select_failed, ExecReply, affected, unique_violation, exec_failed, insert_row, row_by_session,
  row_at, look_up, put_entry, Piece, raw, ret, downstream,
}
use repo_extension.Effects.Sound.{Sound, Sound-bind, Sound-downstream, Sound-if, Sound-then}
use repo_extension.Json.{end}
use repo_extension.Http.{string_field}
use repo_extension.Jjlab.{get_repo_tree}
use repo_extension.Jjlab.Tree.{repo_exists, bookmark_exists}
use repo_extension.Jjlab.Effect
use repo_extension.Jjlab.Effect.{request, Any}
use repo_extension.Agent
use repo_extension.Store
use repo_extension.Store.{scan_map_row, list_rows, rows_reply, insert_reply}
use repo_extension.Session.{
  mapping, postgres, resolve_row, resolve_miss, resolve_session, adopt_orphan, adopt_bookmark,
}

module _ (Allowed : Eff → Type 0) (Rely : (e : Eff) → Answer e → Type 0)
    (asks : (q : Select) → Allowed (select q)) where
  rows_reply-Sound : (r : SelectReply) → Sound Allowed Rely Any (rows_reply r)
  rows_reply-Sound (selected rows) = tt
  rows_reply-Sound (select_failed m) = tt

  first-Sound : (q : Select) → Sound Allowed Rely Any (scan_map_row q)
  first-Sound q =
      Sound-bind Allowed Rely Any Any (list_rows q) _ (asks q, λ r _. rows_reply-Sound r)
        (λ rows _. tt)

  module _ (sid : Text) (looks : Allowed (cache (look_up sid)))
      (puts : (w : Triple) → Allowed (cache (put_entry sid w))) where
    resolve_miss-Sound :
        (o : Option Triple) → Sound Allowed Rely Any (resolve_miss {A = Triple} sid o)
    resolve_miss-Sound none = tt
    resolve_miss-Sound (some w) = tt

    row-Sound : Sound Allowed Rely Any (downstream postgres (Store.get_row_by_session sid))
    unfolding Store.get_row_by_session
    row-Sound =
        Sound-downstream Allowed Rely Any postgres (scan_map_row (row_by_session sid))
          (first-Sound (row_by_session sid))

    resolve_row-Sound : Sound Allowed Rely Any (resolve_row sid)
    unfolding resolve_row
    resolve_row-Sound =
        Sound-bind Allowed Rely Any Any (downstream postgres (Store.get_row_by_session sid)) _
          row-Sound
          (elim [
            | none ↦ λ _. resolve_miss-Sound (parse_session sid)
            | some r ↦ λ _. (puts (r.org, r.repo, r.bookmark), λ _ _. tt)
          ])

    hit-Sound :
        (hit : Option Triple)
        → Sound Allowed Rely Any (elim hit [ some w ↦ ret w | none ↦ resolve_row sid ])
    hit-Sound none = resolve_row-Sound
    hit-Sound (some w) = tt

    pub resolve_session-Sound : Sound Allowed Rely Any (resolve_session sid)
    unfolding resolve_session
    resolve_session-Sound = (looks, λ hit _. hit-Sound hit)

  insert_reply-Sound : (r : ExecReply) → Sound Allowed Rely Any (insert_reply r)
  insert_reply-Sound (affected n) = tt
  insert_reply-Sound unique_violation = tt
  insert_reply-Sound (exec_failed m) = tt

  module _ (o r b : Text)
      (reads : (path : List Piece) → Allowed (http jjlab (request get path none)))
      (opens : Allowed (
        http agent (
          request post
            (raw "/api/v1/sessions" ∷ [])
            (some (string_field "name" (naming_session o r b) end)))))
      (binds : Allowed (exec (insert_row (mapping o r b (naming_session o r b))))) where
    insert_mapping-Sound :
        Sound Allowed Rely Any (Store.insert_mapping (mapping o r b (naming_session o r b)))
    unfolding Store.insert_mapping
    insert_mapping-Sound = (binds, λ r _. insert_reply-Sound r)

    adopt_orphan-Sound : Sound Allowed Rely Any (adopt_orphan o r b)
    unfolding adopt_orphan
    adopt_orphan-Sound =
        Sound-bind Allowed Rely Any Any get_repo_tree _
          (Effect.get_repo_tree-Sound Allowed Rely reads)
          λ tree _.
            Sound-if Allowed Rely Any (repo_exists tree o r) _ _
              (λ _.
                Sound-if Allowed Rely Any (bookmark_exists tree o r b) _ _
                  (λ _.
                    Sound-then Allowed Rely Any Any (Agent.ensure_session (naming_session o r b)) _
                      (Agent.Effect.ensure_session-Sound Allowed Rely (naming_session o r b) opens)
                      (Sound-then Allowed Rely Any Any
                        (Store.insert_mapping (mapping o r b (naming_session o r b))) _
                        insert_mapping-Sound tt))
                  (λ _. tt))
              (λ _. tt)

    row_at-Sound : Sound Allowed Rely Any (downstream postgres (Store.get_row o r b))
    unfolding Store.get_row
    row_at-Sound =
        Sound-downstream Allowed Rely Any postgres (scan_map_row (row_at o r b))
          (first-Sound (row_at o r b))

    pub adopt_bookmark-Sound : Sound Allowed Rely Any (adopt_bookmark o r b)
    unfolding adopt_bookmark
    adopt_bookmark-Sound =
        Sound-bind Allowed Rely Any Any (downstream postgres (Store.get_row o r b)) _ row_at-Sound
          (elim [ none ↦ λ _. adopt_orphan-Sound | some x ↦ λ _. tt ])
