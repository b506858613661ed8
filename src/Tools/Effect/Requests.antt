-- ===== src/Tools/Effect/Requests.antt =====
-- What the tools of a session send, and which of it is the session's own (tools.go).
use repo_extension.Base.{ℕ, String, ◌==◌, none, some, List, [], ◌∷◌}
use repo_extension.Base.Text.{Text}
use repo_extension.Errs.{Message}
use repo_extension.Names.{Triple, naming_session}
use repo_extension.Json.{Fields, Items, end}
use repo_extension.Effects.{
  Server, jjlab, agent, get, post, patch, Piece, raw, http, publish_prose, random_id, ext, Request,
}
use repo_extension.Http.{string_field, repo_path, send, post_json}
use repo_extension.Jjlab.Effect.{request, do_json-Sound, send-Sound}
use repo_extension.Jjlab.MergeRequests.{commit, mr_path, create_mr, add_mr_review, update_mr_state}
use repo_extension.I18n.{lc, tell}
use repo_extension.Session.{adopt_bookmark}
use repo_extension.Session.Resolve.{Spells}
use repo_extension.Tools.History.Graphs.{post_rebase}
use repo_extension.Tools.Effect.{
  Policy, IsSafe, safe, returns, fails, calls, within, handled, either, lc-IsSafe,
}

-- A request that a tool of the session `sid` may send: any GET; a commit on the session's own bookmark,
-- a rebase onto it, a merge request from it; a review or a new state of a merge request of its
-- repository; a session for a bookmark of its repository.
pub data IsOwn (sid : Text) : Server → Request → Type 0 where
  reads : (server : Server) (path : List Piece) → IsOwn sid server (request get path none)
  commits :
      (o r b : Text) (rest : Fields)
      → Spells sid (o, r, b)
      → IsOwn sid jjlab (
          request post
            (repo_path o r (raw "/commits" ∷ []))
            (some (string_field "bookmark" b rest)))
  rebases :
      (o r b source : Text)
      → Spells sid (o, r, b)
      → IsOwn sid jjlab (
          request post
            (repo_path o r (raw "/rebase" ∷ []))
            (some (string_field "source" source (string_field "dest" b end))))
  proposes :
      (o r b title body : Text) (rest : Fields)
      → Spells sid (o, r, b)
      → IsOwn sid jjlab (
          request post (mr_path o r []) (
            some
              (string_field "title" title (string_field "body" body (string_field "head" b rest)))))
  reviews :
      (o r b : Text) (rest : List Piece) (body : Fields)
      → Spells sid (o, r, b)
      → IsOwn sid jjlab (request post (mr_path o r (raw "/" ∷ rest)) (some body))
  settles :
      (o r b : Text) (rest : List Piece) (body : Fields)
      → Spells sid (o, r, b)
      → IsOwn sid jjlab (request patch (mr_path o r (raw "/" ∷ rest)) (some body))
  opens :
      (o r b target : Text)
      → Spells sid (o, r, b)
      → IsOwn sid agent (
          request post
            (raw "/api/v1/sessions" ∷ [])
            (some (string_field "name" (naming_session o r target) end)))

-- What the writing tools of the session `sid` may call besides: their own requests, messages, and the
-- adoption of the bookmark that the arguments name.
pub record Grants (p : Policy) (sid target : Text) : Type 0 where
  pub knows : (w : Triple) → p.Has sid w → Spells sid w
  pub sends : (server : Server) (q : Request) → IsOwn sid server q → p.Allowed (http server q)
  pub tells :
      (to : Text) (kind : String) (body : Fields) (key : String) (m : Message)
      → p.Allowed (ext (publish_prose to kind body key m))
  pub draws : p.Allowed (ext random_id)
  pub adopts : (o r b : Text) → Spells sid (o, r, b) → IsSafe p (adopt_bookmark o r target)

module _ (p : Policy) (sid target : Text) (grants : Grants p sid target) where
  pub tell-IsSafe :
      (to : Text) (kind key : String) (en zh : Message) → IsSafe p (tell to kind key en zh)
  unfolding tell
  tell-IsSafe to kind key en zh =
      within p (lc to en zh) _ (lc-IsSafe p to en zh)
        (λ m. calls p _ _ (grants.tells to kind end key m) (λ _. returns p tt))

  module _ (o r b : Text) (own : Spells sid (o, r, b)) where
    pub commit-IsSafe : (message : Text) (actions : Items) → IsSafe p (commit o r b message actions)
    unfolding commit
    commit-IsSafe message actions =
        safe p (commit o r b message actions)
          (do_json-Sound p.Allowed p.Rely post _ _ (grants.sends jjlab _ (commits o r b _ own)))

    pub post_rebase-IsSafe : (source : Text) → IsSafe p (post_rebase o r source b)
    post_rebase-IsSafe source =
        safe p (post_rebase o r source b) (
          do_json-Sound p.Allowed p.Rely post _ _ (grants.sends jjlab _ (rebases o r b source own)))

    pub create_mr-IsSafe : (title body base : Text) → IsSafe p (create_mr o r title body b base)
    unfolding create_mr
    create_mr-IsSafe title body base = safe p (create_mr o r title body b base) (
        do_json-Sound p.Allowed p.Rely post _ _
          (grants.sends jjlab _ (proposes o r b title body _ own)))

    pub add_mr_review-IsSafe :
        (n : ℕ) (state body : Text) → IsSafe p (add_mr_review o r n state body)
    unfolding add_mr_review
    add_mr_review-IsSafe n state body =
        within p _ _
          (safe p (post_json _ _) (
            do_json-Sound p.Allowed p.Rely post _ _ (grants.sends jjlab _ (reviews o r b _ _ own))))
          (λ _. returns p tt)

    pub update_mr_state-IsSafe : (n : ℕ) (state : Text) → IsSafe p (update_mr_state o r n state)
    unfolding update_mr_state
    update_mr_state-IsSafe n state =
        within p _ _
          (handled p _ _ _
            (safe p (send jjlab patch _ _) (
              send-Sound p.Allowed p.Rely jjlab patch _ _
                (grants.sends jjlab _ (settles o r b _ _ own))))
            (λ a. returns p a) (λ _. fails p _))
          (λ (status, v). either p (status == 200) _ _ (returns p tt) (fails p _))
