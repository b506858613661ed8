-- ===== src/Tools/Effect/Proposals.antt =====
-- The tools that propose worksheets (tools.go: fork-bookmark, delete-bookmark).
use repo_extension.Base.{List, ◌==◌, none, some}
use repo_extension.Base.Text.{Text, is_empty, codes, text_eq}
use repo_extension.Json
use repo_extension.Json.{
  Json, null, boolean, number, text, array, Fields, str_from, slice_of, as_map, object,
}
use repo_extension.Effects.{
  ext, random_id, ExtReply, replied, ext_failed, agent, jjlab, get, Server, Piece, Prog, ret,
  downstream,
}
use repo_extension.Http.{send}
use repo_extension.I18n.{text_or_empty}
use repo_extension.Agent.{session_of, get_session}
use repo_extension.Jjlab.{get_repo_tree}
use repo_extension.Jjlab.Effect.{send-Sound}
use repo_extension.Jjlab.Tree.{bookmark_exists}
use repo_extension.Jjlab.MergeRequests.{sha_or, get_bookmark_head}
use repo_extension.Worksheets.{
  worksheet_registry, title, worksheet_fields, published, publish_worksheet,
}
use repo_extension.Tools.Host.{Host}
use repo_extension.Tools.Bookmarks
use repo_extension.Tools.Bookmarks.{fork_tip, propose_fork, propose_delete, fork_bookmark}
use repo_extension.Tools.Effect.{
  Policy, IsSafe, safe, returns, fails, calls, decoded, handled, either, within, lc-IsSafe,
  ef-IsSafe, say-IsSafe, in_workspace,
}
use repo_extension.Tools.Effect.Readers.{tree-IsSafe}
use repo_extension.Tools.Effect.Requests.{Grants}

module _ (p : Policy) where
  lookup-IsSafe :
      (server : Server) (path : List Piece) (what : Text)
      → IsSafe p (downstream what (send server get path none))
  lookup-IsSafe server path what =
      handled p (send server get path none) _ _
        (safe p (send server get path none)
          (send-Sound p.Allowed p.Rely server get path none (p.lookups server path)))
        (λ a. returns p a) (λ _. fails p _)

  session_of-IsSafe : (v : Json) → IsSafe p (session_of v)
  session_of-IsSafe (object s) = returns p (some s)
  session_of-IsSafe null = fails p _
  session_of-IsSafe (boolean b) = fails p _
  session_of-IsSafe (number n) = fails p _
  session_of-IsSafe (text s) = fails p _
  session_of-IsSafe (array xs) = fails p _

  sha_or-IsSafe : (v : Fields) (rest : Prog Text) → IsSafe p rest → IsSafe p (sha_or v rest)
  sha_or-IsSafe v rest h = either p (is_empty (str_from v (codes "sha"))) rest _ h (returns p _)

  published-IsSafe : (r : ExtReply) → IsSafe p (published r)
  published-IsSafe (replied v) = returns p tt
  published-IsSafe (ext_failed m) = fails p _

  get_session-IsSafe : (name : Text) → IsSafe p (get_session name)
  unfolding get_session
  get_session-IsSafe name = within p _ _ (lookup-IsSafe agent _ _) λ (status, v).
      either p (status == 200) _ _ ((session_of-IsSafe (Json.get v (codes "session"))))
        (either p (status == 404) _ _ (returns p none) (fails p _))

  get_bookmark_head-IsSafe : (o r b : Text) → IsSafe p (get_bookmark_head o r b)
  unfolding get_bookmark_head
  get_bookmark_head-IsSafe o r b = within p _ _ (lookup-IsSafe jjlab _ _) λ (status, v).
      either p (status == 200) _ _
        (sha_or-IsSafe v _ (
          decoded p (as_map (Json.get v (codes "head"))) _ _ (fails p _)
            (λ head. sha_or-IsSafe head _ (fails p _))))
        (fails p _)

  module _ (sid target : Text) (grants : Grants p sid target) where
    publish_worksheet-IsSafe :
        (action : Text) (args : Fields) (call_id : Text)
        → IsSafe p (publish_worksheet sid action args call_id)
    unfolding publish_worksheet
    publish_worksheet-IsSafe action args call_id =
        decoded p (worksheet_registry action) _ _ (fails p _) λ spec.
          within p _ _
            (calls p (ext random_id) (λ r. ret (text_or_empty r)) grants.draws (λ r. returns p _))
            λ id. within p _ _ (lc-IsSafe p sid (title spec args).0 (title spec args).1) λ m.
              calls p _ published
                (grants.tells sid "worksheet_proposed" (worksheet_fields id action args call_id)
                  "title" m)
                published-IsSafe

  module _ (sid target : Text) (grants : Grants p sid target) where
    fork_tip-IsSafe : (name : Text) → IsSafe p (fork_tip name)
    unfolding fork_tip
    fork_tip-IsSafe name =
        handled p _ _ _ (get_session-IsSafe name)
          (elim [ none ↦ returns p _ | some sess ↦ returns p _ ]) (λ _. returns p _)

    propose_fork-IsSafe :
        (o r b bookmark quest call_id : Text)
        → IsSafe p (propose_fork (o, r, b) bookmark quest sid call_id)
    unfolding propose_fork
    propose_fork-IsSafe o r b bookmark quest call_id = within p _ _ (fork_tip-IsSafe sid) λ tip.
        handled p _ _ _ (get_bookmark_head-IsSafe o r b)
          (λ head.
            handled p _ _ _ (publish_worksheet-IsSafe sid target grants _ _ call_id)
              (λ _. say-IsSafe p sid _ _ _) (λ e. ef-IsSafe p sid _ _))
          (λ e. ef-IsSafe p sid _ _)

    propose_delete-IsSafe :
        (host : Host) (o r b bookmark call_id : Text)
        → IsSafe p (propose_delete (o, r, b) bookmark sid call_id)
    unfolding propose_delete
    propose_delete-IsSafe host o r b bookmark call_id =
        within p get_repo_tree _ (tree-IsSafe p host) λ tree.
          either p (bookmark_exists tree o r bookmark) _ _
            (handled p _ _ _ (publish_worksheet-IsSafe sid target grants _ _ call_id)
              (λ _. say-IsSafe p sid _ _ _) (λ e. ef-IsSafe p sid _ _))
            (ef-IsSafe p sid _ _)

    module _ (host : Host) (args : Fields) (call_id : Text) where
      pub fork_bookmark-IsSafe : IsSafe p (fork_bookmark host args call_id sid)
      unfolding fork_bookmark
      fork_bookmark-IsSafe = in_workspace p sid _ λ (o, r, b) has.
          either p (is_empty (host.arg_string args "bookmark")) _ _ (ef-IsSafe p sid _ _) (
            either p (text_eq (host.arg_string args "bookmark") b) _ _ (ef-IsSafe p sid _ _) (
              either p (is_empty (host.arg_string args "quest")) _ _ (ef-IsSafe p sid _ _) (
                propose_fork-IsSafe o r b (host.arg_string args "bookmark")
                  (host.arg_string args "quest") call_id)))

      pub delete_bookmark-IsSafe : IsSafe p (Bookmarks.delete_bookmark host args call_id sid)
      unfolding Bookmarks.delete_bookmark
      delete_bookmark-IsSafe = in_workspace p sid _ λ (o, r, b) has.
          either p (is_empty (host.arg_string args "bookmark")) _ _ (ef-IsSafe p sid _ _) (
            either p (text_eq (host.arg_string args "bookmark") b) _ _ (ef-IsSafe p sid _ _) (
              either p (text_eq (host.arg_string args "bookmark") (codes "main")) _ _
                (ef-IsSafe p sid _ _)
                (propose_delete-IsSafe host o r b (host.arg_string args "bookmark") call_id)))
