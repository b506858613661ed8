-- ===== src/Tools/Effect/Merging.antt =====
-- The tools that change merge requests (tools.go: mr-create, mr-review, mr-merge).
use repo_extension.Base.{ℕ, ◌≡◌, refl, Bool, true, false, not, ◌&&◌, List, [], ◌∷◌}
use repo_extension.Base.Int.{pos, less, magnitude}
use repo_extension.Base.Text.{Text, is_empty, codes, text_eq, eq_of_text_eq}
use repo_extension.Names.{naming_session}
use repo_extension.Json
use repo_extension.Json.{Fields, str_from, slice_of}
use repo_extension.Session.Resolve.{Spells}
use repo_extension.Tools.Host.{Host, strings_of}
use repo_extension.Tools.History.Graphs.{post_rebase}
use repo_extension.Tools.Merges.Changing.{
  tell_verdict, notify_initiator, finish_merge, merge_or_conflicts, conclude_merge, merge_fetched,
  submit_mr, create, review_valid, review, merge,
}
use repo_extension.Tools.Effect.{
  Policy, IsSafe, returns, handled, either, either_by, within, ef-IsSafe, say-IsSafe, in_workspace,
}
use repo_extension.Tools.Effect.Readers.{get_mr-IsSafe}
use repo_extension.Tools.Effect.Requests.{
  Grants, tell-IsSafe, post_rebase-IsSafe, create_mr-IsSafe, add_mr_review-IsSafe,
  update_mr_state-IsSafe,
}

of_not : (x : Bool) → not x ≡ false → x ≡ true
of_not true h = refl
of_not false h = cc

module _ (p : Policy) (sid target : Text) (grants : Grants p sid target) where
  tell_verdict-IsSafe : (n : ℕ) (state body to : Text) → IsSafe p (tell_verdict n state body to)
  unfolding tell_verdict
  tell_verdict-IsSafe n state body to =
      either p (text_eq state (codes "approved")) _ _ (tell-IsSafe p sid target grants to _ _ _ _)
        (tell-IsSafe p sid target grants to _ _ _ _)

  notify_initiator-IsSafe :
      (host : Host) (o r : Text) (n : ℕ) (state body : Text)
      → IsSafe p (notify_initiator o r n state body sid)
  unfolding notify_initiator
  notify_initiator-IsSafe host o r n state body =
      handled p _ _ _ (get_mr-IsSafe p host o r n)
        (λ mr.
          let head = str_from mr (codes "head_bookmark") in
          either p (is_empty head) _ _ (returns p tt) (
            either p (text_eq (naming_session o r head) sid) _ _ (returns p tt)
              (tell_verdict-IsSafe n state body _)))
        (λ _. returns p tt)

  module _ (o r b : Text) (own : Spells sid (o, r, b)) where
    finish_merge-IsSafe :
        (n : ℕ) (head base : Text) (sum : Fields) → IsSafe p (finish_merge o r n head base sum sid)
    unfolding finish_merge
    finish_merge-IsSafe n head base sum =
        within p _ _
          (handled p _ _ _ (add_mr_review-IsSafe p sid target grants o r b own n _ _)
            (λ a. returns p a) (λ _. returns p tt))
          λ _.
            handled p _ _ _ (update_mr_state-IsSafe p sid target grants o r b own n _)
              (λ _.
                within p _ _ (tell-IsSafe p sid target grants (naming_session o r head) _ _ _ _)
                  (λ _. say-IsSafe p sid _ _ _))
              (λ e. ef-IsSafe p sid _ _)

    merge_or_conflicts-IsSafe :
        (n : ℕ) (head base : Text) (sum : Fields) (cs : List Text)
        → IsSafe p (merge_or_conflicts o r n head base sum sid cs)
    merge_or_conflicts-IsSafe n head base sum [] = finish_merge-IsSafe n head base sum
    merge_or_conflicts-IsSafe n head base sum (c ∷ cs) = say-IsSafe p sid _ _ _

    conclude_merge-IsSafe :
        (n : ℕ) (head base : Text) (sum : Fields)
        → IsSafe p (conclude_merge o r n head base sum sid)
    unfolding conclude_merge
    conclude_merge-IsSafe n head base sum =
        merge_or_conflicts-IsSafe n head base sum
          (strings_of (slice_of (Json.get sum (codes "conflicts"))))

    rebased-IsSafe : (source base : Text) → b ≡ base → IsSafe p (post_rebase o r source base)
    rebased-IsSafe source base e =
        rw (← e) (post_rebase-IsSafe p sid target grants o r b own source)

    merge_fetched-IsSafe : (n : ℕ) (mr : Fields) → IsSafe p (merge_fetched (o, r, b) n mr sid)
    unfolding merge_fetched
    merge_fetched-IsSafe n mr =
        let base = str_from mr (codes "base") in
        let head_sha = str_from mr (codes "head_sha") in
        either p (not (text_eq (str_from mr (codes "state")) (codes "open"))) _ _
          (ef-IsSafe p sid _ _)
          (either p (is_empty head_sha) _ _ (ef-IsSafe p sid _ _) (
            either_by p (not (text_eq b base)) _ _ (λ _. ef-IsSafe p sid _ _)
              λ h.
                handled p _ _ _
                  (rebased-IsSafe head_sha base (eq_of_text_eq b base (of_not (text_eq b base) h)))
                  (λ v. conclude_merge-IsSafe n (str_from mr (codes "head_bookmark")) base _)
                  (λ e. ef-IsSafe p sid _ _)))

  module _ (host : Host) (args : Fields) where
    pub merge-IsSafe : IsSafe p (merge host args sid)
    unfolding merge
    merge-IsSafe = in_workspace p sid _ λ (o, r, b) has.
        either p _ _ _
          (handled p _ _ _ (get_mr-IsSafe p host o r _)
            (λ mr. merge_fetched-IsSafe o r b (grants.knows _ has) _ mr) (λ e. ef-IsSafe p sid _ _))
          (ef-IsSafe p sid _ _)

    review_valid-IsSafe :
        (o r b : Text) (n : ℕ) (state body : Text)
        → Spells sid (o, r, b)
        → IsSafe p (review_valid host o r n state body sid)
    unfolding review_valid
    review_valid-IsSafe o r b n state body own =
        handled p _ _ _ (add_mr_review-IsSafe p sid target grants o r b own n _ _)
          (λ _.
            within p _ _ (notify_initiator-IsSafe host o r n state body)
              (λ _. say-IsSafe p sid _ _ _))
          (λ e. ef-IsSafe p sid _ _)

    pub review-IsSafe : IsSafe p (review host args sid)
    unfolding review
    review-IsSafe = in_workspace p sid _ λ (o, r, b) has.
        either p (less (pos 0) (host.arg_int args "mr" (pos 0))) _ _
          (either p
            (not (text_eq (host.arg_string args "state") (codes "approved"))
              && not (text_eq (host.arg_string args "state") (codes "rejected")))
            _ _ (ef-IsSafe p sid _ _)
            (review_valid-IsSafe o r b (magnitude (host.arg_int args "mr" (pos 0)))
              (host.arg_string args "state") (host.arg_string args "body") (grants.knows _ has)))
          (ef-IsSafe p sid _ _)

    submit_mr-IsSafe :
        (o r b base title description to : Text)
        → Spells sid (o, r, b)
        → IsSafe p (submit_mr host (o, r, b) base title description to sid)
    unfolding submit_mr
    submit_mr-IsSafe o r b base title description to own =
        handled p _ _ _ (create_mr-IsSafe p sid target grants o r b own title description base)
          (λ mr.
            within p _ _ (tell-IsSafe p sid target grants to _ _ _ _) (λ _. say-IsSafe p sid _ _ _))
          (λ e. ef-IsSafe p sid _ _)

module _ (p : Policy) (sid : Text) (host : Host) (args : Fields)
    (grants : Grants p sid (host.arg_string args "target")) where
  pub create-IsSafe : IsSafe p (create host args sid)
  unfolding create
  create-IsSafe = in_workspace p sid _ λ (o, r, b) has.
      let target = host.arg_string args "target" in
      either p (is_empty target) _ _ (ef-IsSafe p sid _ _) (
        either p (text_eq target b) _ _ (ef-IsSafe p sid _ _) (
          within p _ _ (grants.adopts o r b (grants.knows _ has)) (λ (to, fresh).
            submit_mr-IsSafe p sid target grants host args o r b target _ _ to
              (grants.knows _ has))))
