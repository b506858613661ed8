-- ===== src/Surface/Listing.antt =====
-- The listing of repositories against an independent description (sessions_http.go: listRepos).
use repo_extension.Base.{
  ◌≡◌, refl, Bool, true, false, ◌&&◌, Option, none, some, List, [], ◌∷◌, ◌++◌, arith, ==-refl, ◌∙◌,
  if◌then◌else◌, Bool-cases, inl, inr,
}
use repo_extension.Base.Text.{Text, Lacks, text_eq}
use repo_extension.Base.Lists.{All, any}
use repo_extension.Effects.{MapRow}
use repo_extension.Store.Tables.{in_repo, is_at, find}
use repo_extension.Store.Unique.{Unique, Apart, Apart-is_at}
use repo_extension.Jjlab.Tree.{BookmarkInfo, Repos, RepoTree}
use repo_extension.Surface.{
  BookmarkEntry, RepoEntry, OrgEntry, slash, bookmark_key, row_key, bound_at, is_managed_in,
  bookmark_entries, repo_entries, org_entries,
}

abbrev session_of : Option MapRow → Option Text
session_of none = none
session_of (some row) = some row.session_name

-- The listing as it is meant: a bookmark with the session of its row, a repository that is managed when it
-- has a row of managed_repos.
abbrev described_bookmarks : List MapRow → Text → Text → List BookmarkInfo → List BookmarkEntry
described_bookmarks rows org repo bms =
    bookmark_entries (λ bm. session_of (find (is_at org repo bm) rows)) bms

abbrev described_repos : List MapRow → List MapRow → Text → Repos → List RepoEntry
described_repos rows managed org [] = []
described_repos rows managed org ((repo, bms) ∷ repos) =
    record {
      repo = repo;
      managed = any (in_repo org repo) managed;
      bookmarks = described_bookmarks rows org repo bms;
    }
    ∷ described_repos rows managed org repos

abbrev pub described : List MapRow → List MapRow → RepoTree → List OrgEntry
described rows managed [] = []
described rows managed ((org, repos) ∷ tree) =
    record { org = org; repos = described_repos rows managed org repos }
    ∷ described rows managed tree

abbrev pub SlashFree : MapRow → Type 0
SlashFree row = Lacks slash row.org × Lacks slash row.repo

-- Keys with the same separator are equal when their parts are.
text_eq_keys :
    (p p' q q' : Text)
    → Lacks slash p
    → Lacks slash p'
    → text_eq (p ++ (slash ∷ q)) (p' ++ (slash ∷ q')) ≡ (text_eq p p' && text_eq q q')
unfolding text_eq
text_eq_keys [] [] q q' h h' = ground (arith, ==-refl slash)
text_eq_keys [] (d ∷ p') q q' h h' = ground (arith, h'.0)
text_eq_keys (c ∷ p) [] q q' h h' = ground (arith, h.0)
text_eq_keys (c ∷ p) (d ∷ p') q q' h h' = ground (arith, text_eq_keys p p' q q' h.1 h'.1)

kept_entry :
    (s : Option Text) (matches : Bool) (sid : Text)
    → matches ≡ false
    → elim s [ some later ↦ some later | none ↦ if matches then some sid else none ] ≡ s
kept_entry none matches sid h = rw h refl
kept_entry (some later) matches sid h = refl

entries_eq :
    (f g : Text → Option Text) (bms : List BookmarkInfo)
    → ((bm : Text) → f bm ≡ g bm)
    → bookmark_entries f bms ≡ bookmark_entries g bms
entries_eq f g [] h = refl
entries_eq f g (bm ∷ bms) h = rw (h bm.name, entries_eq f g bms h) refl

module _ (o r : Text) (ho : Lacks slash o) (hr : Lacks slash r) where
  row_key-is_at :
      (b : Text) (x : MapRow)
      → SlashFree x
      → text_eq (row_key x) (bookmark_key o r b) ≡ is_at o r b x
  row_key-is_at b x h = ground (
    arith,
    text_eq_keys x.org o (x.repo ++ (slash ∷ x.bookmark)) (r ++ (slash ∷ b)) h.0 ho,
    text_eq_keys x.repo r x.bookmark b h.1 hr,
  )

  none_at :
      (b : Text) (rows : List MapRow) (x : MapRow)
      → is_at o r b x ≡ true
      → All (Apart x) rows
      → find (is_at o r b) rows ≡ none
  none_at b [] x h a = refl
  none_at b (y ∷ rows) x h a = let e = Apart-is_at o r b x y h a.0 in rw e (none_at b rows x h a.1)

  bound_at-find :
      (b : Text) (rows : List MapRow)
      → Unique rows
      → All SlashFree rows
      → bound_at row_key rows (bookmark_key o r b) ≡ session_of (find (is_at o r b) rows)
  unfolding bound_at
  bound_at-find b [] u s = refl
  bound_at-find b (x ∷ rows) u s =
      let ih = bound_at-find b rows u.1 s.1 in
      let k = row_key-is_at b x s.0 in
      elim (Bool-cases (is_at o r b x)) [
        | inl e ↦ rw (ih, none_at b rows x e u.0, k, e) refl
        | inr e ↦
            rw (ih, e) (kept_entry (session_of (find (is_at o r b) rows)) _ x.session_name (k ∙ e))
      ]

  is_managed_in-any :
      (managed : List MapRow)
      → All SlashFree managed
      → is_managed_in managed o r ≡ any (in_repo o r) managed
  is_managed_in-any [] h = refl
  is_managed_in-any (m ∷ managed) h =
      rw (text_eq_keys m.org o m.repo r h.0.0 ho, is_managed_in-any managed h.1) refl

-- The repositories of an organization, and a whole tree, without a slash in the names.
abbrev FreeRepos : Repos → Type 0
FreeRepos repos = All (λ e. Lacks slash e.0) repos

abbrev pub FreeTree : RepoTree → Type 0
FreeTree tree = All (λ e. Lacks slash e.0 × FreeRepos e.1) tree

module _ (rows managed : List MapRow) (u : Unique rows) (sr : All SlashFree rows)
    (sm : All SlashFree managed) where
  repo_entries-described :
      (org : Text) (repos : Repos)
      → Lacks slash org
      → FreeRepos repos
      → repo_entries rows managed org repos ≡ described_repos rows managed org repos
  unfolding repo_entries
  repo_entries-described org [] h hs = refl
  repo_entries-described org ((repo, bms) ∷ repos) h hs =
      rw
        (
          is_managed_in-any org repo h hs.0 managed sm,
          entries_eq _ _ bms (λ bm. bound_at-find org repo h hs.0 bm rows u sr),
          repo_entries-described org repos h hs.1,
        )
        refl

  -- Where no two rows share a bookmark or a session, and no name of an organization or a repository in the
  -- tree, the rows or the managed repositories holds a slash: the listing shows each bookmark of the tree
  -- in its order with the session of the row at its place and no other, none where it has no row, and each
  -- repository as managed exactly when it has a row of managed_repos, although the source looks both up
  -- under texts that it joins with slashes.
  pub org_entries-described :
      (tree : RepoTree)
      → FreeTree tree
      → org_entries rows managed tree ≡ described rows managed tree
  unfolding org_entries
  org_entries-described [] h = refl
  org_entries-described ((org, repos) ∷ tree) h =
      rw (repo_entries-described org repos h.0.0 h.0.1, org_entries-described tree h.1) refl
