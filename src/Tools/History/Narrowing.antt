-- ===== src/Tools/History/Narrowing.antt =====
-- Which files of a patch git-diff can show (tools.go: diffForPath).
use repo_extension.Base.{◌≡◌, refl, ap, false, List, [], ◌∷◌, ◌++◌, Option-cases, inl, inr}
use repo_extension.Base.Text.{Text, codes, text_eq}
use repo_extension.Tools.History.Patches.{
  split_blocks, without_prefix, first_text_line, is_block_of, blocks_of, newline_joined,
  diff_for_path,
}

-- The header that the blocks of a file must have.
abbrev pub header_of : Text → Text
header_of path = codes "a/" ++ (path ++ (codes " b/" ++ path))

abbrev pub behind_first : List Text → List Text
behind_first [] = []
behind_first (b ∷ bs) = bs

-- A block that begins with a `d` has another header.
not_its_block : (path block : Text) → is_block_of (header_of path) (b'd' ∷ block) ≡ false
unfolding first_text_line text_eq
not_its_block path block = elim (Option-cases (first_text_line block)) [
  | inl e ↦ rw e refl
  | inr (l, e) ↦ rw e refl
]

abbrev with_d : List Text → List Text
with_d [] = (b'd' ∷ []) ∷ []
with_d (b ∷ bs) = (b'd' ∷ b) ∷ bs

dropped :
    (path : Text) (bs : List Text)
    → blocks_of (header_of path) (with_d bs) ≡ blocks_of (header_of path) (behind_first (with_d bs))
dropped path [] = rw (not_its_block path []) refl
dropped path (b ∷ bs) = rw (not_its_block path b) refl

-- The blocks that a patch is split into, behind its first byte.
first_dropped :
    (path rest : Text)
    → blocks_of (header_of path) (split_blocks 0 (b'd' ∷ rest))
      ≡ blocks_of (header_of path) (behind_first (split_blocks 0 (b'd' ∷ rest)))
unfolding split_blocks without_prefix
first_dropped path rest = dropped path (split_blocks 0 rest)

-- A patch that begins as git writes it, with `diff --git`: what is shown of a path comes from the files
-- behind the first one, so the first file of a patch is never shown, also when it is the one asked for.
pub diff_for_path-behind_first :
    (path rest : Text)
    → diff_for_path (codes "diff --git " ++ rest) path
      ≡ newline_joined
          (blocks_of (header_of path) (behind_first (split_blocks 0 (codes "diff --git " ++ rest))))
unfolding diff_for_path
diff_for_path-behind_first path rest =
    ap newline_joined (first_dropped path (codes "iff --git " ++ rest))
