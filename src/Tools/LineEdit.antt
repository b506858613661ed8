-- ===== src/Tools/LineEdit.antt =====
-- What line edits do to a file, and when they panic (tools.go: applyLineEdit).
use mathlib.Core.Path.{subst}
use repo_extension.Base.{
  ℕ, suc, zero, ◌+◌, ◌-◌, ◌≤◌, ◌<◌, ◌≡◌, ◌≢◌, ◌↔◌, refl, ◌∙◌, ap, true, false, List, [], ◌∷◌, ◌++◌,
  arith, if◌then◌else◌, ltb, leb,
}
use repo_extension.Base.Text.{
  Text, is_empty, split, join, Lacks, split-join, join-split, split-Lacks, split-ne-nil,
}
use repo_extension.Base.Lists.{
  All, All-append, length, take, drop, length-append, take-append-drop, length-drop, length-take,
}
use repo_extension.Base.Int.{ℤ, pos, negsuc, less}
use repo_extension.Tools.{
  newline, ends_newline, trim_newline, edited, edit_panics, lines_of, content_lines, rejoin, splice,
  insert_lines, replace_lines, apply_line_edit,
}

pos_inj : (a b : ℕ) → pos a ≡ pos b → a ≡ b
pos_inj a b h = cc

-- A replacement panics exactly when its end is one line behind the last one, its start being at most
-- there; every other edit, insertions included, gives a text or an error.
pub apply_line_edit-panics :
    (current content : Text) (start end : ℤ)
    → (apply_line_edit current start end content ≡ edit_panics) ↔ (
        (end ≡ pos (length (lines_of current) + 1))
        × (less start (pos 1) ≡ false)
        × (less end start ≡ false))
unfolding apply_line_edit less insert_lines replace_lines
apply_line_edit-panics current content (negsuc a) end = ground arith
apply_line_edit-panics current content (pos s) (negsuc b) = ground arith
apply_line_edit-panics current content (pos s) (pos e) = (
  λ h. (ground arith, ground arith, ground arith),
  λ h. ground (arith, pos_inj e (length (lines_of current) + 1) h.0),
)

ends_newline-append : (body : Text) → ends_newline (body ++ (newline ∷ [])) ≡ true
unfolding ends_newline
ends_newline-append [] = refl
ends_newline-append (c ∷ []) = refl
ends_newline-append (c ∷ d ∷ body) = ends_newline-append (d ∷ body)

trim_newline-append : (body : Text) → trim_newline (body ++ (newline ∷ [])) ≡ body
unfolding trim_newline
trim_newline-append [] = refl
trim_newline-append (c ∷ []) = refl
trim_newline-append (c ∷ d ∷ body) = ap (λ s. c ∷ s) (trim_newline-append (d ∷ body))

-- The lines of a text without its last newline.
abbrev body_lines : Text → List Text
body_lines body = if is_empty body then [] else split newline body

lines_of-append : (body : Text) → lines_of (body ++ (newline ∷ [])) ≡ body_lines body
unfolding lines_of
lines_of-append body = rw (trim_newline-append body, lines_of)

join-body_lines : (body : Text) → join newline (body_lines body) ≡ body
unfolding join
join-body_lines [] = refl
join-body_lines (c ∷ body) = join-split newline (c ∷ body)

body_lines-Lacks : (body : Text) → All (Lacks newline) (body_lines body)
body_lines-Lacks [] = tt
body_lines-Lacks (c ∷ body) = split-Lacks newline (c ∷ body)

All-take : (P : Text → Type 0) (n : ℕ) (xs : List Text) → All P xs → All P (take n xs)
All-take P zero xs h = tt
All-take P (suc n) [] h = tt
All-take P (suc n) (x ∷ xs) h = (h.0, All-take P n xs h.1)

All-drop : (P : Text → Type 0) (n : ℕ) (xs : List Text) → All P xs → All P (drop n xs)
All-drop P zero xs h = h
All-drop P (suc n) [] h = tt
All-drop P (suc n) (x ∷ xs) h = All-drop P n xs h.1

is_empty-append : (p q : Text) (c : ℕ) → is_empty (p ++ (c ∷ q)) ≡ false
is_empty-append [] q c = refl
is_empty-append (x ∷ p) q c = refl

-- A join is not empty when a part of its list has a join that is not.
is_empty-join :
    (bs cs ds : List Text)
    → is_empty (join newline cs) ≡ false
    → is_empty (join newline (bs ++ (cs ++ ds))) ≡ false
unfolding join
is_empty-join [] [] ds h = cc
is_empty-join [] (c ∷ []) [] h = h
is_empty-join [] (c ∷ []) (d ∷ ds) h = is_empty-append c (join newline (d ∷ ds)) newline
is_empty-join [] (c ∷ k ∷ cs) ds h = is_empty-append c (join newline (k ∷ (cs ++ ds))) newline
is_empty-join (a ∷ []) [] ds h = cc
is_empty-join (a ∷ []) (c ∷ cs) ds h = is_empty-append a (join newline (c ∷ (cs ++ ds))) newline
is_empty-join (a ∷ b ∷ bs) cs ds h =
    is_empty-append a (join newline (b ∷ (bs ++ (cs ++ ds)))) newline

take-splice : (n : ℕ) (xs ys : List Text) → n ≤ length xs → take n (take n xs ++ ys) ≡ take n xs
take-splice zero xs ys h = refl
take-splice (suc n) [] ys h = absurd (omega arith)
take-splice (suc n) (x ∷ xs) ys h = ap (λ zs. x ∷ zs) (take-splice n xs ys (omega arith))

drop-splice :
    (n : ℕ) (xs cs ds : List Text)
    → n ≤ length xs
    → drop (n + length cs) (take n xs ++ (cs ++ ds)) ≡ ds
drop-splice n xs cs ds h = drop_from (take n xs) (length-take n xs h)
  where
    behind : (ks : List Text) → drop (length ks) (ks ++ ds) ≡ ds
    behind [] = refl
    behind (k ∷ ks) = behind ks

    drop_from :
        (ps : List Text) {m : ℕ} → length ps ≡ m → drop (m + length cs) (ps ++ (cs ++ ds)) ≡ ds
    drop_from [] e = ap (λ k. drop k (cs ++ ds)) (omega arith) ∙ behind cs
    drop_from (p ∷ ps) {m} e =
        let q : m + length cs ≡ suc (length ps + length cs) = omega arith in
        ap (λ k. drop k (p ∷ (ps ++ (cs ++ ds)))) q ∙ drop_from ps refl

filled : (content : Text) → content ≢ [] → content_lines content ≡ split newline content
unfolding content_lines
filled [] h = absurd (h refl)
filled (c ∷ content) h = refl

not_empty : (s : Text) → s ≢ [] → is_empty s ≡ false
not_empty [] h = absurd (h refl)
not_empty (c ∷ s) h = refl

nonempty : (bs cs ds : List Text) → cs ≢ [] → bs ++ (cs ++ ds) ≢ []
nonempty [] [] ds h = absurd (h refl)
nonempty [] (c ∷ cs) ds h = cc
nonempty (b ∷ bs) cs ds h = cc

insert_of :
    (current content : Text) (s : ℕ)
    → s ≤ length (lines_of current)
    → apply_line_edit current (pos (suc s)) (pos s) content
      ≡ edited (rejoin current (splice s s content (lines_of current)))
unfolding apply_line_edit less insert_lines
insert_of current content s h =
    let from_one : ltb (suc s) 1 ≡ false = ground arith in
    let in_range : ltb (length (lines_of current) + 1) (suc s) ≡ false = ground arith in
    let inserts : ltb s (suc s) ≡ true = ground arith in
    let place : suc s - 1 ≡ s = omega arith in
    let at : ltb (length (lines_of current)) s ≡ false = ground arith in
    rw (from_one, in_range, inserts, place, at)

replace_of :
    (current content : Text) (s e : ℕ)
    → s < e
    → e ≤ length (lines_of current)
    → apply_line_edit current (pos (suc s)) (pos e) content
      ≡ edited (rejoin current (splice s e content (lines_of current)))
unfolding apply_line_edit less replace_lines
replace_of current content s e h k =
    let from_one : ltb (suc s) 1 ≡ false = ground arith in
    let in_range : ltb (length (lines_of current) + 1) (suc s) ≡ false = ground arith in
    let replaces : ltb e (suc s) ≡ false = ground arith in
    let ends : ltb (length (lines_of current) + 1) e ≡ false = ground arith in
    let place : suc s - 1 ≡ s = omega arith in
    let sliced : leb e (length (lines_of current)) ≡ true = ground arith in
    rw (from_one, in_range, replaces, ends, place, sliced)

length-pos : (xs : List Text) → xs ≢ [] → 0 < length xs
length-pos [] h = absurd (h refl)
length-pos (x ∷ xs) h = omega arith

module _ (body content : Text) (s : ℕ) (inside : s ≤ length (lines_of (body ++ (newline ∷ []))))
    (some_content : content ≢ []) where
  abbrev current : Text
  current = body ++ (newline ∷ [])

  abbrev old : List Text
  old = body_lines body

  abbrev mid : List Text
  mid = split newline content

  abbrev inserted : List Text
  inserted = splice s s content old

  inside_old : s ≤ length old
  inside_old = subst (λ ls. s ≤ length ls) (lines_of-append body) inside

  mid_lines : content_lines content ≡ mid
  mid_lines = filled content some_content

  inserted_lines : inserted ≡ take s old ++ (mid ++ drop s old)
  inserted_lines = ap (λ ls. take s old ++ (ls ++ drop s old)) mid_lines

  abbrev new : Text
  new = join newline (take s old ++ (mid ++ drop s old)) ++ (newline ∷ [])

  new_lines : lines_of new ≡ take s old ++ (mid ++ drop s old)
  new_lines =
      lines_of-append (join newline (take s old ++ (mid ++ drop s old)))
      ∙ rw
          (is_empty-join (take s old) mid (drop s old)
            (rw (join-split newline content) (not_empty content some_content)))
          (split-join newline (take s old ++ (mid ++ drop s old))
            (nonempty (take s old) mid (drop s old) (split-ne-nil newline content))
            (All-append (Lacks newline) (take s old) (mid ++ drop s old)
              (All-take (Lacks newline) s old (body_lines-Lacks body))
              (All-append (Lacks newline) mid (drop s old) (split-Lacks newline content)
                (All-drop (Lacks newline) s old (body_lines-Lacks body)))))

  room : length (take s old ++ (mid ++ drop s old)) ≡ length old + length mid
  room = omega (
    arith,
    length-append (take s old) (mid ++ drop s old),
    length-append mid (drop s old),
    length-take s old inside_old,
    length-drop s old,
    inside_old,
  )

  insertion : apply_line_edit current (pos (suc s)) (pos s) content ≡ edited new
  unfolding rejoin
  insertion =
      insert_of current content s inside
      ∙ rw (ends_newline-append body, lines_of-append body, mid_lines)

  deletion : apply_line_edit new (pos (suc s)) (pos (s + length mid)) [] ≡ edited current
  unfolding rejoin content_lines
  deletion =
      let some_mid = length-pos mid (split-ne-nil newline content) in
      replace_of new [] s (s + length mid) (omega arith)
        (rw new_lines (omega (arith, room, inside_old)))
      ∙ rw (
        ends_newline-append (join newline (take s old ++ (mid ++ drop s old))),
        new_lines,
        take-splice s old (mid ++ drop s old) inside_old,
        drop-splice s old mid (drop s old) inside_old,
        take-append-drop s old,
        join-body_lines body,
      )

  -- An insertion of content that is not empty behind the first `s` lines of a text that ends in a
  -- newline and has at least `s` lines succeeds, and the replacement of the inserted lines by
  -- nothing gives the text back.
  pub insert_then_delete :
      (inserted_text : Text) × (apply_line_edit
          (body ++ (newline ∷ []))
          (pos (suc s))
          (pos s)
          content
        ≡ edited inserted_text)
      × (apply_line_edit inserted_text (pos (suc s)) (pos (s + length (split newline content))) []
          ≡ edited (body ++ (newline ∷ [])))
  insert_then_delete = (new, insertion, deletion)
