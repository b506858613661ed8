-- ===== src/Tools/Paging.antt =====
-- A reader who follows `next_offset` (tools.go: read).
use repo_extension.Base.{
  ℕ, zero, suc, ◌+◌, ◌-◌, ◌≤◌, ◌<◌, ◌≡◌, refl, sym, Bool, true, false, List, [], ◌++◌, ltb,
  if◌then◌else◌, arith,
}
use repo_extension.Base.Int.{ℤ, pos, less, int64_add, int64_limit}
use repo_extension.Base.Text.{Text}
use repo_extension.Base.Lists.{
  length, take, drop, take-append-drop, take_all, length-drop, drop-drop, drop_all,
}
use repo_extension.Tools.Files.{Page, past_end, page, page_of, shown_lines, next, first_line}

-- What the reader sees from a page on; `rest` is behind its end.
abbrev pub seen : (ℤ → List Text) → List Text → Page → List Text
seen rest lines past_end = []
seen rest lines (page start_idx end_idx true) = shown_lines lines start_idx end_idx ++ rest end_idx
seen rest lines (page start_idx end_idx false) = shown_lines lines start_idx end_idx

-- The lines that a reader sees who starts at `offset` and goes on from the `next_offset` of each reply.
unfoldable pub follow : ℕ → List Text → ℕ → ℤ → List Text
follow zero lines offset limit = []
follow (suc calls) lines offset limit =
    seen (λ end_idx. follow calls lines (first_line (next end_idx)) limit) lines
      (page_of (length lines) offset limit)

-- A page with a limit that does not overflow.
page_of_lem :
    (total s m : ℕ)
    → s ≤ total
    → s + suc m < int64_limit
    → page_of total (suc s) (pos (suc m))
      ≡ (if ltb (s + suc m) total then page s (pos (s + suc m)) true else page s (pos total) false)
unfolding page_of less int64_add
page_of_lem total s m hs hm = ground arith

module _ (lines : List Text) (m : ℕ) where
  abbrev total : ℕ
  total = length lines

  take-drop : (k s : ℕ) → take k (drop s lines) ++ drop (s + k) lines ≡ drop s lines
  take-drop k s = rw (← drop-drop k s lines) (take-append-drop k (drop s lines))

  -- One page more, when the reader sees the rest from its end.
  seen_from :
      (s : ℕ) (rest : ℤ → List Text) (b : Bool)
      → s ≤ total
      → ltb (s + suc m) total ≡ b
      → (s + suc m ≤ total → rest (pos (s + suc m)) ≡ drop (s + suc m) lines)
      → seen rest lines (if b then page s (pos (s + suc m)) true else page s (pos total) false)
        ≡ drop s lines
  unfolding shown_lines
  seen_from s rest true hs h ih =
      let k : s + suc m - s ≡ suc m = omega arith in rw (k, ih (ground arith)) (take-drop (suc m) s)
  seen_from s rest false hs h ih =
      take_all (total - s) (drop s lines) (omega (arith, length-drop s lines))

  next_line : (e : ℕ) → first_line (next (pos e)) ≡ suc e
  next_line e = let k : e + 1 ≡ suc e = omega arith in rw k refl

  -- The calls that remain are enough for the lines that remain.
  follow_from :
      (calls s : ℕ)
      → s ≤ total
      → total + suc m < int64_limit
      → total - s ≤ calls
      → follow calls lines (suc s) (pos (suc m)) ≡ drop s lines
  unfolding follow
  follow_from zero s hs hm hc = sym (drop_all s lines (omega arith))
  follow_from (suc calls) s hs hm hc = rw (page_of_lem total s m hs (omega arith)) (
      seen_from s _ (ltb (s + suc m) total) hs refl
        (λ k. rw (next_line (s + suc m)) (follow_from calls (s + suc m) k hm (omega arith))))

-- A file is read to its end: with a limit of at least one line, which does not overflow an int64 together
-- with the number of lines, a reader who starts at the first line and follows `next_offset` sees each line
-- of the file once and in order, after no more calls than the file has lines.
pub follow-all :
    (lines : List Text) (m : ℕ)
    → length lines + suc m < int64_limit
    → follow (length lines) lines 1 (pos (suc m)) ≡ lines
follow-all lines m h = follow_from lines m (length lines) 0 (omega arith) h (omega arith)
