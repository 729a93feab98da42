-- ===== src/Patch/Build/Sourced.antt =====
-- Where the lines of the printed hunks come from: each is a line of the diff, below one hunk header.
use mathlib.Core.Path.{subst}
use mathlib.Core.Option.{some-injective}
use tgent.Prelude.{
  ℕ, zero, suc, String, ◌≡◌, sym, some, List, [], ◌∷◌, ◌++◌, get_elem?, concat, All, All-append,
  Option-cases, inl, inr,
}
use tgent.Patch.Lines.{Entry, match_header, read_entries}
use tgent.Patch.Lines.Placed.{IsPlaced, read_entries-IsPlaced, All-get_elem}
use tgent.Patch.Select.{entry_at, sorted, included, selected_from, segments_of}
use tgent.Patch.Select.Segments.{entries_at, segments_of-concat}

-- The entries are lines of the diff below one header, and their numbers are counted from it.
pub record IsSourced (diff : List String) (es : List Entry) : Type 0 where
  pub above : List String
  pub header : String
  pub below : List String
  pub old : ℕ
  pub new : ℕ
  pub is_diff : diff ≡ above ++ header ∷ below
  pub matched : match_header header ≡ some (old, new)
  pub placed : All (λ e. (i : ℕ) × IsPlaced old new below i e) es

module _ (P : Entry → Type 0) where
  All-at : (es : List Entry) (i : ℕ) {e : Entry} → All P es → get_elem? es i ≡ some e → P e
  All-at [] i a h = cc
  All-at (f ∷ es) zero a h = subst P (some-injective f _ h) a.0
  All-at (f ∷ es) (suc i) a h = All-at es i a.1 h

  All-entry_at : (es : List Entry) → All P es → (i : ℕ) → All P (entry_at es i)
  unfolding entry_at
  All-entry_at es a i = elim (Option-cases (get_elem? es i)) [
    | inl out ↦ rw (out, All) tt
    | inr (e, h) ↦ rw (h, All) (All-at es i a h, tt)
  ]

  All-entries_at : (es : List Entry) → All P es → (is : List ℕ) → All P (entries_at es is)
  All-entries_at es a [] = tt
  All-entries_at es a (i ∷ is) =
      All-append P (entry_at es i) (entries_at es is) (All-entry_at es a i) (All-entries_at es a is)

  All-left : (xs ys : List Entry) → All P (xs ++ ys) → All P xs
  All-left [] ys a = tt
  All-left (x ∷ xs) ys a = (a.0, All-left xs ys a.1)

  All-right : (xs ys : List Entry) → All P (xs ++ ys) → All P ys
  All-right [] ys a = a
  All-right (x ∷ xs) ys a = All-right xs ys a.1

  All-parts : (xss : List (List Entry)) → All P (concat xss) → All (λ xs. All P xs) xss
  All-parts [] a = tt
  All-parts (xs ∷ xss) a = (All-left xs (concat xss) a, All-parts xss (All-right xs (concat xss) a))

  -- What holds of the entries of a hunk holds of those of its segments.
  All-segments_of :
      (old_lines new_lines : List ℕ) (es : List Entry)
      → All P es
      → All (λ s. All P s) (segments_of old_lines new_lines es)
  All-segments_of old_lines new_lines es a = All-parts (segments_of old_lines new_lines es) (
      subst (All P) (sym (segments_of-concat old_lines new_lines es))
        (All-entries_at es a (sorted (included es (selected_from old_lines new_lines 0 es)))))

-- The segments of the entries that are read below a header come from there.
pub segments_of-IsSourced :
    (diff above below : List String) (header : String) (old new : ℕ) (old_lines new_lines : List ℕ)
    → diff ≡ above ++ header ∷ below
    → match_header header ≡ some (old, new)
    → All (IsSourced diff) (segments_of old_lines new_lines (read_entries below old new).0)
segments_of-IsSourced diff above below header old new old_lines new_lines is_diff matched =
    each (segments_of old_lines new_lines (read_entries below old new).0) (
      All-segments_of (λ e. (i : ℕ) × IsPlaced old new below i e) old_lines new_lines
        (read_entries below old new).0
        (All-get_elem (λ e. (i : ℕ) × IsPlaced old new below i e) (read_entries below old new).0
          (λ i f h. (i, read_entries-IsPlaced below old new i f h))))
  where
    each :
        (ss : List (List Entry))
        → All (λ s. All (λ e. (i : ℕ) × IsPlaced old new below i e) s) ss
        → All (IsSourced diff) ss
    each [] a = tt
    each (s ∷ ss) a = (
      record {
        above = above;
        header = header;
        below = below;
        old = old;
        new = new;
        is_diff = is_diff;
        matched = matched;
        placed = a.0;
      },
      each ss a.1,
    )
