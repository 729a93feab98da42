-- ===== src/Patch/Select.antt =====
-- Choosing entries: the selected indexes, their context neighbours and the segments of consecutive
-- indexes (`build_selected_patch`).
pub mod Indexes
pub mod Segments
use tgent.Prelude.{
  ℕ, zero, suc, ◌+◌, ◌-◌, Bool, true, false, not, ◌&&◌, ◌||◌, Option, none, some, List, [], ◌∷◌,
  ◌++◌, leb, ltb, nat_eq, get_elem?, if◌then◌else◌,
}
use tgent.Patch.Lines.{Kind, context, removed, added, Entry, is_context}

-- `x in xs` for a set of numbers
unfoldable pub mem_nat : ℕ → List ℕ → Bool
mem_nat x [] = false
mem_nat x (y ∷ ys) = nat_eq y x || mem_nat x ys

abbrev pub mem_ref : Option ℕ → List ℕ → Bool
mem_ref none xs = false
mem_ref (some n) xs = mem_nat n xs

abbrev pub is_removed : Kind → Bool
is_removed removed = true
is_removed _ = false

abbrev pub is_added : Kind → Bool
is_added added = true
is_added _ = false

module _ (old_lines new_lines : List ℕ) where
  -- the condition of `selected_indexes`
  unfoldable pub is_selected : Entry → Bool
  is_selected e =
      is_removed e.kind && mem_ref e.old_ref old_lines
      || is_added e.kind && mem_ref e.new_ref new_lines

  -- `selected_indexes`, where the first entry has the index `i`
  unfoldable pub selected_from : ℕ → List Entry → List ℕ
  selected_from i [] = []
  selected_from i (e ∷ es) =
      let rest = selected_from (suc i) es in if is_selected e then i ∷ rest else rest

-- `entries[i]["kind"] == " "`, for an index in range
unfoldable pub context_at : List Entry → ℕ → Bool
context_at entries i = elim (get_elem? entries i) [ none ↦ false | some e ↦ is_context e.kind ]

-- the two `included_indexes.add` of one selected index
unfoldable pub neighbours : List Entry → ℕ → List ℕ
neighbours entries idx =
    (if leb 1 idx && context_at entries (idx - 1) then (idx - 1) ∷ [] else [])
    ++ (if context_at entries (idx + 1) then (idx + 1) ∷ [] else [])

-- `included_indexes`
unfoldable pub neighbours_all : List Entry → List ℕ → List ℕ
neighbours_all entries [] = []
neighbours_all entries (i ∷ is) = neighbours entries i ++ neighbours_all entries is

unfoldable pub included : List Entry → List ℕ → List ℕ
unfolding neighbours_all
included entries selected = selected ++ neighbours_all entries selected

-- `sorted` of a set: each number once, in increasing order
unfoldable pub insert_sorted : ℕ → List ℕ → List ℕ
insert_sorted x [] = x ∷ []
insert_sorted x (y ∷ ys) =
    let rest = insert_sorted x ys in
    if ltb x y then x ∷ y ∷ ys else if nat_eq x y then y ∷ ys else y ∷ rest

unfoldable pub sorted : List ℕ → List ℕ
unfolding insert_sorted
sorted [] = []
sorted (x ∷ xs) = insert_sorted x (sorted xs)

-- `entries[idx]`; no index out of range occurs
unfoldable pub entry_at : List Entry → ℕ → List Entry
entry_at entries idx = elim (get_elem? entries idx) [ none ↦ [] | some e ↦ e ∷ [] ]

-- `segments.append(current_segment)`, for a segment with entries
abbrev pub close : List Entry → List (List Entry) → List (List Entry)
close [] segments = segments
close (e ∷ es) segments = segments ++ (e ∷ es) ∷ []

-- `previous_idx is not None and idx != previous_idx + 1`
abbrev pub breaks : Option ℕ → ℕ → Bool
breaks none idx = false
breaks (some previous) idx = not (nat_eq idx (previous + 1))

-- The loop over `sorted_indexes`.
unfoldable pub cut :
    List Entry → List ℕ → Option ℕ → List Entry → List (List Entry) → List (List Entry)
cut entries [] previous current segments = close current segments
cut entries (idx ∷ rest) previous current segments =
    cut entries rest (some idx)
      (if breaks previous idx then entry_at entries idx else current ++ entry_at entries idx)
      (if breaks previous idx then close current segments else segments)

-- the segments of one hunk
unfoldable pub segments_of : List ℕ → List ℕ → List Entry → List (List Entry)
segments_of old_lines new_lines entries =
    cut entries (sorted (included entries (selected_from old_lines new_lines 0 entries))) none [] []
