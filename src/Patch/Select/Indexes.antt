-- ===== src/Patch/Select/Indexes.antt =====
-- Which indexes of a hunk are kept, and in which order.
use tgent.Prelude.{
  ℕ, zero, suc, ◌+◌, ◌-◌, ◌<◌, Bool, false, ◌&&◌, ◌||◌, ◌≡◌, refl, none, some, List, [], ◌∷◌, ◌++◌,
  leb, nat_eq, get_elem?, arith,
}
use tgent.Patch.Lines.{Entry}
use tgent.Patch.Select.{
  mem_nat, is_selected, selected_from, context_at, neighbours, neighbours_all, included,
  insert_sorted, sorted,
}

-- Increasing numbers, each once.
abbrev pub Above : ℕ → List ℕ → Type 0
Above x [] = Unit
Above x (y ∷ ys) = (x < y) × Above y ys

abbrev pub IsIncreasing : List ℕ → Type 0
IsIncreasing [] = Unit
IsIncreasing (x ∷ xs) = Above x xs

Above-insert_sorted : (b x : ℕ) (ys : List ℕ) → b < x → Above b ys → Above b (insert_sorted x ys)
unfolding insert_sorted
Above-insert_sorted b x [] h a = (h, tt)
Above-insert_sorted b x (y ∷ ys) h a = ground (arith, Above-insert_sorted y x ys)

insert_sorted-IsIncreasing :
    (x : ℕ) (ys : List ℕ) → IsIncreasing ys → IsIncreasing (insert_sorted x ys)
unfolding insert_sorted
insert_sorted-IsIncreasing x [] h = tt
insert_sorted-IsIncreasing x (y ∷ ys) h = ground (arith, Above-insert_sorted y x ys)

-- Sorting gives increasing indexes, each once.
sorted-IsIncreasing : (xs : List ℕ) → IsIncreasing (sorted xs)
unfolding sorted
sorted-IsIncreasing [] = tt
sorted-IsIncreasing (x ∷ xs) = insert_sorted-IsIncreasing x (sorted xs) (sorted-IsIncreasing xs)

mem_nat-insert_sorted :
    (i x : ℕ) (ys : List ℕ) → mem_nat i (insert_sorted x ys) ≡ (nat_eq x i || mem_nat i ys)
unfolding mem_nat insert_sorted
mem_nat-insert_sorted i x [] = refl
mem_nat-insert_sorted i x (y ∷ ys) = ground (arith, mem_nat-insert_sorted i x ys)

pub mem_nat-sorted : (i : ℕ) (xs : List ℕ) → mem_nat i (sorted xs) ≡ mem_nat i xs
unfolding mem_nat sorted
mem_nat-sorted i [] = refl
mem_nat-sorted i (x ∷ xs) =
    ground (arith, mem_nat-insert_sorted i x (sorted xs), mem_nat-sorted i xs)

mem_nat-append : (i : ℕ) (xs ys : List ℕ) → mem_nat i (xs ++ ys) ≡ (mem_nat i xs || mem_nat i ys)
unfolding mem_nat
mem_nat-append i [] ys = refl
mem_nat-append i (x ∷ xs) ys = ground (arith, mem_nat-append i xs ys)

mem_nat-neighbours :
    (entries : List Entry) (i j : ℕ)
    → mem_nat i (neighbours entries j)
      ≡ (context_at entries i && (nat_eq j (i + 1) || leb 1 i && nat_eq j (i - 1)))
unfolding mem_nat neighbours
mem_nat-neighbours entries i zero = ground arith
mem_nat-neighbours entries i (suc j) = ground arith

mem_nat-neighbours_all :
    (entries : List Entry) (i : ℕ) (js : List ℕ)
    → mem_nat i (neighbours_all entries js)
      ≡ (context_at entries i && (mem_nat (i + 1) js || leb 1 i && mem_nat (i - 1) js))
unfolding mem_nat neighbours_all
mem_nat-neighbours_all entries i [] = ground arith
mem_nat-neighbours_all entries i (j ∷ js) = ground (
  arith,
  mem_nat-append i (neighbours entries j) (neighbours_all entries js),
  mem_nat-neighbours entries i j,
  mem_nat-neighbours_all entries i js,
)

module _ (old_lines new_lines : List ℕ) where
  -- The entry at the index is a change that the caller selected.
  unfoldable pub selected_at : List Entry → ℕ → Bool
  selected_at entries i = elim (get_elem? entries i) [
    | none ↦ false
    | some e ↦ is_selected old_lines new_lines e
  ]

  selected_from-below :
      (start : ℕ) (entries : List Entry) (i : ℕ)
      → i < start
      → mem_nat i (selected_from old_lines new_lines start entries) ≡ false
  unfolding mem_nat selected_from
  selected_from-below start [] i h = refl
  selected_from-below start (e ∷ es) i h = ground (arith, selected_from-below (suc start) es i)

  mem_nat-selected_from :
      (start : ℕ) (entries : List Entry) (j i : ℕ)
      → i ≡ start + j
      → mem_nat i (selected_from old_lines new_lines start entries) ≡ selected_at entries j
  unfolding mem_nat selected_from selected_at
  mem_nat-selected_from start [] j i h = refl
  mem_nat-selected_from start (e ∷ es) zero i h =
      ground (arith, selected_from-below (suc start) es i)
  mem_nat-selected_from start (e ∷ es) (suc j) i h =
      ground (arith, mem_nat-selected_from (suc start) es j i)

  -- The index is kept exactly if its entry is selected, or if it is a context line right before or
  -- right after a selected entry.
  pub kept_iff :
      (entries : List Entry) (i : ℕ)
      → mem_nat i (sorted (included entries (selected_from old_lines new_lines 0 entries))) ≡ (
          selected_at entries i
          || context_at entries i
            && (selected_at entries (i + 1) || leb 1 i && selected_at entries (i - 1)))
  unfolding included
  kept_iff entries i =
      let chosen = selected_from old_lines new_lines 0 entries in
      ground (
        arith,
        mem_nat-sorted i (chosen ++ neighbours_all entries chosen),
        mem_nat-append i chosen (neighbours_all entries chosen),
        mem_nat-neighbours_all entries i chosen,
        mem_nat-selected_from 0 entries i i,
        mem_nat-selected_from 0 entries (i + 1) (i + 1),
        mem_nat-selected_from 0 entries (i - 1) (i - 1),
      )
