-- ===== src/Paths/Sorted.antt =====
-- Sorting keeps what holds of every element.
use tgent.Prelude.{String, Bool, true, false, List, [], ◌∷◌, All, if◌then◌else◌}
use tgent.Paths.{insert_by, sort_by, text_leb}

module _ {A : Type 0} (key : A → String) (P : A → Type 0) where
  insert_by-All : (x : A) (xs : List A) → P x → All P xs → All P (insert_by key x xs)
  insert_by-All x [] p ps = (p, tt)
  insert_by-All x (y ∷ ys) p ps = placed (text_leb (key x) (key y)) (insert_by-All x ys p ps.1)
    where
      placed :
          (first : Bool)
          → All P (insert_by key x ys)
          → All P (if first then x ∷ y ∷ ys else y ∷ insert_by key x ys)
      placed true rest = (p, ps)
      placed false rest = (ps.0, rest)

  pub sort_by-All : (xs : List A) → All P xs → All P (sort_by key xs)
  unfolding sort_by
  sort_by-All [] ps = tt
  sort_by-All (x ∷ xs) ps = insert_by-All x (sort_by key xs) ps.0 (sort_by-All xs ps.1)
