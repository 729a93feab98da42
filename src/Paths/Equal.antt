-- ===== src/Paths/Equal.antt =====
-- The tests on paths say whether two paths are one.
use tgent.Prelude.{String, true, ◌≡◌, refl, List, [], ◌∷◌, and-true, text_eq→eq, ◌==◌, eq_refl}
use tgent.Paths.{FilePath, path_eq, texts_eq}

texts_eq→eq : (xs ys : List String) → texts_eq xs ys ≡ true → xs ≡ ys
unfolding texts_eq
texts_eq→eq [] [] e = refl
texts_eq→eq (x ∷ xs) (y ∷ ys) e =
    let (first, rest) = and-true (x == y) (texts_eq xs ys) e in
    λ i. text_eq→eq x y first i ∷ texts_eq→eq xs ys rest i
texts_eq→eq [] (y ∷ ys) e = cc
texts_eq→eq (x ∷ xs) [] e = cc

pub path_eq→eq : (p q : FilePath) → path_eq p q ≡ true → p ≡ q
unfolding path_eq
path_eq→eq p q e =
    let (root, parts) = and-true (p.root == q.root) (texts_eq p.parts q.parts) e in
    λ i. record {
      root = text_eq→eq p.root q.root root i;
      parts = texts_eq→eq p.parts q.parts parts i;
    }

texts_eq_refl : (xs : List String) → texts_eq xs xs ≡ true
unfolding texts_eq
texts_eq_refl [] = refl
texts_eq_refl (x ∷ xs) = rw (eq_refl, texts_eq_refl xs)

pub path_eq_refl : (p : FilePath) → path_eq p p ≡ true
unfolding path_eq
path_eq_refl p = rw (eq_refl, texts_eq_refl p.parts)
