-- ===== src/Patch/Lines/Placed.antt =====
-- Where the entries of a hunk stand in the diff: their numbers are counted from the header of the
-- hunk, over the lines between.
use mathlib.Core.Path.{subst}
use mathlib.Core.Option.{some-injective}
use tgent.Prelude.{
  ℕ, zero, suc, ◌+◌, String, true, false, ◌≡◌, refl, ap, ◌∙◌, ◌⊎◌, inl, inr, Option, none, some,
  List, [], ◌∷◌, ◌++◌, map, take, get_elem?, All, arith, Bool-cases, Option-cases, if◌then◌else◌,
}
use tgent.Patch.Lines.{
  Kind, context, removed, added, Entry, entry, is_old, is_new, advance, kind_of, starts_hunk,
  read_entries,
}

-- A line stands on the old side unless it is added, and on the new side unless it is removed.
abbrev pub on_old : Option Kind → ℕ
on_old (some context) = 1
on_old (some removed) = 1
on_old _ = 0

abbrev pub on_new : Option Kind → ℕ
on_new (some context) = 1
on_new (some added) = 1
on_new _ = 0

-- How many of the lines stand on a side.
abbrev pub count_lines : (Option Kind → ℕ) → List String → ℕ
count_lines side [] = 0
count_lines side (line ∷ lines) = side (kind_of line) + count_lines side lines

-- The number of a line of this kind, where the kind stands on the side.
abbrev pub numbered : ℕ → ℕ → Option ℕ
numbered zero n = none
numbered (suc _) n = some n

-- A line of a hunk: it starts no hunk, and its kind is known.
abbrev pub IsBody : String → Type 0
IsBody line = (starts_hunk line ≡ false) × (k : Kind) × (kind_of line ≡ some k)

-- The entry is that of the line with the index, below a header that names the lines `old` and `new`:
-- it stands in the hunk, and its numbers are those of the header and of the lines between.
pub record IsPlaced (old new : ℕ) (lines : List String) (i : ℕ) (e : Entry) : Type 0 where
  pub line : get_elem? lines i ≡ some e.raw
  pub inside : All IsBody (take i lines)
  pub body : IsBody e.raw
  pub kind : kind_of e.raw ≡ some e.kind
  pub old_before : e.old_before ≡ old + count_lines on_old (take i lines)
  pub new_before : e.new_before ≡ new + count_lines on_new (take i lines)
  pub old_ref : e.old_ref ≡ numbered (on_old (kind_of e.raw)) e.old_before
  pub new_ref : e.new_ref ≡ numbered (on_new (kind_of e.raw)) e.new_before

entry-IsPlaced :
    (k : Kind) (raw : String) (old new : ℕ) (lines : List String)
    → starts_hunk raw ≡ false
    → kind_of raw ≡ some k
    → IsPlaced old new (raw ∷ lines) 0 (entry k raw old new)
unfolding entry
entry-IsPlaced k raw old new lines go e = record {
  line = refl;
  inside = tt;
  body = (go, k, e);
  kind = e;
  old_before = omega arith;
  new_before = omega arith;
  old_ref = rw e (old_named k);
  new_ref = rw e (new_named k);
}
  where
    old_named : (k : Kind) → (if is_old k then some old else none) ≡ numbered (on_old (some k)) old
    old_named context = refl
    old_named removed = refl
    old_named added = refl

    new_named : (k : Kind) → (if is_new k then some new else none) ≡ numbered (on_new (some k)) new
    new_named context = refl
    new_named removed = refl
    new_named added = refl

advance-on_old : (k : Kind) (n : ℕ) → advance (is_old k) n ≡ n + on_old (some k)
advance-on_old context n = refl
advance-on_old removed n = refl
advance-on_old added n = omega arith

advance-on_new : (k : Kind) (n : ℕ) → advance (is_new k) n ≡ n + on_new (some k)
advance-on_new context n = refl
advance-on_new removed n = omega arith
advance-on_new added n = refl

-- An entry behind one line more.
below-IsPlaced :
    (k : Kind) (raw : String) (old new : ℕ) (lines : List String) (i : ℕ) (f : Entry)
    → starts_hunk raw ≡ false
    → kind_of raw ≡ some k
    → IsPlaced (advance (is_old k) old) (advance (is_new k) new) lines i f
    → IsPlaced old new (raw ∷ lines) (suc i) f
below-IsPlaced k raw old new lines i f go e p = record {
  line = p.line;
  inside = ((go, k, e), p.inside);
  body = p.body;
  kind = p.kind;
  old_before = p.old_before ∙ rw e (omega (arith, advance-on_old k old));
  new_before = p.new_before ∙ rw e (omega (arith, advance-on_new k new));
  old_ref = p.old_ref;
  new_ref = p.new_ref;
}

-- Every entry that is read stands where its index says.
pub read_entries-IsPlaced :
    (lines : List String) (old new i : ℕ) (f : Entry)
    → get_elem? (read_entries lines old new).0 i ≡ some f
    → IsPlaced old new lines i f
unfolding read_entries
read_entries-IsPlaced [] old new i f h = cc
read_entries-IsPlaced (raw ∷ lines) old new i f h = elim (Bool-cases (starts_hunk raw)) [
  | inl stop ↦ cc (rw stop at h)
  | inr go ↦ elim (Option-cases (kind_of raw)) [
    | inl other ↦ cc (rw (go, other) at h)
    | inr (k, e) ↦
        let old' = advance (is_old k) old in
        let new' = advance (is_new k) new in
        placed k e go (read_entries lines old' new').0
          (λ i. read_entries-IsPlaced lines old' new' i f) i (rw (go, e) at h)
  ]
]
  where
    placed :
        (k : Kind)
        → kind_of raw ≡ some k
        → starts_hunk raw ≡ false
        → (es : List Entry)
        → ((i : ℕ)
            → get_elem? es i ≡ some f
            → IsPlaced (advance (is_old k) old) (advance (is_new k) new) lines i f)
        → (i : ℕ) → get_elem? (entry k raw old new ∷ es) i ≡ some f
        → IsPlaced old new (raw ∷ lines) i f
    placed k e go es rec zero h =
        subst (IsPlaced old new (raw ∷ lines) 0) (some-injective (entry k raw old new) f h)
          (entry-IsPlaced k raw old new lines go e)
    placed k e go es rec (suc i) h = below-IsPlaced k raw old new lines i f go e (rec i h)

-- The lines behind a hunk: there are none, or the first of them starts a hunk or is of no kind.
abbrev pub Stops : List String → Type 0
Stops [] = Unit
Stops (line ∷ lines) = (starts_hunk line ≡ true) ⊎ (kind_of line ≡ none)

-- The entries are those of the lines from the index on, one for each.
abbrev pub ArePlaced : ℕ → ℕ → List String → ℕ → List Entry → Type 0
ArePlaced old new lines i [] = Unit
ArePlaced old new lines i (e ∷ es) = IsPlaced old new lines i e × ArePlaced old new lines (suc i) es

ArePlaced-intro :
    (old new : ℕ) (lines : List String) (es : List Entry) (i : ℕ)
    → ((j : ℕ) (f : Entry) → get_elem? es j ≡ some f → IsPlaced old new lines (i + j) f)
    → ArePlaced old new lines i es
ArePlaced-intro old new lines [] i h = tt
ArePlaced-intro old new lines (e ∷ es) i h = (
  subst (λ n. IsPlaced old new lines n e) (omega arith) (h 0 e refl),
  ArePlaced-intro old new lines es (suc i)
      (λ j f g. subst (λ n. IsPlaced old new lines n f) (omega arith) (h (suc j) f g)),
)

pub read_entries-lines :
    (lines : List String) (old new : ℕ)
    → lines ≡ map (λ e. e.raw) (read_entries lines old new).0 ++ (read_entries lines old new).1
unfolding read_entries entry
read_entries-lines [] old new = refl
read_entries-lines (raw ∷ lines) old new = elim (Bool-cases (starts_hunk raw)) [
  | inl stop ↦ rw stop refl
  | inr go ↦ elim (Option-cases (kind_of raw)) [
    | inl other ↦ rw (go, other) refl
    | inr (k, e) ↦
        rw (go, e)
          (ap (λ ls. raw ∷ ls)
            (read_entries-lines lines (advance (is_old k) old) (advance (is_new k) new)))
  ]
]

read_entries-Stops : (lines : List String) (old new : ℕ) → Stops (read_entries lines old new).1
unfolding read_entries
read_entries-Stops [] old new = tt
read_entries-Stops (raw ∷ lines) old new = elim (Bool-cases (starts_hunk raw)) [
  | inl stop ↦ rw stop (inl stop)
  | inr go ↦ elim (Option-cases (kind_of raw)) [
    | inl other ↦ rw (go, other) (inr other)
    | inr (k, e) ↦
        rw (go, e) (read_entries-Stops lines (advance (is_old k) old) (advance (is_new k) new))
  ]
]

-- The lines below a header that names the lines `old` and `new` are those of the entries that are
-- read, in order, and the rest, which is empty or begins with a line that starts with `@@ ` or is of
-- no known kind. The entry of a line has the kind of its first character. Its numbers are those of
-- the header and of the lines between: a line that is not added takes an old number, one that is
-- not removed a new number, and an entry has a number of the sides on which its line stands.
pub read_entries-ArePlaced :
    (lines : List String) (old new : ℕ)
    → (lines ≡ map (λ e. e.raw) (read_entries lines old new).0 ++ (read_entries lines old new).1)
      × Stops (read_entries lines old new).1
      × ArePlaced old new lines 0 (read_entries lines old new).0
read_entries-ArePlaced lines old new = (
  read_entries-lines lines old new,
  read_entries-Stops lines old new,
  ArePlaced-intro old new lines (read_entries lines old new).0 0 (λ j f h.
      subst (λ n. IsPlaced old new lines n f) (omega arith)
        (read_entries-IsPlaced lines old new j f h)),
)

-- What holds of every entry that has an index holds of all of them.
pub All-get_elem :
    (P : Entry → Type 0) (es : List Entry)
    → ((i : ℕ) (f : Entry) → get_elem? es i ≡ some f → P f)
    → All P es
All-get_elem P [] h = tt
All-get_elem P (e ∷ es) h = (h 0 e refl, All-get_elem P es (λ i. h (suc i)))
