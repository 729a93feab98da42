-- ===== src/Patch/Lines/Numbered.antt =====
-- The line numbers of the entries: each entry stands where the lines before it lead.
use mathlib.Core.Path.{subst}
use mathlib.Core.Option.{some-injective}
use tgent.Prelude.{
  Bool-cases, Option-cases, inl, inr, ℕ, zero, suc, String, ◌≡◌, refl, some, List, [], ◌∷◌, ◌++◌,
  get_elem?,
}
use tgent.Patch.Lines.{Entry, entry, is_old, is_new, advance, kind_of, starts_hunk, read_entries}

-- The entries are those of a diff whose old side goes on at line `old` and whose new side at `new`.
abbrev pub Numbered : ℕ → ℕ → List Entry → Type 0
Numbered old new [] = Unit
Numbered old new (e ∷ es) =
    (e ≡ entry e.kind e.raw old new)
    × Numbered (advance (is_old e.kind) old) (advance (is_new e.kind) new) es

-- Every entry that is read has the numbers that the lines before it lead to.
pub read_entries-Numbered :
    (lines : List String) (old new : ℕ) → Numbered old new (read_entries lines old new).0
unfolding read_entries entry
read_entries-Numbered [] old new = tt
read_entries-Numbered (raw ∷ lines) old new = elim (Bool-cases (starts_hunk raw)) [
  | inl stop ↦ rw stop tt
  | inr go ↦ elim (Option-cases (kind_of raw)) [
    | inl other ↦ rw (go, other) tt
    | inr (k, e) ↦
        rw (go, e)
          (refl, read_entries-Numbered lines (advance (is_old k) old) (advance (is_new k) new))
  ]
]

-- The numbers at which the entry with the given index begins.
abbrev pub old_at : ℕ → List Entry → ℕ → ℕ
old_at old [] i = old
old_at old (e ∷ es) zero = old
old_at old (e ∷ es) (suc i) = old_at (advance (is_old e.kind) old) es i

abbrev pub new_at : ℕ → List Entry → ℕ → ℕ
new_at new [] i = new
new_at new (e ∷ es) zero = new
new_at new (e ∷ es) (suc i) = new_at (advance (is_new e.kind) new) es i

old_at-zero : (old : ℕ) (es : List Entry) → old_at old es 0 ≡ old
old_at-zero old [] = refl
old_at-zero old (e ∷ es) = refl

new_at-zero : (new : ℕ) (es : List Entry) → new_at new es 0 ≡ new
new_at-zero new [] = refl
new_at-zero new (e ∷ es) = refl

-- An entry with its numbers, and the numbers behind it.
pub record Stands (old new : ℕ) (es : List Entry) (i : ℕ) (e : Entry) : Type 0 where
  pub numbered : e ≡ entry e.kind e.raw (old_at old es i) (new_at new es i)
  pub old_next : old_at old es (suc i) ≡ advance (is_old e.kind) (old_at old es i)
  pub new_next : new_at new es (suc i) ≡ advance (is_new e.kind) (new_at new es i)

Stands-head :
    (old new : ℕ) (f : Entry) (es : List Entry)
    → f ≡ entry f.kind f.raw old new
    → Stands old new (f ∷ es) 0 f
Stands-head old new f es n = record {
  numbered = n;
  old_next = old_at-zero _ es;
  new_next = new_at-zero _ es;
}

pub Numbered-Stands :
    (es : List Entry) (old new i : ℕ) {e : Entry}
    → Numbered old new es
    → get_elem? es i ≡ some e
    → Stands old new es i e
Numbered-Stands [] old new i n h = cc
Numbered-Stands (f ∷ es) old new zero {e} n h =
    subst (Stands old new (f ∷ es) 0) (some-injective f e h) (Stands-head old new f es n.0)
Numbered-Stands (f ∷ es) old new (suc i) {e} n h =
    let s =
      Numbered-Stands es (advance (is_old f.kind) old) (advance (is_new f.kind) new) i n.1 h in
    record { numbered = s.numbered; old_next = s.old_next; new_next = s.new_next }

-- The numbers behind all entries of a list.
abbrev pub old_end : ℕ → List Entry → ℕ
old_end old [] = old
old_end old (e ∷ es) = old_end (advance (is_old e.kind) old) es

abbrev pub new_end : ℕ → List Entry → ℕ
new_end new [] = new
new_end new (e ∷ es) = new_end (advance (is_new e.kind) new) es

pub Numbered-snoc :
    (es : List Entry) (old new : ℕ) (e : Entry)
    → Numbered old new es
    → e ≡ entry e.kind e.raw (old_end old es) (new_end new es)
    → Numbered old new (es ++ e ∷ [])
Numbered-snoc [] old new e n h = (h, tt)
Numbered-snoc (f ∷ es) old new e n h =
    (n.0, Numbered-snoc es (advance (is_old f.kind) old) (advance (is_new f.kind) new) e n.1 h)

pub old_end-snoc :
    (es : List Entry) (old : ℕ) (e : Entry)
    → old_end old (es ++ e ∷ []) ≡ advance (is_old e.kind) (old_end old es)
old_end-snoc [] old e = refl
old_end-snoc (f ∷ es) old e = old_end-snoc es (advance (is_old f.kind) old) e

pub new_end-snoc :
    (es : List Entry) (new : ℕ) (e : Entry)
    → new_end new (es ++ e ∷ []) ≡ advance (is_new e.kind) (new_end new es)
new_end-snoc [] new e = refl
new_end-snoc (f ∷ es) new e = new_end-snoc es (advance (is_new f.kind) new) e
