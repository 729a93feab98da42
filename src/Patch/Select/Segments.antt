-- ===== src/Patch/Select/Segments.antt =====
-- The segments of consecutive indexes: what they hold, in which order, with which line numbers.
use mathlib.Core.Path.{subst}
use mathlib.Core.Option.{some-injective}
use mathlib.Core.List.{append-nil, append_assoc}
use tgent.Prelude.{
  ℕ, suc, ◌+◌, true, ◌≡◌, refl, Option, none, some, List, [], ◌∷◌, ◌++◌, nat_eq, get_elem?,
  if◌then◌else◌, arith, concat, concat-snoc, All, All-append, Bool-cases, Option-cases, inl, inr,
  nat_eq_refl, ◌||◌, ap, sym, ◌∙◌, ◌≢◌,
}
use tgent.Patch.Lines.{Entry, is_context, is_old, is_new, advance}
use tgent.Patch.Lines.Numbered.{
  Numbered, Numbered-Stands, old_at, new_at, old_end, new_end, Numbered-snoc, old_end-snoc,
  new_end-snoc,
}
use tgent.Patch.Select.Indexes.{selected_at, kept_iff}
use tgent.Patch.Select.{
  entry_at, mem_nat, is_selected, context_at, close, breaks, cut, sorted, included, selected_from,
  segments_of,
}

-- The entries with the given indexes, in order.
abbrev pub entries_at : List Entry → List ℕ → List Entry
entries_at entries [] = []
entries_at entries (i ∷ is) = entry_at entries i ++ entries_at entries is

close-concat :
    (current : List Entry) (segments : List (List Entry))
    → concat (close current segments) ≡ concat segments ++ current
close-concat [] segments = sym (append-nil (concat segments))
close-concat (e ∷ es) segments = concat-snoc segments (e ∷ es)

-- The segments hold the entries of the indexes, in their order, and nothing else.
cut-concat :
    (entries : List Entry) (is : List ℕ) (previous : Option ℕ) (current : List Entry)
    (segments : List (List Entry))
    → concat (cut entries is previous current segments)
      ≡ concat segments ++ (current ++ entries_at entries is)
unfolding cut
cut-concat entries [] previous current segments = simp (close-concat current segments, append-nil)
cut-concat entries (i ∷ is) previous current segments = elim (Bool-cases (breaks previous i)) [
  | inl new ↦ rw new (
      simp (
        cut-concat entries is (some i) (entry_at entries i) (close current segments),
        close-concat current segments,
        append_assoc,
      ))
  | inr same ↦
      rw same (
        simp
          (cut-concat entries is (some i) (current ++ entry_at entries i) segments, append_assoc))
]

-- The segments, one after the other, hold the entries of the kept indexes, in increasing order.
pub segments_of-concat :
    (old_lines new_lines : List ℕ) (entries : List Entry)
    → concat (segments_of old_lines new_lines entries)
      ≡ entries_at entries (sorted (included entries (selected_from old_lines new_lines 0 entries)))
unfolding segments_of
segments_of-concat old_lines new_lines entries =
    cut-concat entries (sorted (included entries (selected_from old_lines new_lines 0 entries)))
      none [] []

-- A segment is a run of lines of the diff: its entries are numbered on from some line.
pub record Run (segment : List Entry) : Type 0 where
  pub old : ℕ
  pub new : ℕ
  pub numbered : Numbered old new segment

-- A segment that the loop puts out is such a run, and holds an entry.
pub record IsRun (segment : List Entry) : Type 0 where
  pub run : Run segment
  pub inhabited : segment ≢ []

module _ (old new : ℕ) (entries : List Entry) (numbered : Numbered old new entries) where
  -- What the loop knows of its current segment: it is a run that ends at the previous index.
  record Current (previous : Option ℕ) (current : List Entry) : Type 0 where
    run : Run current
    ends :
        (p : ℕ)
        → previous ≡ some p
        → current ≢ []
        → (old_end run.old current ≡ old_at old entries (suc p))
          × (new_end run.new current ≡ new_at new entries (suc p))

  close-IsRun :
      (current : List Entry) (segments : List (List Entry))
      → Run current
      → All IsRun segments
      → All IsRun (close current segments)
  close-IsRun [] segments r rs = rs
  close-IsRun (e ∷ es) segments r rs =
      All-append IsRun segments ((e ∷ es) ∷ []) rs (record { run = r; inhabited = λ q. cc }, tt)

  empty : (previous : Option ℕ) → Current previous []
  empty previous = record {
    run = record { old = 0; new = 0; numbered = tt };
    ends = λ p q ne. absurd (ne refl);
  }

  one_entry : (i : ℕ) (e : Entry) → get_elem? entries i ≡ some e → Current (some i) (e ∷ [])
  one_entry i e h =
      let s = Numbered-Stands entries old new i numbered h in
      record {
        run = record {
          old = old_at old entries i;
          new = new_at new entries i;
          numbered = (s.numbered, tt);
        };
        ends = λ p q ne.
            subst
              (λ j.
                (advance (is_old e.kind) (old_at old entries i) ≡ old_at old entries (suc j))
                × (advance (is_new e.kind) (new_at new entries i) ≡ new_at new entries (suc j)))
              (some-injective i p q) (sym s.old_next, sym s.new_next);
      }

  one_more :
      (previous p : ℕ) (current : List Entry) (e : Entry)
      → current ≢ []
      → p ≡ suc previous
      → get_elem? entries p ≡ some e
      → Current (some previous) current
      → Current (some p) (current ++ e ∷ [])
  one_more previous p current e ne next h c =
      let s = Numbered-Stands entries old new p numbered h in
      let (old_ends, new_ends) = c.ends previous refl ne in
      let here : old_end c.run.old current ≡ old_at old entries p = rw next old_ends in
      let there : new_end c.run.new current ≡ new_at new entries p = rw next new_ends in
      record {
        run = record {
          old = c.run.old;
          new = c.run.new;
          numbered =
              Numbered-snoc current c.run.old c.run.new e c.run.numbered
                (rw (here, there) s.numbered);
        };
        ends = λ q eq _.
            subst
              (λ j.
                (old_end c.run.old (current ++ e ∷ []) ≡ old_at old entries (suc j))
                × (new_end c.run.new (current ++ e ∷ []) ≡ new_at new entries (suc j)))
              (some-injective p q eq)
              (
                old_end-snoc current c.run.old e
                    ∙ ap (advance (is_old e.kind)) here
                    ∙ sym s.old_next,
                new_end-snoc current c.run.new e
                    ∙ ap (advance (is_new e.kind)) there
                    ∙ sym s.new_next,
              );
      }

  begin : (i : ℕ) → get_elem? entries i ≢ none → Current (some i) (entry_at entries i)
  unfolding entry_at
  begin i present = elim (Option-cases (get_elem? entries i)) [
    | inl out ↦ absurd (present out)
    | inr (e, h) ↦ rw (h, entry_at) (one_entry i e h)
  ]

  -- A segment that goes on with the next index.
  extend :
      (previous i : ℕ) (current : List Entry)
      → i ≡ suc previous
      → get_elem? entries i ≢ none
      → Current (some previous) current
      → Current (some i) (current ++ entry_at entries i)
  unfolding entry_at
  extend previous i [] next present c = begin i present
  extend previous i (f ∷ fs) next present c = elim (Option-cases (get_elem? entries i)) [
    | inl out ↦ absurd (present out)
    | inr (e, h) ↦ rw (h, entry_at) (one_more previous i (f ∷ fs) e (λ q. cc) next h c)
  ]

  -- The next round of the loop, on either branch.
  step :
      (previous : Option ℕ) (i : ℕ) (current : List Entry)
      → (previous ≡ none → current ≡ [])
      → get_elem? entries i ≢ none
      → Current previous current
      → Current
          (some i)
          (if breaks previous i then entry_at entries i else current ++ entry_at entries i)
  step none i current fresh present c = rw (fresh refl) (begin i present)
  step (some p) i current fresh present c = elim (Bool-cases (nat_eq i (p + 1))) [
    | inl next ↦ rw next (extend p i current (ground arith) present c)
    | inr apart ↦ rw apart (begin i present)
  ]

  cut-IsRun :
      (is : List ℕ) (previous : Option ℕ) (current : List Entry) (segments : List (List Entry))
      → All (λ i. get_elem? entries i ≢ none) is
      → (previous ≡ none → current ≡ [])
      → Current previous current
      → All IsRun segments
      → All IsRun (cut entries is previous current segments)
  unfolding cut
  cut-IsRun [] previous current segments present fresh c rs = close-IsRun current segments c.run rs
  cut-IsRun (i ∷ is) previous current segments present fresh c rs =
      cut-IsRun is (some i)
        (if breaks previous i then entry_at entries i else current ++ entry_at entries i)
        (if breaks previous i then close current segments else segments) present.1 (λ q. cc)
        (step previous i current fresh present.0 c)
        (elim (Bool-cases (breaks previous i)) [
          | inl new_one ↦ rw new_one (close-IsRun current segments c.run rs)
          | inr same ↦ rw same rs
        ])

All-of_mem : {P : ℕ → Type 0} (xs : List ℕ) → ((i : ℕ) → mem_nat i xs ≡ true → P i) → All P xs
unfolding mem_nat
All-of_mem [] h = tt
All-of_mem (x ∷ xs) h = (h x (rw nat_eq_refl), All-of_mem xs (λ i m. h i (ground arith)))

module _ (old_lines new_lines : List ℕ) (entries : List Entry) where
  -- An index that is kept has an entry.
  kept_present :
      (i : ℕ)
      → mem_nat i (sorted (included entries (selected_from old_lines new_lines 0 entries))) ≡ true
      → get_elem? entries i ≢ none
  unfolding selected_at context_at
  kept_present i m out = ground (arith, kept_iff old_lines new_lines entries i)

  -- Every segment is a run of lines of the diff: its entries follow one another in the diff, each
  -- with the line numbers to which the one before it leads.
  pub segments_of-IsRun :
      (old new : ℕ) → Numbered old new entries → All IsRun (segments_of old_lines new_lines entries)
  unfolding segments_of
  segments_of-IsRun old new numbered =
      let is = sorted (included entries (selected_from old_lines new_lines 0 entries)) in
      cut-IsRun old new entries numbered is none [] [] (All-of_mem is kept_present) (λ q. refl)
        (empty old new entries numbered none) tt

  -- An entry is in a segment only if it is selected or a context line.
  entries_at-kept :
      (is : List ℕ)
      → All (λ i. (selected_at old_lines new_lines entries i || context_at entries i) ≡ true) is
      → All
          (λ e. (is_selected old_lines new_lines e || is_context e.kind) ≡ true)
          (entries_at entries is)
  unfolding selected_at context_at entry_at
  entries_at-kept [] h = tt
  entries_at-kept (i ∷ is) h = elim (Option-cases (get_elem? entries i)) [
    | inl out ↦ rw (out, entry_at) (entries_at-kept is h.1)
    | inr (e, found) ↦ rw (found, entry_at) (ground (arith, h.0), entries_at-kept is h.1)
  ]

  kept_kind :
      (i : ℕ)
      → mem_nat i (sorted (included entries (selected_from old_lines new_lines 0 entries))) ≡ true
      → (selected_at old_lines new_lines entries i || context_at entries i) ≡ true
  kept_kind i m = ground (arith, kept_iff old_lines new_lines entries i)

  -- The segments hold only changes that the caller selected and context lines.
  pub segments_of-kept :
      All
        (λ e. (is_selected old_lines new_lines e || is_context e.kind) ≡ true)
        (concat (segments_of old_lines new_lines entries))
  segments_of-kept = rw (segments_of-concat old_lines new_lines entries) (
      entries_at-kept (sorted (included entries (selected_from old_lines new_lines 0 entries))) (
        All-of_mem (sorted (included entries (selected_from old_lines new_lines 0 entries)))
          kept_kind))
