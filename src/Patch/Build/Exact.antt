-- ===== src/Patch/Build/Exact.antt =====
-- The hunks that are printed: their numbers are those of their lines, and the loop ends.
use mathlib.Core.List.{◌++◌ as append, append_assoc}
use mathlib.Core.Path.{subst}
use tgent.Prelude.{
  ℕ, zero, suc, ◌+◌, ◌≤◌, ◌<◌, String, ◌≡◌, refl, Option, some, List, [], ◌∷◌, map, length, arith,
  All, All-append, ap, sym, ◌∙◌, Bool-cases, Option-cases, inl, inr, if◌then◌else◌,
}
use tgent.Patch.Lines.{
  Entry, entry, is_old, is_new, advance, starts_hunk, kind_of, match_header, read_entries,
}
use tgent.Patch.Lines.Numbered.{Numbered, read_entries-Numbered}
use tgent.Patch.Lines.Placed.{read_entries-lines}
use tgent.Patch.Build.Sourced.{IsSourced, segments_of-IsSourced}
use tgent.Patch.Select.{segments_of, selected_from}
use tgent.Patch.Select.Segments.{IsRun, segments_of-IsRun}
use tgent.Patch.Build.{
  count_old, count_new, old_start, new_start, Hunk, hunk_of, hunks_of, hunks_from,
  build_selected_patch, split_preamble, patch_text,
}

-- The numbers of the old lines among the entries, and of the new lines.
abbrev pub old_refs : List Entry → List (Option ℕ)
old_refs [] = []
old_refs (e ∷ es) = if is_old e.kind then e.old_ref ∷ old_refs es else old_refs es

abbrev pub new_refs : List Entry → List (Option ℕ)
new_refs [] = []
new_refs (e ∷ es) = if is_new e.kind then e.new_ref ∷ new_refs es else new_refs es

-- n, n + 1, …, k numbers
abbrev pub count_up : ℕ → ℕ → List (Option ℕ)
count_up n zero = []
count_up n (suc k) = some n ∷ count_up (n + 1) k

-- The lines of the hunk are lines of the diff below one of its headers, and the header of the hunk
-- tells the truth of them: they are the `old_count` old lines from `old_first` on and the
-- `new_count` new lines from `new_first` on, and the first line stands there.
pub record IsExact (diff : List String) (h : Hunk) : Type 0 where
  pub sourced : IsSourced diff h.body
  pub first : Entry
  pub others : List Entry
  pub is_body : h.body ≡ first ∷ others
  pub old_named : h.old_first ≡ some first.old_before
  pub new_named : h.new_first ≡ some first.new_before
  pub old_lines : old_refs h.body ≡ count_up first.old_before h.old_count
  pub new_lines : new_refs h.body ≡ count_up first.new_before h.new_count

Numbered-old_refs :
    (es : List Entry) (old new : ℕ)
    → Numbered old new es
    → old_refs es ≡ count_up old (count_old es)
unfolding count_old entry
Numbered-old_refs [] old new n = refl
Numbered-old_refs (e ∷ es) old new n = ground (
  arith,
  n.0,
  Numbered-old_refs es (advance (is_old e.kind) old) (advance (is_new e.kind) new) n.1,
)

Numbered-new_refs :
    (es : List Entry) (old new : ℕ)
    → Numbered old new es
    → new_refs es ≡ count_up new (count_new es)
unfolding count_new entry
Numbered-new_refs [] old new n = refl
Numbered-new_refs (e ∷ es) old new n = ground (
  arith,
  n.0,
  Numbered-new_refs es (advance (is_old e.kind) old) (advance (is_new e.kind) new) n.1,
)

-- Added lines do not move the old side, and removed lines not the new side.
Numbered-old_start :
    (es : List Entry) (old new : ℕ) → Numbered old new es → old_start (some old) es ≡ some old
unfolding old_start entry
Numbered-old_start [] old new n = refl
Numbered-old_start (e ∷ es) old new n = ground (
  arith,
  n.0,
  Numbered-old_start es (advance (is_old e.kind) old) (advance (is_new e.kind) new) n.1,
)

Numbered-new_start :
    (es : List Entry) (old new : ℕ) → Numbered old new es → new_start (some new) es ≡ some new
unfolding new_start entry
Numbered-new_start [] old new n = refl
Numbered-new_start (e ∷ es) old new n = ground (
  arith,
  n.0,
  Numbered-new_start es (advance (is_old e.kind) old) (advance (is_new e.kind) new) n.1,
)

hunk_of-IsExact :
    (diff : List String) (segment : List Entry)
    → IsRun segment
    → IsSourced diff segment
    → IsExact diff (hunk_of segment)
unfolding hunk_of entry
hunk_of-IsExact diff [] r s = absurd (r.inhabited refl)
hunk_of-IsExact diff (e ∷ es) r s =
    let run = r.run in
    let old_before : run.old ≡ e.old_before =
      sym (ap (λ (x : Entry). x.old_before) run.numbered.0) in
    let new_before : run.new ≡ e.new_before =
      sym (ap (λ (x : Entry). x.new_before) run.numbered.0) in
    let numbered : Numbered e.old_before e.new_before (e ∷ es) =
      subst (λ n. Numbered e.old_before n (e ∷ es)) new_before
        (subst (λ n. Numbered n run.new (e ∷ es)) old_before run.numbered) in
    record {
      sourced = s;
      first = e;
      others = es;
      is_body = refl;
      old_named = Numbered-old_start (e ∷ es) e.old_before e.new_before numbered;
      new_named = Numbered-new_start (e ∷ es) e.old_before e.new_before numbered;
      old_lines = Numbered-old_refs (e ∷ es) e.old_before e.new_before numbered;
      new_lines = Numbered-new_refs (e ∷ es) e.old_before e.new_before numbered;
    }

All-hunk_of :
    (diff : List String) (segments : List (List Entry))
    → All IsRun segments
    → All (IsSourced diff) segments
    → All (IsExact diff) (map hunk_of segments)
All-hunk_of diff [] rs ss = tt
All-hunk_of diff (s ∷ segments) rs ss =
    (hunk_of-IsExact diff s rs.0 ss.0, All-hunk_of diff segments rs.1 ss.1)

pub length-read_entries :
    (lines : List String) (old new : ℕ) → length (read_entries lines old new).1 ≤ length lines
unfolding read_entries
length-read_entries [] old new = omega arith
length-read_entries (raw ∷ lines) old new = elim (Bool-cases (starts_hunk raw)) [
  | inl stop ↦ rw stop (omega arith)
  | inr go ↦ elim (Option-cases (kind_of raw)) [
    | inl other ↦ rw (go, other) (omega arith)
    | inr (k, e) ↦
        rw (go, e)
          (omega
            (arith, length-read_entries lines (advance (is_old k) old) (advance (is_new k) new)))
  ]
]

split_preamble-lines :
    (lines : List String) → lines ≡ append (split_preamble lines).0 (split_preamble lines).1
unfolding split_preamble
split_preamble-lines [] = refl
split_preamble-lines (line ∷ lines) = elim (Bool-cases (starts_hunk line)) [
  | inl starts ↦ rw starts refl
  | inr plain ↦ rw plain (ap (λ ls. line ∷ ls) (split_preamble-lines lines))
]

module _ (diff : List String) (old_lines new_lines : List ℕ) where
  hunks_of-IsExact :
      (above below : List String) (header : String) (old new : ℕ)
      → diff ≡ append above (header ∷ below)
      → match_header header ≡ some (old, new)
      → All (IsExact diff) (hunks_of old_lines new_lines (read_entries below old new).0)
  unfolding hunks_of
  hunks_of-IsExact above below header old new is_diff matched =
      go (selected_from old_lines new_lines 0 (read_entries below old new).0)
    where
      go :
          (chosen : List ℕ)
          → All (IsExact diff) (elim chosen [
            | [] ↦ []
            | _ ∷ _ ↦ map hunk_of (segments_of old_lines new_lines (read_entries below old new).0)
          ])
      go [] = tt
      go (i ∷ is) =
          All-hunk_of diff (segments_of old_lines new_lines (read_entries below old new).0)
            (segments_of-IsRun old_lines new_lines (read_entries below old new).0 old new
              (read_entries-Numbered below old new))
            (segments_of-IsSourced diff above below header old new old_lines new_lines is_diff
              matched)

  -- With more rounds than lines the loop ends, and every hunk is exact.
  hunks_from_lem :
      (fuel : ℕ) (above lines : List String)
      → diff ≡ append above lines
      → length lines < fuel
      → (hs : List Hunk) × (hunks_from fuel old_lines new_lines lines ≡ some hs)
        × All (IsExact diff) hs
  unfolding hunks_from
  hunks_from_lem zero above lines is_diff h = absurd (omega arith)
  hunks_from_lem (suc fuel) above [] is_diff h = ([], refl, tt)
  hunks_from_lem (suc fuel) above (line ∷ lines) is_diff h =
      elim (Option-cases (match_header line)) [
        | inl skip ↦
            rw (skip, hunks_from)
              (hunks_from_lem fuel (append above (line ∷ [])) lines
                (is_diff ∙ sym (append_assoc above (line ∷ []) lines)) (omega arith))
        | inr ((old, new), e) ↦
            rw (e, hunks_from)
              (let (entries, rest) = read_entries lines old new in
                let passed = line ∷ map (λ (f : Entry). f.raw) entries in
                let (hs, found, exact) =
                  hunks_from_lem fuel (append above passed) rest
                    (is_diff
                      ∙ ap (λ ls. append above (line ∷ ls)) (read_entries-lines lines old new)
                      ∙ sym (append_assoc above passed rest))
                    (omega (arith, length-read_entries lines old new)) in
                (
                  append (hunks_of old_lines new_lines entries) hs,
                  rw found,
                  All-append (IsExact diff) (hunks_of old_lines new_lines entries) hs
                      (hunks_of-IsExact above lines line old new is_diff e) exact,
                ))
      ]

-- A patch is built for every diff and every selection. The lines of each of its hunks are lines of
-- the diff below one of its hunk headers, numbered from that header, and the header of the hunk
-- names them: as many old and new lines as it says, from the numbers on at which its first line
-- stands.
pub build_selected_patch-IsExact :
    (lines : List String) (old_lines new_lines : List ℕ)
    → (hs : List Hunk) × (build_selected_patch lines old_lines new_lines
        ≡ some (patch_text (split_preamble lines).0 hs))
      × All (IsExact lines) hs
unfolding build_selected_patch
build_selected_patch-IsExact lines old_lines new_lines =
    let (preamble, rest) = split_preamble lines in
    let (hs, found, exact) =
      hunks_from_lem lines old_lines new_lines (suc (length rest)) preamble rest
        (split_preamble-lines lines) (omega arith) in
    (hs, rw found, exact)
