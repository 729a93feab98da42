-- ===== src/Patch/Build/Marker.antt =====
-- What becomes of the lines behind a line of no known kind, such as the marker of a missing newline
-- at the end of a file.
use mathlib.Core.Option.{map as map_option}
use tgent.Prelude.{
  ℕ, zero, suc, ◌≤◌, ◌<◌, String, true, ◌≡◌, refl, Option, none, some, List, [], ◌∷◌, ◌++◌, length,
  arith, All, ap, sym, ◌∙◌, Bool-cases, Option-cases, inl, inr,
}
use tgent.Patch.Lines.{
  Entry, is_old, is_new, advance, starts_hunk, kind_of, match_header, read_entries,
}
use tgent.Patch.Lines.Placed.{IsBody, Stops}
use tgent.Patch.Build.{hunks_of, hunks_from, build_selected_patch, split_preamble, patch_text, Hunk}
use tgent.Patch.Build.Exact.{length-read_entries}

-- The lines of a hunk are read up to a line that stops it.
read_entries-body :
    (body rest : List String) (old new : ℕ)
    → All IsBody body
    → Stops rest
    → read_entries (body ++ rest) old new ≡ ((read_entries body old new).0, rest)
unfolding read_entries
read_entries-body [] [] old new b s = refl
read_entries-body [] (line ∷ rest) old new b s = elim (Bool-cases (starts_hunk line)) [
  | inl stop ↦ rw stop refl
  | inr go ↦ elim s [ inl stop ↦ cc | inr other ↦ rw (go, other) refl ]
]
read_entries-body (line ∷ body) rest old new (b, bs) s =
    let (go, k, e) = b in
    rw (go, e, read_entries-body body rest (advance (is_old k) old) (advance (is_new k) new) bs s)
      refl

module _ (header : String) (starts : starts_hunk header ≡ true) where
  -- A header ends the hunk above it.
  read_entries-above :
      (lines below : List String) (old new : ℕ)
      → read_entries (lines ++ header ∷ below) old new
        ≡ ((read_entries lines old new).0, (read_entries lines old new).1 ++ header ∷ below)
  unfolding read_entries
  read_entries-above [] below old new = rw starts refl
  read_entries-above (line ∷ lines) below old new = elim (Bool-cases (starts_hunk line)) [
    | inl stop ↦ rw stop refl
    | inr go ↦ elim (Option-cases (kind_of line)) [
      | inl other ↦ rw (go, other) refl
      | inr (k, e) ↦
          rw
            (
              go,
              e,
              read_entries-above lines below (advance (is_old k) old) (advance (is_new k) new),
            )
            refl
    ]
  ]

  split_preamble-above :
      (lines below : List String)
      → split_preamble (lines ++ header ∷ below)
        ≡ ((split_preamble lines).0, (split_preamble lines).1 ++ header ∷ below)
  unfolding split_preamble
  split_preamble-above [] below = rw starts refl
  split_preamble-above (line ∷ lines) below = elim (Bool-cases (starts_hunk line)) [
    | inl stop ↦ rw stop refl
    | inr go ↦ rw (go, split_preamble-above lines below) refl
  ]

module _ (old_lines new_lines : List ℕ) where
  -- The hunks do not depend on the rounds that are left over.
  hunks_from-enough :
      (fuel more : ℕ) (lines : List String)
      → length lines < fuel
      → length lines < more
      → hunks_from fuel old_lines new_lines lines ≡ hunks_from more old_lines new_lines lines
  unfolding hunks_from
  hunks_from-enough zero more lines h g = absurd (omega arith)
  hunks_from-enough (suc fuel) zero lines h g = absurd (omega arith)
  hunks_from-enough (suc fuel) (suc more) [] h g = refl
  hunks_from-enough (suc fuel) (suc more) (line ∷ lines) h g =
      elim (Option-cases (match_header line)) [
        | inl skip ↦
            rw (skip, hunks_from) (hunks_from-enough fuel more lines (omega arith) (omega arith))
        | inr ((old, new), e) ↦
            rw (e, hunks_from)
              (ap
                (map_option
                  (λ hs. hunks_of old_lines new_lines (read_entries lines old new).0 ++ hs))
                (hunks_from-enough fuel more (read_entries lines old new).1
                  (omega (arith, length-read_entries lines old new))
                  (omega (arith, length-read_entries lines old new))))
      ]

  abbrev hunks : List String → Option (List Hunk)
  hunks lines = hunks_from (suc (length lines)) old_lines new_lines lines

  hunks-skipped :
      (line : String) (lines : List String)
      → match_header line ≡ none
      → hunks (line ∷ lines) ≡ hunks lines
  unfolding hunks_from
  hunks-skipped line lines skip = rw (skip, hunks_from) refl

  hunks-header :
      (header : String) (old new : ℕ) (lines : List String) (entries : List Entry)
      (rest : List String)
      → match_header header ≡ some (old, new)
      → read_entries lines old new ≡ (entries, rest)
      → hunks (header ∷ lines)
        ≡ map_option (λ hs. hunks_of old_lines new_lines entries ++ hs) (hunks rest)
  unfolding hunks_from
  hunks-header header old new lines entries rest matched read =
      let shorter : length rest ≤ length lines =
        omega (arith, length-read_entries lines old new, ap (λ r. length r.1) read) in
      rw (matched, hunks_from)
        (rw read (
          ap (map_option (λ hs. hunks_of old_lines new_lines entries ++ hs)) (
            hunks_from-enough (suc (length lines)) (suc (length rest)) rest (omega arith)
              (omega arith))))

  hunks-no_header :
      (lines below : List String)
      → All (λ line. match_header line ≡ none) lines
      → hunks (lines ++ below) ≡ hunks below
  hunks-no_header [] below a = refl
  hunks-no_header (line ∷ lines) below a =
      hunks-skipped line (lines ++ below) a.0 ∙ hunks-no_header lines below a.1

  -- Lines below a header that lead to the same hunks do so under any lines above it.
  hunks-above :
      (header : String) (starts : starts_hunk header ≡ true) (below below' : List String)
      → hunks (header ∷ below) ≡ hunks (header ∷ below')
      → (fuel : ℕ) (above : List String) → length above < fuel
      → hunks (above ++ header ∷ below) ≡ hunks (above ++ header ∷ below')
  hunks-above header starts below below' same zero above h = absurd (omega arith)
  hunks-above header starts below below' same (suc fuel) [] h = same
  hunks-above header starts below below' same (suc fuel) (line ∷ above) h =
      elim (Option-cases (match_header line)) [
        | inl skip ↦
            hunks-skipped line (above ++ header ∷ below) skip
            ∙ hunks-above header starts below below' same fuel above (omega arith)
            ∙ sym (hunks-skipped line (above ++ header ∷ below') skip)
        | inr ((old, new), e) ↦
            let (entries, rest) = read_entries above old new in
            hunks-header line old new (above ++ header ∷ below) entries (rest ++ header ∷ below) e
              (read_entries-above header starts above below old new)
            ∙ ap (map_option (λ hs. hunks_of old_lines new_lines entries ++ hs)) (
                hunks-above header starts below below' same fuel rest
                  (omega (arith, length-read_entries above old new)))
            ∙ sym (
                hunks-header line old new (above ++ header ∷ below') entries
                  (rest ++ header ∷ below') e
                  (read_entries-above header starts above below' old new))
      ]

  built :
      (header : String) (starts : starts_hunk header ≡ true) (above below : List String)
      → build_selected_patch (above ++ header ∷ below) old_lines new_lines
        ≡ map_option
            (patch_text (split_preamble above).0)
            (hunks ((split_preamble above).1 ++ header ∷ below))
  unfolding build_selected_patch
  built header starts above below =
      ap
        (λ (p : List String × List String).
          map_option (patch_text p.0) (hunks_from (suc (length p.1)) old_lines new_lines p.1))
        (split_preamble-above header starts above below)

  -- The lines of a hunk from a line of no known kind on, none of which is a hunk header, up to the
  -- end of the diff, a line that starts with `@@ ` or another line of no known kind, have no part in
  -- the patch, selected or not: without them the patch is the same. The hunk may stand anywhere in
  -- the diff.
  pub marker_ignored :
      (above : List String) (header : String) (old new : ℕ)
      → starts_hunk header ≡ true
      → match_header header ≡ some (old, new)
      → (body : List String) → All IsBody body
      → (marker : String) → kind_of marker ≡ none
      → (tail : List String) → All (λ line. match_header line ≡ none) (marker ∷ tail)
      → (below : List String) → Stops below
      → build_selected_patch
          (above ++ header ∷ (body ++ marker ∷ (tail ++ below)))
          old_lines
          new_lines
        ≡ build_selected_patch (above ++ header ∷ (body ++ below)) old_lines new_lines
  marker_ignored above header old new starts matched body in_body marker unknown tail none_there
        below stops =
      let entries = (read_entries body old new).0 in
      let lost = body ++ marker ∷ (tail ++ below) in
      built header starts above lost
      ∙ ap (map_option (patch_text (split_preamble above).0)) (
          hunks-above header starts lost (body ++ below)
            (hunks-header header old new lost entries (marker ∷ (tail ++ below)) matched
                (read_entries-body body (marker ∷ (tail ++ below)) old new in_body (inr unknown))
              ∙ ap (map_option (λ hs. hunks_of old_lines new_lines entries ++ hs))
                  (hunks-no_header (marker ∷ tail) below none_there)
              ∙ sym (
                  hunks-header header old new (body ++ below) entries below matched
                    (read_entries-body body below old new in_body stops)))
            (suc (length (split_preamble above).1)) (split_preamble above).1 (omega arith))
      ∙ sym (built header starts above (body ++ below))
