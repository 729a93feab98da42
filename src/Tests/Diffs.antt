-- ===== src/Tests/Diffs.antt =====
-- One removed and two added lines, of which one is selected.
use tgent.Prelude.{
  ◌+◌, ◌-◌, String, true, ◌&&◌, ◌||◌, ◌≡◌, refl, some, none, List, [], ◌∷◌, leb, All, concat,
  drop_prefix, ◌++◌, map, inl,
}
use tgent.Patch.Lines.{
  starts_hunk, match_header, kind_of, Entry, context, removed, added, entry, read_entries,
  is_context,
}
use tgent.Patch.Lines.Numbered.{Numbered}
use tgent.Patch.Lines.Placed.{IsBody, Stops, ArePlaced, read_entries-ArePlaced}
use tgent.Patch.Select.{
  sorted, included, selected_from, context_at, mem_nat, segments_of, is_selected,
}
use tgent.Patch.Select.Indexes.{kept_iff, selected_at}
use tgent.Patch.Select.Segments.{
  segments_of-concat, segments_of-IsRun, segments_of-kept, entries_at, IsRun,
}
use tgent.Patch.Build.{Hunk, build_selected_patch, patch_text, split_preamble}
use tgent.Patch.Build.Marker.{marker_ignored}
use tgent.Patch.Build.Exact.{IsExact, build_selected_patch-IsExact}

abbrev hunk_lines : List String
hunk_lines = " a" ∷ "-b" ∷ "+c" ∷ "+d" ∷ " e" ∷ []

abbrev diff : List String
diff = "--- a/f" ∷ "+++ b/f" ∷ "@@ -1,3 +1,4 @@" ∷ hunk_lines

abbrev changes : List Entry
changes =
    entry context " a" 1 1
    ∷ entry removed "-b" 2 2
    ∷ entry added "+c" 3 2
    ∷ entry added "+d" 3 3
    ∷ entry context " e" 3 4
    ∷ []

build_selected_patch-IsExact_example :
    (hs : List Hunk) × (build_selected_patch diff [] (2 ∷ [])
      ≡ some (patch_text (split_preamble diff).0 hs))
    × All (IsExact diff) hs
build_selected_patch-IsExact_example = build_selected_patch-IsExact diff [] (2 ∷ [])

read_entries-ArePlaced_example :
    (hunk_lines
      ≡ map (λ e. e.raw) (read_entries hunk_lines 1 1).0 ++ (read_entries hunk_lines 1 1).1)
    × Stops (read_entries hunk_lines 1 1).1
    × ArePlaced 1 1 hunk_lines 0 (read_entries hunk_lines 1 1).0
read_entries-ArePlaced_example = read_entries-ArePlaced hunk_lines 1 1

kept_iff_example : mem_nat 0 (sorted (included changes (selected_from [] (2 ∷ []) 0 changes))) ≡ (
    selected_at [] (2 ∷ []) changes 0
    || context_at changes 0
      && (selected_at [] (2 ∷ []) changes (0 + 1)
          || leb 1 0 && selected_at [] (2 ∷ []) changes (0 - 1)))
kept_iff_example = kept_iff [] (2 ∷ []) changes 0

segments_of-concat_example :
    concat (segments_of [] (2 ∷ []) changes)
    ≡ entries_at changes (sorted (included changes (selected_from [] (2 ∷ []) 0 changes)))
segments_of-concat_example = segments_of-concat [] (2 ∷ []) changes

changes-Numbered : Numbered 1 1 changes
unfolding entry
changes-Numbered = (refl, (refl, (refl, (refl, (refl, tt)))))

segments_of-IsRun_example : All IsRun (segments_of [] (2 ∷ []) changes)
segments_of-IsRun_example = segments_of-IsRun [] (2 ∷ []) changes 1 1 changes-Numbered

segments_of-kept_example :
    All
      (λ e. (is_selected [] (2 ∷ []) e || is_context e.kind) ≡ true)
      (concat (segments_of [] (2 ∷ []) changes))
segments_of-kept_example = segments_of-kept [] (2 ∷ []) changes

abbrev no_newline : String
no_newline = "\\ No newline at end of file"

marker_unknown : kind_of no_newline ≡ none
unfolding kind_of
marker_unknown = refl

header_starts : starts_hunk "@@ -1 +1 @@" ≡ true
unfolding starts_hunk drop_prefix
header_starts = refl

header_matched : match_header "@@ -1 +1 @@" ≡ some (1, 1)
unfolding match_header drop_prefix
header_matched = refl

removed-IsBody : All IsBody ("-b" ∷ [])
unfolding starts_hunk kind_of drop_prefix
removed-IsBody = ((refl, removed, refl), tt)

no_header : All (λ line. match_header line ≡ none) (no_newline ∷ "+c" ∷ [])
unfolding match_header drop_prefix
no_header = (refl, (refl, tt))

abbrev preamble : List String
preamble = "--- a/f" ∷ "+++ b/f" ∷ []

abbrev next_hunk : List String
next_hunk = "@@ -9 +9 @@" ∷ "-x" ∷ []

next-Stops : Stops next_hunk
unfolding starts_hunk drop_prefix
next-Stops = inl refl

-- the selected line `+c` is lost
marker_ignored_example :
    build_selected_patch
      (preamble ++ "@@ -1 +1 @@" ∷ (("-b" ∷ []) ++ no_newline ∷ (("+c" ∷ []) ++ next_hunk)))
      (1 ∷ 9 ∷ [])
      (1 ∷ [])
    ≡ build_selected_patch
        (preamble ++ "@@ -1 +1 @@" ∷ (("-b" ∷ []) ++ next_hunk))
        (1 ∷ 9 ∷ [])
        (1 ∷ [])
marker_ignored_example =
    marker_ignored (1 ∷ 9 ∷ []) (1 ∷ []) preamble "@@ -1 +1 @@" 1 1 header_starts header_matched
      ("-b" ∷ []) removed-IsBody no_newline marker_unknown ("+c" ∷ []) no_header next_hunk
      next-Stops
