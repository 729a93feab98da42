-- ===== src/Worker/Search.antt =====
-- `_search_files` of agent_worker.py.
use tgent.Prelude.{
  ℕ, suc, String, Bool, true, false, not, ◌&&◌, ◌||◌, Option, none, some, List, [], ◌∷◌, ◌++◌,
  length, take_text, leb, if◌then◌else◌, ◌==◌,
}
use tgent.Result.{Result, ok, err, worker_error, ◌>>=◌}
use tgent.Json.{Json, int, str, arr, obj, bool, Items, nil, cons, Fields, end, field, pos, of_list}
use tgent.Paths.{FilePath, path_mem}
use tgent.Worker.Text.{splitlines, contains}
use tgent.Worker.Files.{
  File, Tree, Project, file_at, is_file, fits, posix_below, resolve_project_file, get_or, get_none,
  natural,
}

-- `matches`, and whether the limit has been met
pub record Found : Type 0 where
  pub matches : List Json
  pub truncated : Bool

abbrev match_of : String → ℕ → String → Json
match_of path number line = obj (
    field "path" (str path)
      (field "line" (int (pos number)) (field "text" (str (take_text 1000 line)) end)))

-- The loop over the numbered lines of a file. A search that has met its limit stays as it is.
unfoldable pub search_lines : String → ℕ → String → ℕ → List String → Found → Found
search_lines query limit path number [] found = found
search_lines query limit path number (line ∷ lines) found =
    let matches = found.matches ++ match_of path number line ∷ [] in
    let hit =
      if contains query line
      then record { matches = matches; truncated = leb limit (length matches) }
      else found in
    let rest = search_lines query limit path (suc number) lines hit in
    if hit.truncated then hit else rest

abbrev text_of : Option File → Option String
text_of none = none
text_of (some file) = if fits file.bytes then file.text else none

abbrev search_text : Project → String → ℕ → FilePath → Option String → Found → Found
search_text project query limit p none found = found
search_text project query limit p (some text) found =
    search_lines query limit (posix_below project p) 1 (splitlines text) found

-- the loop over the candidates, with the files that have been seen
unfoldable pub search_candidates :
    Project → Tree → String → ℕ → List FilePath → List FilePath → Found → Found × List FilePath
unfolding search_lines
search_candidates project tree query limit [] seen found = (found, seen)
search_candidates project tree query limit (p ∷ ps) seen found =
    let skipped = search_candidates project tree query limit ps seen found in
    let found' = search_text project query limit p (text_of (file_at p tree)) found in
    let rest = search_candidates project tree query limit ps (p ∷ seen) found' in
    if leb limit (length found.matches)
    then (record found { truncated = true }, seen)
    else if project.is_symlink p || (not (is_file p tree) || path_mem p seen)
    then skipped
    else if found'.truncated
    then (found', p ∷ seen)
    else rest

abbrev target_of : Project → Tree → String → Result FilePath
target_of project tree item =
    if item == "." then ok project.root else resolve_project_file project tree (str item)

abbrev candidates : Project → Tree → FilePath → List FilePath
candidates project tree p = if is_file p tree then p ∷ [] else project.rglob p

-- the loop over the paths
unfoldable pub search_paths :
    Project → Tree → String → ℕ → List String → List FilePath → Found → Result Found
unfolding search_candidates resolve_project_file
search_paths project tree query limit [] seen found = ok found
search_paths project tree query limit (item ∷ items) seen found = do
  target ← target_of project tree item
  let result =
      search_candidates project tree query limit (candidates project tree target) seen found
  let rest = search_paths project tree query limit items result.1 result.0
  if result.0.truncated then ok result.0 else rest

abbrev query_of : Json → Result String
query_of (str query) =
    if query == "" then err (worker_error "query must be a non-empty string") else ok query
query_of _ = err (worker_error "query must be a non-empty string")

abbrev onto_paths : Json → Result (List String) → Result (List String)
onto_paths (str item) (ok items) = ok (item ∷ items)
onto_paths _ _ = err (worker_error "paths must be an array of project paths")

abbrev items_of : Items → Result (List String)
items_of nil = ok []
items_of (cons x xs) = onto_paths x (items_of xs)

abbrev paths_of : Json → Result (List String)
paths_of (arr xs) = items_of xs
paths_of _ = err (worker_error "paths must be an array of project paths")

abbrev limit_of : Option ℕ → Result ℕ
limit_of none = err (worker_error "max_results must be between 1 and 200")
limit_of (some n) =
    if leb 1 n && leb n 200
    then ok n
    else err (worker_error "max_results must be between 1 and 200")

-- `_search_files`
unfoldable pub search_files : Project → Tree → Fields → Result Fields
unfolding search_paths
search_files project tree arguments = do
  query ← query_of (get_none "query" arguments)
  paths ← paths_of (get_or "paths" (arr (cons (str ".") nil)) arguments)
  limit ← limit_of (natural (get_or "max_results" (int (pos 100)) arguments))
  found ←
      search_paths project tree query limit paths [] (record { matches = []; truncated = false })
  ok (field "matches" (arr (of_list found.matches)) (field "truncated" (bool found.truncated) end))
