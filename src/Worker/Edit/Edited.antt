-- ===== src/Worker/Edit/Edited.antt =====
-- What an edit that returns has done to the files.
use mathlib.Core.Path.{subst}
use tgent.Prelude.{
  ℕ, suc, String, Bool, true, false, not, ◌||◌, any_char, ◌≡◌, refl, sym, ap, ◌∙◌, ◌⊎◌, inl, inr,
  Option, none, some, List, [], ◌∷◌, nat_eq, nat_eq→eq, not-false, Bool-cases, if◌then◌else◌, ◌==◌,
  text_eq→eq,
}
use tgent.Result.{ok, after, passed, worker_error, IfOk-ok}
use tgent.Dict.{lookup, lookup-insert}
use tgent.Json.{Json, str, arr, obj, Items, nil, cons, Fields, get_value, to_list}
use tgent.Paths.{FilePath, path_of, path_text, join, relative_to}
use tgent.Worker.Text.{count_from, count, universal_newlines, replace_first}
use tgent.Worker.Files.{
  File, Tree, Project, file_at, is_file, resolve_project_file, checked_file, get_none,
}
use tgent.Worker.Edit.{
  at, replacement_of, texts_of, replace_once, replace_all, list_of, read_text, write_changed,
  edit_file,
}
use tgent.Worker.Edit.Applied.{IsReplaced, replace_first-IsReplaced}

-- A replacement that the model asked for.
pub record Asks (replacement : Json) (search replace : String) : Type 0 where
  pub fields : Fields
  pub is_object : replacement ≡ obj fields
  pub searched : get_value "search" fields ≡ str search
  pub replaced : get_value "replace" fields ≡ str replace
  pub nonempty : (search == "") ≡ false

-- The replacements, one after the other, each of the first match in the text that it finds, where
-- no other match stands behind it.
pub data Edits : List Json → String → String → Type 0 where
  done : {text : String} → Edits [] text text
  step :
      {replacement : Json} {rest : List Json} {text middle result : String}
      (search replace : String)
      → Asks replacement search replace
      → IsReplaced search replace text middle
      → Edits rest middle result
      → Edits (replacement ∷ rest) text result

texts_of-Asks :
    (index : ℕ) (fs : Fields) (v w : Json) {search replace : String}
    → get_value "search" fs ≡ v
    → get_value "replace" fs ≡ w
    → texts_of index v w ≡ ok (search, replace)
    → Asks (obj fs) search replace
texts_of-Asks index fs (str s) (str t) {search} {replace} is_s is_t e =
    let (nonempty, same) =
      passed (s == "") (worker_error (at index "] requires non-empty search and string replace"))
        (ok (s, t)) (search, replace) e in
    let s_is : s ≡ search = cc in
    let t_is : t ≡ replace = cc in
    record {
      fields = fs;
      is_object = refl;
      searched = is_s ∙ ap str s_is;
      replaced = is_t ∙ ap str t_is;
      nonempty = rw s_is at nonempty;
    }
texts_of-Asks index fs _ _ is_s is_t e = cc

replacement_of-Asks :
    (index : ℕ) (replacement : Json) {texts : String × String}
    → replacement_of index replacement ≡ ok texts
    → Asks replacement texts.0 texts.1
unfolding replacement_of
replacement_of-Asks index (obj fs) e =
    texts_of-Asks index fs (get_value "search" fs) (get_value "replace" fs) refl refl e
replacement_of-Asks index _ e = cc

replace_once-IsReplaced :
    (index : ℕ) (search replace text : String) {middle : String}
    → (search == "") ≡ false
    → replace_once index (search, replace) text ≡ ok middle
    → IsReplaced search replace text middle
unfolding replace_once count
replace_once-IsReplaced index search replace text {middle} nonempty e =
    let (one, same) =
      passed (not (nat_eq (count_from search 0 text) 1)) _ (ok (replace_first search replace text))
        middle e in
    let is_middle : replace_first search replace text ≡ middle = cc in
    subst (IsReplaced search replace text) is_middle
      (replace_first-IsReplaced search replace text nonempty (nat_eq→eq _ _ (not-false _ one)))

replace_all-Edits :
    (index : ℕ) (rs : List Json) (text : String) {result : String}
    → replace_all index rs text ≡ ok result
    → Edits rs text result
unfolding replace_all
replace_all-Edits index [] text e = IfOk-ok (Edits [] text) (ok text) e done
replace_all-Edits index (r ∷ rs) text e = after (replacement_of index r) _ e λ texts is_texts e1.
    after (replace_once index texts text) _ e1 λ middle is_middle e2.
      let asks = replacement_of-Asks index r is_texts in
      step texts.0 texts.1 asks
        (replace_once-IsReplaced index texts.0 texts.1 text asks.nonempty is_middle)
        (replace_all-Edits (suc index) rs middle e2)

-- The file at a path below the root of the project.
pub record IsProjectFile (project : Project) (tree : Tree) (p : FilePath) (old : String)
    : Type 0 where
  pub below : List String
  pub is_below : relative_to p project.root ≡ some below
  pub bytes : ℕ
  pub is_file : file_at p tree ≡ some (record { bytes = bytes; text = some old })

checked_file-eq-ok :
    (resolved : FilePath) (below : Option (List String)) (supplied : String) (regular : Bool)
    {p : FilePath}
    → checked_file resolved below supplied regular ≡ ok p
    → (parts : List String) × (below ≡ some parts) × (resolved ≡ p)
checked_file-eq-ok resolved none supplied regular e = cc
checked_file-eq-ok resolved (some parts) supplied true e = (parts, refl, cc)
checked_file-eq-ok resolved (some parts) supplied false e = cc

resolve_project_file-below :
    (project : Project) (tree : Tree) (supplied : Json) {p : FilePath}
    → resolve_project_file project tree supplied ≡ ok p
    → (below : List String) × (relative_to p project.root ≡ some below)
      × (text : String) × (supplied ≡ str text)
      × (p ≡ project.resolve (join project.root (path_of text)))
unfolding resolve_project_file
resolve_project_file-below project tree (str s) {p} e =
    let (_, checked) =
      passed (s == "" || any_char (λ c. nat_eq c 0) s)
        (worker_error "path must be a non-empty string") (checked_file resolved below s regular) p
        e in
    let (parts, is_below, same) = checked_file-eq-ok resolved below s regular checked in
    (parts, subst (λ q. relative_to q project.root ≡ some parts) same is_below, s, refl, sym same)
  where
    resolved : FilePath
    resolved = project.resolve (join project.root (path_of s))

    below : Option (List String)
    below = relative_to resolved project.root

    regular : Bool
    regular = is_file resolved tree
resolve_project_file-below project tree _ e = cc

read_text-eq-ok :
    (file : Option File) {text : String}
    → read_text file ≡ ok text
    → (old : String) × (bytes : ℕ) × (file ≡ some (record { bytes = bytes; text = some old }))
      × (universal_newlines old ≡ text)
read_text-eq-ok none e = cc
read_text-eq-ok (some file) {text} e = with_text file.text refl e
  where
    with_text :
        (t : Option String)
        → file.text ≡ t
        → read_text (some (record { bytes = file.bytes; text = t })) ≡ ok text
        → (old : String) × (bytes : ℕ) × (◌≡◌ {A = Option File}
            (some file)
            (some (record { bytes = bytes; text = some old })))
          × (universal_newlines old ≡ text)
    with_text none is e = cc
    with_text (some old) is e =
        (old, file.bytes, λ i. some (record { bytes = file.bytes; text = is i }), cc)

list_of-eq-ok :
    (v : Json) {rs : List Json}
    → list_of v ≡ ok rs
    → (x : Json) × (xs : Items) × (v ≡ arr (cons x xs)) × (rs ≡ x ∷ to_list xs)
list_of-eq-ok (arr (cons x xs)) e = (x, xs, refl, cc)
list_of-eq-ok (arr nil) e = cc
list_of-eq-ok _ e = cc

module _ (encoded_length : String → ℕ) (project : Project) (arguments : Fields) (tree : Tree) where
  -- What has been written: nothing if the text is as it was, or else the new text at the path.
  abbrev pub IsWritten : FilePath → String → String → Tree → Type 0
  IsWritten p original updated tree' =
      ((updated ≡ original) × (tree' ≡ tree))
      ⊎ ((key : String)
          → lookup key tree' ≡ (
              if path_text p == key
              then some (record { bytes = encoded_length updated; text = some updated })
              else lookup key tree))

  pub record IsEdited (tree' : Tree) : Type 0 where
    pub supplied : String
    pub is_supplied : get_none "path" arguments ≡ str supplied
    pub path : FilePath
    pub is_path : path ≡ project.resolve (join project.root (path_of supplied))
    pub old : String
    pub file : IsProjectFile project tree path old
    pub replacements : List Json
    pub first : Json
    pub others : Items
    pub asked : get_none "replacements" arguments ≡ arr (cons first others)
    pub are : replacements ≡ first ∷ to_list others
    pub updated : String
    pub edits : Edits replacements (universal_newlines old) updated
    pub written : IsWritten path (universal_newlines old) updated tree'

  write_changed-IsWritten :
      (p : FilePath) (rs : List Json) (original updated : String)
      → IsWritten p original updated
          (write_changed encoded_length project p rs original updated tree).1
  write_changed-IsWritten p rs original updated = elim (Bool-cases (updated == original)) [
    | inl same ↦ rw same (inl (text_eq→eq _ _ same, refl))
    | inr other ↦ rw other (inr (λ key. lookup-insert (path_text p) key _ tree))
  ]

  -- An edit that returns has made the replacements that were asked for, in their order, in the text
  -- of the file at the path that was given, below the root, whose newlines are all `\n` then. Each
  -- was made at the first match in the text, overlapping ones included, and no match stood behind
  -- it; a match that overlaps the first one is not excluded. Where the text has changed, it is
  -- written to the file, and every other file is as it was.
  pub edit_file-IsEdited :
      {answer : Fields} {tree' : Tree}
      → edit_file encoded_length project arguments tree ≡ ok (answer, tree')
      → IsEdited tree'
  unfolding edit_file
  edit_file-IsEdited {tree' = t} e =
      after (resolve_project_file project tree (get_none "path" arguments)) _ e λ p is_p e1.
        after (list_of (get_none "replacements" arguments)) _ e1 λ rs are_rs e2.
          after (read_text (file_at p tree)) _ e2 λ original is_original e3.
            after (replace_all 0 rs original) _ e3 λ updated is_updated e4.
              let (below, is_below, supplied, is_supplied, is_path) =
                resolve_project_file-below project tree (get_none "path" arguments) is_p in
              let (old, bytes, is_file, is_old) = read_text-eq-ok (file_at p tree) is_original in
              let (x, xs, asked, are) = list_of-eq-ok (get_none "replacements" arguments) are_rs in
              record {
                supplied = supplied;
                is_supplied = is_supplied;
                path = p;
                is_path = is_path;
                old = old;
                file = record {
                  below = below;
                  is_below = is_below;
                  bytes = bytes;
                  is_file = is_file;
                };
                replacements = rs;
                first = x;
                others = xs;
                asked = asked;
                are = are;
                updated = updated;
                edits = rw is_old (replace_all-Edits 0 rs original is_updated);
                written =
                    IfOk-ok
                      (λ (a : Fields × Tree). IsWritten p (universal_newlines old) updated a.1)
                      (ok (write_changed encoded_length project p rs original updated tree)) e4
                      (rw is_old (write_changed-IsWritten p rs original updated));
              }
