-- ===== src/Tests/Workers.antt =====
-- The tools of a worker, the configuration of a project and uploads at concrete inputs.
use tgent.Prelude.{
  ℕ, true, false, ◌≡◌, refl, some, List, [], ◌∷◌, length, concat, take, ltb, any_char, len,
  drop_prefix, all_chars, head_char, is_alnum,
}
use tgent.Result.{ok}
use tgent.Dict.{lookup, insert, erase}
use tgent.Json.{
  str, int, bool, arr, nil, cons, obj, Fields, end, field, pos, get, get_value, keys, of_list,
  to_list,
}
use tgent.Protocol.Ids.{mem_text, is_valid_id, is_id_char}
use tgent.Paths.{
  FilePath, path_of, path_text, path_eq, path_mem, relative_to, texts_eq, strip_parts, split_on,
  kept, components, anchor_of, join_texts, sort_by,
}
use tgent.Config.Project.{
  ProjectConfig, Loaded, parsed, has_gcloud, is_sensitive, unknown_keys, require_keys, prefixes,
  check_item, check_items, requested_paths, intersection, config_of, load_project_config,
}
use tgent.Config.Project.Safe.{IsSafeConfig, load_project_config-AreSafe}
use tgent.Worker.Streams.{read_limited_stream}
use tgent.Worker.Streams.Limited.{read_limited_stream_lem}
use tgent.Worker.Text.{count_from, count, replace_first, universal_newlines}
use tgent.Worker.Files.{Tree, Project, resolve_project_file}
use tgent.Worker.Edit.{replacement_of, replace_once, replace_all, edit_file}
use tgent.Worker.Edit.Edited.{IsEdited, edit_file-IsEdited}
use tgent.Worker.Context.{api_messages, prompt_with}
use tgent.Worker.Context.Bounded.{IsBounded, api_messages-IsBounded}
use tgent.Upload.Manager.{Entry, Uploads, create_incoming, prepare_upload, finalize_upload}
use tgent.Upload.Manager.Reached.{Reached, empty, next, prepared, transferred, finalized}
use tgent.Upload.Manager.Sound.{IsSound, Reached-IsSound}
use tgent.Tests.Sandboxes.{host}

abbrev two_chunks : List (List ℕ)
two_chunks = (1 ∷ 2 ∷ []) ∷ (3 ∷ []) ∷ []

read_limited_stream_lem_example :
    read_limited_stream two_chunks
    ≡ (take 256000 (concat two_chunks), ltb 256000 (length (concat two_chunks)))
read_limited_stream_lem_example = read_limited_stream_lem two_chunks

abbrev home : FilePath
home = record { root = "/"; parts = "home" ∷ "u" ∷ [] }

abbrev config : ProjectConfig
config = record {
  root = record { root = "/"; parts = "src" ∷ [] };
  home_read_only = record { root = ""; parts = ".gitconfig" ∷ [] } ∷ [];
  home_read_write = record { root = ""; parts = ".cache" ∷ "pip" ∷ [] } ∷ [];
}

abbrev read_config : FilePath → Loaded
read_config p = parsed (
    field "version" (int (pos 1)) (
      field "home"
        (obj (
          field "read_only" (arr (cons (str ".gitconfig") nil))
            (field "read_write" (arr (cons (str ".cache/pip") nil)) end)))
        end))

config_loaded :
    load_project_config host (λ s. s) read_config (record { root = "/"; parts = "src" ∷ [] }) home
    ≡ ok config
unfolding load_project_config config_of require_keys unknown_keys requested_paths check_items
    check_item is_sensitive has_gcloud mem_text prefixes intersection path_mem path_eq texts_eq
    path_of anchor_of components split_on kept relative_to strip_parts any_char get keys sort_by
config_loaded = refl

load_project_config-AreSafe_example : IsSafeConfig host (λ s. s) home config
load_project_config-AreSafe_example =
    load_project_config-AreSafe host (λ s. s) read_config
      (record { root = "/"; parts = "src" ∷ [] }) home config_loaded

abbrev pub project : Project
project = record {
  root = record { root = "/"; parts = "p" ∷ [] };
  resolve = λ p. p;
  is_dir = λ p. false;
  is_symlink = λ p. false;
  rglob = λ p. [];
}

abbrev pub tree : Tree
tree = ("/p/a.txt", record { bytes = 7; text = some "one\ntwo" }) ∷ []

abbrev edited : Tree
edited = ("/p/a.txt", record { bytes = 9; text = some "one\nthree" }) ∷ []

abbrev arguments : Fields
arguments = field "path" (str "a.txt") (
    field "replacements"
      (arr (cons (obj (field "search" (str "two") (field "replace" (str "three") end))) nil)) end)

abbrev answer : Fields
answer = field "status" (str "ok") (
    field "path" (str "a.txt") (
      field "changed" (bool true)
        (field "replacements_applied" (arr (cons (int (pos 0)) nil)) end)))

file_edited : edit_file len project arguments tree ≡ ok (answer, edited)
unfolding edit_file resolve_project_file replace_all replacement_of replace_once count count_from
    replace_first universal_newlines drop_prefix len any_char path_of anchor_of components split_on
    kept path_text join_texts relative_to strip_parts lookup insert get get_value to_list of_list
file_edited = refl

edit_file-IsEdited_example : IsEdited len project arguments tree edited
edit_file-IsEdited_example = edit_file-IsEdited len project arguments tree file_edited

abbrev no_bytes : Fields → ℕ
no_bytes m = 100

abbrev history : List Fields
history = field "role" (str "user") (field "content" (str "hello") end) ∷ []

api_messages-IsBounded_example :
    (ms : List Fields) × (api_messages no_bytes len "You are an agent." [] history
      ≡ field "role" (str "system") (field "content" (str (prompt_with "You are an agent." [])) end)
        ∷ ms)
    × IsBounded no_bytes len "You are an agent." [] history ms
api_messages-IsBounded_example = api_messages-IsBounded no_bytes len "You are an agent." [] history

-- An upload that has been transferred and finalized.
abbrev full : Entry
full = record { is_directory = true; is_link = false; empty = false; mtime = 5 }

abbrev uploads : Uploads
uploads = record { incoming = []; completed = ("up1", full) ∷ []; sync = [] }

uploads_reached : Reached uploads
unfolding prepare_upload create_incoming finalize_upload is_valid_id is_id_char is_alnum head_char
    all_chars len lookup insert erase
uploads_reached =
    next (next (next empty (prepared (str "up1") 3)) (transferred "up1" full refl))
      (finalized (str "up1"))

Reached-IsSound_example : IsSound uploads
Reached-IsSound_example = Reached-IsSound uploads_reached
