-- ===== src/Tests/Records.antt =====
-- The store at concrete records.
use tgent.Prelude.{
  true, false, ◌≡◌, refl, none, List, [], ◌∷◌, ◌++◌, head_char, is_alnum, all_chars, len,
}
use tgent.Protocol.Ids.{is_word_char}
use tgent.Result.{ok}
use tgent.Json.{str, Fields, end, field}
use tgent.Dict.{lookup}
use tgent.Store.Metadata.{running}
use tgent.Store.Files.{
  Store, is_agent_id, get_history, append_history, Disk, exists, get_cached_summary,
}
use tgent.Store.Files.Laws.{SameOthers, IsCreated, append_history_lem, create_lem}
use tgent.Tests.Sample.{metadata_with, waiting, two_agents, waiting-Holds}

abbrev reply : List Fields
reply = field "role" (str "assistant") end ∷ []

append_history_lem_example :
    (store' : Store) × (append_history "a1" reply (2, 20) two_agents
      ≡ ok (waiting.history ++ reply, store'))
    × (get_history "a1" store' ≡ ok (waiting.history ++ reply))
    × (get_cached_summary "a1" store' ≡ ok none)
    × SameOthers "a1" two_agents store'
append_history_lem_example = append_history_lem "a1" waiting two_agents waiting-Holds reply (2, 20)

new_id : is_agent_id "c3" ≡ true
unfolding is_agent_id head_char is_alnum all_chars is_word_char len
new_id = refl

abbrev disk : Disk
disk = record { agents = two_agents; incomplete = [] }

new_absent : exists "c3" disk ≡ false
unfolding exists lookup
new_absent = refl

create_lem_example : IsCreated "c3" (metadata_with "c3" running none) reply (3, 30) disk
create_lem_example =
    create_lem "c3" (metadata_with "c3" running none) reply (3, 30) disk new_id new_absent
