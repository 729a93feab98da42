-- ===== src/Controller/Bulk/Kept.antt =====
-- What a bulk reap keeps.
use tgent.Prelude.{
  String, Bool, true, false, ◌≡◌, refl, List, [], ◌∷◌, text_eq→eq, not, ◌||◌, ◌⊎◌, if◌then◌else◌,
  Bool-cases, inl, inr, ◌==◌,
}
use tgent.Result.{Result, ok, err}
use tgent.Dict.{erase, lookup-erase}
use tgent.Store.Metadata.{Metadata}
use tgent.Store.Files.{Store, Stored, get_metadata, remove}
use tgent.Store.Files.Laws.{Holds, get_metadata-Holds, remove-eq-ok}
use tgent.Protocol.Ids.{mem_text}
use tgent.Controller.State.{Controller, Action, pure, query, ◌>>=◌, ◌>>◌, modify, refuse_if}
use tgent.Controller.State.Keeps.{Keeps, Keeps->>=, Keeps->>}
use tgent.Controller.Lifecycle.{
  undecided, reap_agent, reapable, discard, forget, put_store, remove_record,
}
use tgent.Controller.Review.{resolve_all}
use tgent.Controller.Bulk.{
  Outcome, excluded, is_awaiting, is_dead, reap_now, reap_listed, reap_found, reap_one, is_empty,
  reap_ids, reap_unseen, reap_each, reap_agents,
}

module _ (j : String) (s : Stored) where
  abbrev Kept : Controller → Type 0
  Kept c = Holds j s c.store

  erase-Holds :
      (agent_id : String)
      → (agent_id == j) ≡ false
      → (store : Store) → Holds j s store
      → Holds j s (erase agent_id store)
  erase-Holds agent_id ne store h = record {
    valid = h.valid;
    found = rw lookup-erase (rw ne h.found);
  }

  put_store-Kept :
      (r : Result Store) (c : Controller)
      → Kept c
      → ((store : Store) → r ≡ ok store → Holds j s store)
      → Kept (put_store r c).1
  put_store-Kept (ok store) c h f = f store refl
  put_store-Kept (err e) c h f = h

  remove_record-Kept :
      (agent_id : String) → (agent_id == j) ≡ false → Keeps Kept (remove_record agent_id)
  unfolding remove_record
  remove_record-Kept agent_id ne c h =
      put_store-Kept (remove agent_id c.store) c h
        λ store e. rw (remove-eq-ok agent_id c.store store e) (erase-Holds agent_id ne c.store h)

  -- one test and two actions
  Keeps-if :
      (b : Bool) (m n : Action Outcome)
      → Keeps Kept m
      → (b ≡ false → Keeps Kept n)
      → Keeps Kept (if b then m else n)
  Keeps-if true m n first second = first
  Keeps-if false m n first second = second refl

  module _ (managed : String → Bool) (removed : String → Result (Unit {0})) where
    discard-Kept :
        (agent_id : String)
        → (agent_id == j) ≡ false
        → (metadata : Metadata) → Keeps Kept (discard removed agent_id metadata)
    discard-Kept agent_id ne metadata =
        Keeps->> Kept (query (λ _. removed metadata.snapshot_root))
          (modify (forget agent_id metadata) >> remove_record agent_id) (λ c h. h)
          (Keeps->> Kept (modify (forget agent_id metadata)) (remove_record agent_id) (λ c h. h)
            (remove_record-Kept agent_id ne))

    reap_agent-Kept :
        (agent_id : String)
        → (agent_id == j) ≡ false
        → Keeps Kept (reap_agent managed removed agent_id)
    unfolding reap_agent
    reap_agent-Kept agent_id ne =
        Keeps->>= Kept (λ c. (reapable managed agent_id c, c)) (discard removed agent_id) (λ c h. h)
          (discard-Kept agent_id ne)

    reap_listed-Kept :
        (agent_id : String) (metadata : Metadata)
        → undecided metadata ≡ true ⊎ ((agent_id == j) ≡ false)
        → Keeps Kept (reap_listed managed removed agent_id metadata)
    reap_listed-Kept agent_id metadata (inl u) = rw u (λ c h. h)
    reap_listed-Kept agent_id metadata (inr ne) =
        Keeps-if (undecided metadata || is_awaiting metadata.state) _ _ (λ c h. h)
          λ _.
            Keeps-if (not (is_dead metadata.state)) _ (reap_now managed removed agent_id) (λ c h. h)
              λ _. reap_agent-Kept agent_id ne

    reap_found-Kept :
        (agent_id : String)
        → (agent_id == j) ≡ false
        → (r : Result Metadata) → Keeps Kept (reap_found managed removed agent_id r)
    reap_found-Kept agent_id ne (err e) = λ c h. h
    reap_found-Kept agent_id ne (ok metadata) = reap_listed-Kept agent_id metadata (inr ne)

    module _ (u : undecided s.metadata ≡ true) where
      reap_one-Kept : (agent_id : String) → Keeps Kept (reap_one managed removed agent_id)
      unfolding reap_one
      reap_one-Kept agent_id c h = elim (Bool-cases (agent_id == j)) [
        | inl same ↦
            rw (text_eq→eq agent_id j same)
              (rw (get_metadata-Holds j s c.store h) (reap_listed-Kept j s.metadata (inl u) c h))
        | inr ne ↦ reap_found-Kept agent_id ne (get_metadata agent_id c.store) c h
      ]

      reap_unseen-Kept :
          (seen : List String) (agent_id : String)
          → Keeps Kept (reap_unseen managed removed seen agent_id)
      reap_unseen-Kept seen agent_id =
          Keeps-if (mem_text agent_id seen) (pure (excluded "duplicate_id"))
            (reap_one managed removed agent_id) (λ c h. h) λ _. reap_one-Kept agent_id

      reap_each-Kept : (seen ids : List String) → Keeps Kept (reap_each managed removed seen ids)
      unfolding reap_each
      reap_each-Kept seen [] = λ c h. h
      reap_each-Kept seen (id ∷ ids) =
          Keeps->>= Kept (reap_unseen managed removed seen id)
            (λ outcome.
              reap_each managed removed (id ∷ seen) ids
              >>= (λ outcomes. pure ((id, outcome) ∷ outcomes)))
            (reap_unseen-Kept seen id)
            λ outcome.
              Keeps->>= Kept (reap_each managed removed (id ∷ seen) ids)
                (λ outcomes. pure ((id, outcome) ∷ outcomes)) (reap_each-Kept (id ∷ seen) ids)
                (λ outcomes c h. h)

      reap_ids-Kept : (ids : List String) → Keeps Kept (reap_ids managed removed ids)
      unfolding reap_ids
      reap_ids-Kept ids =
          Keeps->> Kept (refuse_if (is_empty ids) "agent_ids must be a non-empty list of agent IDs")
            (reap_each managed removed [] ids) (λ c h. h) (reap_each-Kept [] ids)

      -- The record of an agent with a submitted patch that nobody has decided on survives every
      -- bulk reap.
      pub reap_agents-Kept :
          (agent_ids : List String) (c : Controller)
          → Holds j s c.store
          → Holds j s (reap_agents managed removed agent_ids c).1.store
      unfolding reap_agents
      reap_agents-Kept agent_ids =
          Keeps->>= Kept (query (resolve_all agent_ids)) (reap_ids managed removed) (λ c h. h)
            reap_ids-Kept
