-- ===== src/Controller/Review/Decisions.antt =====
-- The operator's decisions on a submitted patch.
use tgent.Prelude.{
  ℕ, String, Bool, true, false, not, ◌||◌, ◌≡◌, refl, some, none, eq_refl, Option-cases, Bool-cases,
  inl, inr, ◌⊎◌, ap, ◌∙◌,
}
use tgent.Result.{Result, ok, err, IsErr}
use tgent.Store.Metadata.{Metadata}
use tgent.Store.Files.{Stored, get_metadata}
use tgent.Store.Files.Laws.{Holds, get_metadata-Holds, insert-Holds}
use tgent.Controller.State.{Controller, query, runtime_of, is_live}
use tgent.Controller.State.Laws.{
  updated_controller, updated_metadata, updated_record, update-Holds, >>=-returns,
}
use tgent.Controller.Lifecycle.{submitted, decides, undecided}
use tgent.Controller.Review.{
  acknowledge, acknowledge_found, acknowledge_with, acknowledge_head, acknowledged, is_inactive,
  present,
}

or-true : (b : Bool) → not (b || true) ≡ false
or-true true = refl
or-true false = refl

decided-acknowledged :
    (m : Metadata) (head : String)
    → submitted m ≡ some head
    → decides m.patch_applied_acknowledgement head ≡ true
    → undecided m ≡ false
decided-acknowledged m head e d =
    rw (e, undecided) (rw d (or-true (decides m.patch_rejection head)))

module _ (agent_id : String) (now : ℕ) where
  acknowledge-found :
      (s : Stored) (c : Controller)
      → Holds agent_id s c.store
      → acknowledge agent_id now c
        ≡ acknowledge_with agent_id now s.metadata (runtime_of agent_id c) (submitted s.metadata) c
  unfolding acknowledge
  acknowledge-found s c h =
      >>=-returns (query (get_metadata agent_id)) (acknowledge_found agent_id now) c c s.metadata
        (ap (λ (p : Result Metadata). (p, c)) (get_metadata-Holds agent_id s c.store h))

  acknowledge-again :
      (s : Stored) (c : Controller)
      → Holds agent_id s c.store
      → (head : String) → submitted s.metadata ≡ some head
      → is_live (runtime_of agent_id c) ≡ false
      → is_inactive s.metadata.state ≡ true
      → decides s.metadata.patch_applied_acknowledgement head ≡ true
      → acknowledge agent_id now c ≡ (ok s.metadata, c)
  acknowledge-again s c h head e nl i d = acknowledge-found s c h ∙ rw (e, nl, i, d) refl

module _ (agent_id : String) (now : ℕ) where
  module _ (s : Stored) (c : Controller) (h : Holds agent_id s c.store) where
    Decided : Metadata → Controller → Type 0
    Decided m c' =
        Holds agent_id (record s { metadata = m }) c'.store
        × (undecided m ≡ false)
        × ((later : ℕ) → acknowledge agent_id later c' ≡ (ok m, c'))

    abbrev Outcome : Result Metadata × Controller → Type 0
    Outcome (ok m, c') = Decided m c'
    Outcome (err e, c') = c' ≡ c

    module _ (head : String) (e : submitted s.metadata ≡ some head) where
      newly-Decided :
          is_live (runtime_of agent_id c) ≡ false
          → is_inactive s.metadata.state ≡ true
          → Decided
              (updated_metadata s (acknowledged head now) now)
              (updated_controller agent_id s (acknowledged head now) now c)
      unfolding Decided
      newly-Decided nl i =
          let t = updated_record s (acknowledged head now) now in
          let held = insert-Holds agent_id s c.store h t in
          (
            held,
            decided-acknowledged t.metadata head e (eq_refl head),
            λ later.
                acknowledge-again agent_id later t
                  (updated_controller agent_id s (acknowledged head now) now c) held head e nl i
                  (eq_refl head),
          )

      head-Outcome :
          Outcome (acknowledge_head agent_id now s.metadata (runtime_of agent_id c) head c)
      unfolding Decided
      head-Outcome = elim (Bool-cases (is_live (runtime_of agent_id c))) [
        | inl l ↦ rw l refl
        | inr nl ↦ elim (Bool-cases (is_inactive s.metadata.state)) [
          | inr a ↦ rw (nl, a) refl
          | inl i ↦ elim (Bool-cases (decides s.metadata.patch_applied_acknowledgement head)) [
            | inl d ↦
                rw (nl, i, d)
                  (
                    h,
                    decided-acknowledged s.metadata head e d,
                    λ later. acknowledge-again agent_id later s c h head e nl i d,
                  )
            | inr nd ↦
                rw (nl, i, nd, update-Holds agent_id s c h (acknowledged head now) now)
                  (newly-Decided nl i)
          ]
        ]
      ]

    none-Outcome :
        submitted s.metadata ≡ none
        → Outcome (acknowledge_with agent_id now s.metadata (runtime_of agent_id c) none c)
    unfolding Decided
    none-Outcome e = elim (Bool-cases (present s.metadata.patch_applied_acknowledgement)) [
      | inl p ↦ rw p (
        h,
        rw (e, undecided) refl,
        λ later. acknowledge-found agent_id later s c h ∙ rw (e, p) refl,
      )
      | inr a ↦ rw a refl
    ]

    acknowledge-Outcome : Outcome (acknowledge agent_id now c)
    acknowledge-Outcome = elim (Option-cases (submitted s.metadata)) [
      | inl e ↦
          rw (acknowledge-found agent_id now s c h) (rw (e, acknowledge_with) (none-Outcome e))
      | inr (head, e) ↦
          rw (acknowledge-found agent_id now s c h) (rw (e, acknowledge_with) (head-Outcome head e))
    ]

    Outcome-cases :
        (result : Result Metadata) (c' : Controller)
        → Outcome (result, c')
        → (IsErr result × (c' ≡ c))
          ⊎ ((m : Metadata) × (result ≡ ok m)
              × Holds agent_id (record s { metadata = m }) c'.store
              × (undecided m ≡ false)
              × ((later : ℕ) → acknowledge agent_id later c' ≡ (ok m, c')))
    unfolding Decided
    Outcome-cases (ok m) c' o = inr (m, refl, o.0, o.1, o.2)
    Outcome-cases (err e) c' o = inl (tt, o)

    -- An acknowledgement for an agent that has a record either is refused and changes nothing, or
    -- the agent has no submitted patch left that nobody has decided on; its history is as it was,
    -- and a second acknowledgement, at any time, returns the same metadata and changes nothing.
    pub acknowledge-decided :
        let (result, c') = acknowledge agent_id now c in
        (IsErr result × (c' ≡ c))
        ⊎ ((m : Metadata) × (result ≡ ok m)
            × Holds agent_id (record s { metadata = m }) c'.store
            × (undecided m ≡ false)
            × ((later : ℕ) → acknowledge agent_id later c' ≡ (ok m, c')))
    acknowledge-decided =
        Outcome-cases (acknowledge agent_id now c).0 (acknowledge agent_id now c).1
          acknowledge-Outcome
