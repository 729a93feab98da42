-- ===== src/Controller/Lifecycle/Recovered.antt =====
-- The store after the controller has started.
use tgent.Prelude.{
  ℕ, String, true, false, ◌≡◌, refl, some, none, [], ◌∷◌, arith, ◌⊎◌, inl, inr, Bool-cases,
}
use tgent.Dict.{lookup}
use tgent.Store.Metadata.{stopped}
use tgent.Store.Files.{Store, Stored}
use tgent.Controller.Lifecycle.{is_running, recovered, recover}
use mathlib.Core.Option.{map as map_option}

-- Each record is recovered by itself.
lookup-recover :
    (now : ℕ) (id : String) (store : Store)
    → lookup id (recover now store) ≡ map_option (recovered now) (lookup id store)
unfolding lookup recover
lookup-recover now id [] = refl
lookup-recover now id ((j, s) ∷ store) = ground (arith, lookup-recover now id store)

-- A running agent is stopped, without a worker, and every other record is as it was.
recovered_lem :
    (now : ℕ) (s : Stored)
    → (is_running s.metadata.state ≡ false × (recovered now s ≡ s))
      ⊎ (is_running s.metadata.state ≡ true
          × ((recovered now s).metadata.state ≡ stopped)
          × ((recovered now s).metadata.worker_pid ≡ none)
          × ((recovered now s).history ≡ s.history))
recovered_lem now s = elim (Bool-cases (is_running s.metadata.state)) [
  | inl r ↦ inr (r, rw r refl, rw r refl, rw r refl)
  | inr i ↦ inl (i, rw i refl)
]

recovered-is_running : (now : ℕ) (s : Stored) → is_running (recovered now s).metadata.state ≡ false
recovered-is_running now s = elim (Bool-cases (is_running s.metadata.state)) [
  | inl r ↦ rw r refl
  | inr i ↦ rw (i, i) refl
]

-- After the recovery no agent runs, and an agent is there if it was there before: a running one is
-- stopped and without a worker but with its history, any other is as it was.
pub recover_lem :
    (now : ℕ) (id : String) (store : Store) (s : Stored)
    → lookup id store ≡ some s
    → (t : Stored) × (lookup id (recover now store) ≡ some t)
      × (is_running t.metadata.state ≡ false)
      × ((is_running s.metadata.state ≡ false × (t ≡ s))
          ⊎ (is_running s.metadata.state ≡ true
              × (t.metadata.state ≡ stopped)
              × (t.metadata.worker_pid ≡ none)
              × (t.history ≡ s.history)))
recover_lem now id store s e = (
  recovered now s,
  rw (lookup-recover now id store) (rw e refl),
  recovered-is_running now s,
  recovered_lem now s,
)
