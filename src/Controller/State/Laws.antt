-- ===== src/Controller/State/Laws.antt =====
-- The update of a record through the controller, where the store holds it.
use tgent.Prelude.{Bool, true, false, ℕ, String, ◌≡◌, refl, ap}
use tgent.Result.{Result, ok, err, Error, controller_error}
use tgent.Dict.{insert}
use tgent.Store.Metadata.{Metadata}
use tgent.Store.Files.{Stored}
use tgent.Store.Files.Laws.{Holds, update_metadata-Holds}
use tgent.Controller.State.{Controller, Action, ◌>>=◌, ◌>>◌, refuse_if, update}

-- the metadata after an update, and the controller
abbrev pub updated_metadata : Stored → (Metadata → Metadata) → ℕ → Metadata
updated_metadata s f now = record (f s.metadata) { updated_at = now }

abbrev pub updated_record : Stored → (Metadata → Metadata) → ℕ → Stored
updated_record s f now = record s { metadata = updated_metadata s f now }

abbrev pub updated_controller :
    String → Stored → (Metadata → Metadata) → ℕ → Controller → Controller
updated_controller agent_id s f now c = record c {
  store = insert agent_id (updated_record s f now) c.store;
}

pub update-Holds :
    (agent_id : String) (s : Stored) (c : Controller)
    → Holds agent_id s c.store
    → (f : Metadata → Metadata) (now : ℕ)
    → update agent_id f now c
      ≡ (ok (updated_metadata s f now), updated_controller agent_id s f now c)
unfolding update
update-Holds agent_id s c h f now = rw (update_metadata-Holds agent_id s c.store h f now, update)

-- A step that returns hands its value and its controller on.
module _ {ℓ κ} {A : Type ℓ} {B : Type κ} where
  pub >>=-returns :
      (m : Action A) (f : A → Action B) (c c' : Controller) (a : A)
      → m c ≡ (ok a, c')
      → (m >>= f) c ≡ f a c'
  >>=-returns m f c c' a e =
      ap (λ (p : Result A × Controller). elim p.0 [ ok a ↦ f a p.1 | err e ↦ (err e, p.1) ]) e

  pub >>=-raises :
      (m : Action A) (f : A → Action B) (c c' : Controller) (e : Error)
      → m c ≡ (err e, c')
      → (m >>= f) c ≡ (err e, c')
  >>=-raises m f c c' e h =
      ap (λ (p : Result A × Controller). elim p.0 [ ok a ↦ f a p.1 | err e ↦ (err e, p.1) ]) h

  pub >>-returns :
      (m : Action A) (n : Action B) (c c' : Controller) (a : A)
      → m c ≡ (ok a, c')
      → (m >> n) c ≡ n c'
  >>-returns m n = >>=-returns m (λ _. n)

-- A guard either lets the rest run, or refuses and leaves the controller as it was.
pub refuse_if-elim {ℓ κ} :
    {B : Type ℓ} (b : Bool) (text : String) (n : Action B) (c : Controller)
    (P : Result B × Controller → Type κ)
    → P (err (controller_error text), c)
    → (b ≡ false → P (n c))
    → P ((refuse_if b text >> n) c)
refuse_if-elim true text n c P refused passed = refused
refuse_if-elim false text n c P refused passed = passed refl

module _ {ℓ κ} {A : Type ℓ} {B : Type κ} (f : A → Action B) (b : B) where
  went_on :
      (r : Result A) (c : Controller)
      → (elim r as (λ _. Result B × Controller) [ ok a ↦ f a c | err e ↦ (err e, c) ]).0 ≡ ok b
      → (a : A) × (r ≡ ok a)
        × ((elim r as (λ _. Result B × Controller) [ ok a ↦ f a c | err e ↦ (err e, c) ]) ≡ f a c)
  went_on (ok a) c h = (a, refl, refl)
  went_on (err e) c h = cc

  -- A chain that returns has run its first step.
  pub >>=-ran :
      (m : Action A) (c : Controller)
      → ((m >>= f) c).0 ≡ ok b
      → (a : A) × ((m c).0 ≡ ok a) × ((m >>= f) c ≡ f a (m c).1)
  >>=-ran m c h = went_on (m c).0 (m c).1 h
