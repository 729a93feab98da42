-- ===== src/Controller/State/Keeps.antt =====
-- Actions that keep a property of the controller, whether they return or raise.
use tgent.Prelude.{Bool, String}
use tgent.Result.{Result, ok, err}
use tgent.Store.Files.{Store}
use tgent.Controller.State.{Controller, Action, pure, gets, query, ◌>>=◌, ◌>>◌, refuse_if}

abbrev pub Keeps {ℓ κ} : {A : Type κ} → (Controller → Type ℓ) → Action A → Type ℓ
Keeps P m = (c : Controller) → P c → P (m c).1

module _ {ℓ κ} {A : Type κ} (P : Controller → Type ℓ) where
  pub Keeps-pure : (a : A) → Keeps P (pure a)
  Keeps-pure a c p = p

  pub Keeps-gets : (f : Controller → A) → Keeps P (gets f)
  Keeps-gets f c p = p

  pub Keeps-query : (f : Store → Result A) → Keeps P (query f)
  Keeps-query f c p = p

module _ {ℓ} (P : Controller → Type ℓ) where
  pub Keeps-refuse_if : (b : Bool) (text : String) → Keeps P (refuse_if b text)
  Keeps-refuse_if b text c p = p

module _ {ℓ κ μ} {A : Type κ} {B : Type μ} (P : Controller → Type ℓ) where
  handed_on :
      (f : A → Action B)
      → ((a : A) → Keeps P (f a))
      → (r : Result A) (c : Controller) → P c
      → P (elim r as (λ _. Result B × Controller) [ ok a ↦ f a c | err e ↦ (err e, c) ]).1
  handed_on f k (ok a) c p = k a c p
  handed_on f k (err e) c p = p

  pub Keeps->>= :
      (m : Action A) (f : A → Action B) → Keeps P m → ((a : A) → Keeps P (f a)) → Keeps P (m >>= f)
  Keeps->>= m f first then_ c p = handed_on f then_ (m c).0 (m c).1 (first c p)

  pub Keeps->> : (m : Action A) (n : Action B) → Keeps P m → Keeps P n → Keeps P (m >> n)
  Keeps->> m n first second = Keeps->>= m (λ _. n) first (λ _. second)
