-- ===== src/Worker/Session/Later.antt =====
-- Actions that lead from a session to a later one: no answer of the controller comes back, and, for
-- the quiet ones, the history stays as it is.
use tgent.Prelude.{
  ◌≤◌, String, Bool, true, false, ◌≡◌, refl, ◌∙◌, List, [], ◌∷◌, ◌++◌, length, arith, if◌then◌else◌,
}
use tgent.Result.{Result, ok, err}
use tgent.Json.{Json, Fields}
use tgent.Worker.Files.{Tree}
use tgent.Worker.Session.{
  Session, Action, finish, ◌>>=◌, ◌>>◌, refuse_if, on_tree, answer_of, request,
}

pub record Quiet (s s' : Session) : Type 0 where
  pub fewer : length s'.answers ≤ length s.answers
  pub kept : s'.history ≡ s.history

-- What is left of the answers behind an action.
abbrev pub Later : Session → Session → Type 0
Later s s' = length s'.answers ≤ length s.answers

abbrev pub Leads {ℓ} : {A : Type ℓ} → (Session → Session → Type 0) → Action A → Type 0
Leads R m = (s : Session) → R s (m s).1

module _ (R : Session → Session → Type 0) (chain : (s t u : Session) → R s t → R t u → R s u) where
  handed_on {ℓ κ} :
      {A : Type ℓ} {B : Type κ} (f : A → Action B)
      → ((a : A) → Leads R (f a))
      → (s : Session) (r : Result A) (s' : Session) → R s s'
      → R s (elim r as (λ _. Result B × Session) [ ok a ↦ f a s' | err e ↦ (err e, s') ]).1
  handed_on f k s (ok a) s' p = chain _ _ _ p (k a s')
  handed_on f k s (err e) s' p = p

  pub Leads->>= {ℓ κ} :
      {A : Type ℓ} {B : Type κ} (m : Action A) (f : A → Action B)
      → Leads R m
      → ((a : A) → Leads R (f a))
      → Leads R (m >>= f)
  Leads->>= m f first then_ s = handed_on f then_ s (m s).0 (m s).1 (first s)

pub Later-trans : (s t u : Session) → Later s t → Later t u → Later s u
Later-trans s t u p q = omega (arith, p, q)

pub Quiet-refl : (s : Session) → Quiet s s
Quiet-refl s = record { fewer = omega arith; kept = refl }

pub Quiet-trans : (s t u : Session) → Quiet s t → Quiet t u → Quiet s u
Quiet-trans s t u p q = record { fewer = omega (arith, p.fewer, q.fewer); kept = q.kept ∙ p.kept }

pub Quiet->>= {ℓ κ} :
    {A : Type ℓ} {B : Type κ} (m : Action A) (f : A → Action B)
    → Leads Quiet m
    → ((a : A) → Leads Quiet (f a))
    → Leads Quiet (m >>= f)
Quiet->>= = Leads->>= Quiet Quiet-trans

pub Quiet->> {ℓ κ} :
    {A : Type ℓ} {B : Type κ} (m : Action A) (n : Action B)
    → Leads Quiet m
    → Leads Quiet n
    → Leads Quiet (m >> n)
Quiet->> m n p q = Quiet->>= m (λ _. n) p (λ _. q)

pub Quiet-if {ℓ} :
    {A : Type ℓ} (b : Bool) (m n : Action A)
    → Leads Quiet m
    → Leads Quiet n
    → Leads Quiet (λ s. (if b then m else n) s)
Quiet-if true m n p q = p
Quiet-if false m n p q = q

module _ {ℓ} {A : Type ℓ} where
  pub Quiet-finish : (r : Result A) → Leads Quiet (finish r)
  Quiet-finish r s = Quiet-refl s

  pub Quiet-on_tree : (f : Tree → Result A × Tree) → Leads Quiet (on_tree f)
  Quiet-on_tree f s = record { fewer = omega arith; kept = refl }

pub Quiet-refuse_if : (b : Bool) (text : String) → Leads Quiet (refuse_if b text)
Quiet-refuse_if true text s = Quiet-refl s
Quiet-refuse_if false text s = Quiet-refl s

answer_of-Quiet :
    (answers : List (Result Json)) (s : Session)
    → length answers ≤ length s.answers
    → Quiet s (answer_of answers s).1
answer_of-Quiet [] s h = Quiet-refl s
answer_of-Quiet (a ∷ rest) s h = record { fewer = omega (arith, h); kept = refl }

pub request-Quiet : (method : String) (params : Fields) → Leads Quiet (request method params)
unfolding request
request-Quiet method params s =
    let q =
      answer_of-Quiet s.answers (record s { sent = s.sent ++ (method, params) ∷ [] })
        (omega arith) in
    record { fewer = q.fewer; kept = q.kept }
