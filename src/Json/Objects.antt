-- ===== src/Json/Objects.antt =====
-- JSON values, and what a `dict` and a `list` of them do.
use tgent.Prelude.{
  ℕ, String, ◌≡◌, refl, Option, none, some, List, [], ◌∷◌, Bool, arith, eq_iff, ◌==◌, if◌then◌else◌,
}
use tgent.Json.Int.{ℤ}

mutual
  pub data Json : Type 0 where
    null : Json
    bool : Bool → Json
    int : ℤ → Json
    float : ℕ → Json
    str : String → Json
    arr : Items → Json
    obj : Fields → Json

  pub data Items : Type 0 where
    nil : Items
    cons : Json → Items → Items

  pub data Fields : Type 0 where
    end : Fields
    field : String → Json → Fields → Fields

-- `d.get(k)`, with `none` for a missing key
unfoldable pub get : String → Fields → Option Json
get k end = none
get k (field j v fs) = if j == k then some v else get k fs

-- `d.get(k)` where the program does not tell a missing key from `None`
unfoldable pub get_value : String → Fields → Json
unfolding get
get_value k fs = elim (get k fs) [ none ↦ null | some v ↦ v ]

-- `d[k] = v`: an old key keeps its place
unfoldable pub put : String → Json → Fields → Fields
put k v end = field k v end
put k v (field j w fs) = if j == k then field j v fs else field j w (put k v fs)

-- `d.update(e)`
unfoldable pub update : Fields → Fields → Fields
unfolding put
update fs end = fs
update fs (field k v es) = update (put k v fs) es

-- `set(d)`, as the list of its keys
unfoldable pub keys : Fields → List String
keys end = []
keys (field k v fs) = k ∷ keys fs

unfoldable pub to_list : Items → List Json
to_list nil = []
to_list (cons x xs) = x ∷ to_list xs

unfoldable pub of_list : List Json → Items
of_list [] = nil
of_list (x ∷ xs) = cons x (of_list xs)

pub to_list-of_list : (xs : List Json) → to_list (of_list xs) ≡ xs
unfolding to_list of_list
to_list-of_list [] = refl
to_list-of_list (x ∷ xs) = λ i. x ∷ to_list-of_list xs i

-- A key that is written is found, and every other key is as it was.
pub get-put :
    (k j : String) (v : Json) (fs : Fields)
    → get j (put k v fs) ≡ (if k == j then some v else get j fs)
unfolding get put
get-put k j v end = refl
get-put k j v (field i w fs) = ground (arith, eq_iff k j, eq_iff i k, eq_iff i j, get-put k j v fs)
