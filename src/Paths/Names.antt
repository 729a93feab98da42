-- ===== src/Paths/Names.antt =====
-- The texts that a path is made of, and the order of texts.
use Prim.Native.Char.{code}
use Prim.Native.String.{◌++◌ as text_append}
use Prim.Native.Nat.{compare, Ordering}
use tgent.Prelude.{
  ℕ, String, Bool, true, false, ◌&&◌, Option, none, some, List, [], ◌∷◌, nat_eq, ◌==◌,
  if◌then◌else◌,
}

abbrev onto_first : String → List String → List String
onto_first c [] = c ∷ []
onto_first c (w ∷ ws) = text_append c w ∷ ws

-- `text.split(separator)` for one character
unfoldable pub split_on : ℕ → String → List String
split_on separator String.[] = "" ∷ []
split_on separator (String.◌∷◌ c s) =
    let rest = split_on separator s in
    if nat_eq (code c) separator then "" ∷ rest else onto_first (String.◌∷◌ c String.[]) rest

-- `separator.join(texts)`
unfoldable pub join_texts : String → List String → String
join_texts separator [] = ""
join_texts separator (t ∷ ts) = elim ts [
  | [] ↦ t
  | _ ∷ _ ↦ text_append t (text_append separator (join_texts separator ts))
]

-- the components that `Path` keeps: empty ones and `.` are dropped
unfoldable pub kept : List String → List String
kept [] = []
kept (t ∷ ts) = let rest = kept ts in if t == "" then rest else if t == "." then rest else t ∷ rest

unfoldable pub components : String → List String
unfolding split_on kept
components text = kept (split_on b'/' text)

abbrev starts_slash : String → Bool
starts_slash String.[] = false
starts_slash (String.◌∷◌ c s) = nat_eq (code c) b'/'

-- exactly two leading slashes are an anchor of their own
abbrev after_slash : String → String
after_slash String.[] = "/"
after_slash (String.◌∷◌ c s) =
    if nat_eq (code c) b'/' then (if starts_slash s then "/" else "//") else "/"

unfoldable pub anchor_of : String → String
anchor_of String.[] = ""
anchor_of (String.◌∷◌ c s) = if nat_eq (code c) b'/' then after_slash s else ""

unfoldable pub texts_eq : List String → List String → Bool
texts_eq [] [] = true
texts_eq (x ∷ xs) (y ∷ ys) = x == y && texts_eq xs ys
texts_eq _ _ = false

-- what follows the first list, if the second starts with it
unfoldable pub strip_parts : List String → List String → Option (List String)
strip_parts [] xs = some xs
strip_parts (p ∷ ps) [] = none
strip_parts (p ∷ ps) (x ∷ xs) = let rest = strip_parts ps xs in if p == x then rest else none

abbrev pub without_last : List String → List String
without_last [] = []
without_last (x ∷ xs) = elim xs [ [] ↦ [] | _ ∷ _ ↦ x ∷ without_last xs ]

abbrev pub last_or : String → List String → String
last_or d [] = d
last_or d (x ∷ xs) = last_or x xs

-- `s <= t` for texts, by code points
unfoldable pub text_leb : String → String → Bool
text_leb String.[] t = true
text_leb (String.◌∷◌ c s) String.[] = false
text_leb (String.◌∷◌ c s) (String.◌∷◌ d t) =
    let rest = text_leb s t in
    elim (compare (code c) (code d)) [
      | Ordering.lt ↦ true
      | Ordering.eq ↦ rest
      | Ordering.gt ↦ false
    ]

module _ {ℓ} {A : Type ℓ} where
  abbrev pub insert_by : (A → String) → A → List A → List A
  insert_by key x [] = x ∷ []
  insert_by key x (y ∷ ys) =
      let rest = insert_by key x ys in if text_leb (key x) (key y) then x ∷ y ∷ ys else y ∷ rest

  -- `sorted(xs, key=key)`
  unfoldable pub sort_by : (A → String) → List A → List A
  unfolding text_leb
  sort_by key [] = []
  sort_by key (x ∷ xs) = insert_by key x (sort_by key xs)
