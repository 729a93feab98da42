-- ===== src/Controller/Review/Resolved.antt =====
-- The agent that an operator's text stands for.
use tgent.Prelude.{
  String, Bool, true, false, ◌&&◌, ◌≡◌, refl, sym, ◌∙◌, ltb, len, all_chars, is_hex, List, [], ◌∷◌,
  arith, ◌==◌, eq_iff, if◌then◌else◌, ◌⊎◌, inl, inr,
}
use tgent.Result.{Result, ok, err, Error, store_error}
use tgent.Dict.{dict_keys}
use tgent.Store.Metadata.{Metadata}
use tgent.Store.Files.{Store, get_metadata, validate_agent_id, is_agent_id}
use tgent.Protocol.Ids.{mem_text}
use tgent.Controller.Review.{
  starts_lower, matches, the_match, or_by_prefix, resolve_valid, resolve_prefix, resolve_agent_id,
}

mem_text-matches :
    (prefix j : String) (ids : List String)
    → mem_text j (matches prefix ids) ≡ (starts_lower prefix j && mem_text j ids)
unfolding mem_text matches
mem_text-matches prefix j [] = ground arith
mem_text-matches prefix j (id ∷ ids) = ground (arith, eq_iff id j, mem_text-matches prefix j ids)

the_match-eq-ok :
    (prefix id : String) (ids : List String) → the_match prefix ids ≡ ok id → ids ≡ id ∷ []
the_match-eq-ok prefix id [] h = cc
the_match-eq-ok prefix id (j ∷ []) h = cc
the_match-eq-ok prefix id (j ∷ k ∷ ids) h = cc

-- The text is the id of an agent that is there, or the one agent whose id starts with the text, in
-- capital or small letters, is the one with this id.
abbrev pub StandsFor : String → String → Store → Type 0
StandsFor text id store =
    ((id ≡ text) × (m : Metadata) × (get_metadata text store ≡ ok m))
    ⊎ ((j : String) → (starts_lower text j && mem_text j (dict_keys store)) ≡ (id == j))

ok-injective : (a b : String) → ok a ≡ ok b → a ≡ b
ok-injective a b h = cc

allowed :
    (b : Bool) (r : Result String) (e : Error) (id : String)
    → (if b then r else err e) ≡ ok id
    → (b ≡ true) × (r ≡ ok id)
allowed true r e id h = (refl, h)
allowed false r e id h = cc

only : (id j : String) (ids : List String) → ids ≡ id ∷ [] → mem_text j ids ≡ (id == j)
unfolding mem_text
only id j ids e = rw e (ground arith)

prefix-StandsFor :
    (text id : String) (ids : List String)
    → resolve_prefix text ids ≡ ok id
    → (j : String) → (starts_lower text j && mem_text j ids) ≡ (id == j)
unfolding resolve_prefix
prefix-StandsFor text id ids h j =
    let (_, one) = allowed (ltb 0 (len text) && all_chars is_hex text) _ _ id h in
    sym (mem_text-matches text j ids)
    ∙ only id j (matches text ids) (the_match-eq-ok text id (matches text ids) one)

found-StandsFor :
    (text id : String) (store : Store) (r : Result Metadata)
    → get_metadata text store ≡ r
    → or_by_prefix text store r ≡ ok id
    → StandsFor text id store
found-StandsFor text id store (ok m) e h = inl (sym (ok-injective text id h), m, e)
found-StandsFor text id store (err e') e h = inr (prefix-StandsFor text id (dict_keys store) h)

valid-StandsFor :
    (b : Bool) (text id : String) (store : Store) (e : Error)
    → resolve_valid store (if b then ok text else err e) ≡ ok id
    → StandsFor text id store
valid-StandsFor true text id store e h =
    found-StandsFor text id store (get_metadata text store) refl h
valid-StandsFor false text id store e h = cc

-- What an operator's text is resolved to: the agent with this id, or else the only agent whose id
-- starts with the text, in capital or small letters.
pub resolve_agent_id-StandsFor :
    (text id : String) (store : Store)
    → resolve_agent_id text store ≡ ok id
    → StandsFor text id store
unfolding resolve_agent_id validate_agent_id
resolve_agent_id-StandsFor text id store h =
    valid-StandsFor (is_agent_id text) text id store (store_error "Invalid agent_id") h
