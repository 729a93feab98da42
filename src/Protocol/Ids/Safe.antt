-- ===== src/Protocol/Ids/Safe.antt =====
-- What an accepted identifier looks like: it is one path component, and no special one.
use tgent.Prelude.{
  ℕ, ◌≤◌, String, true, false, ◌≡◌, refl, ◌≢◌, and-true, leb→le, nat_eq, ap, eq_iff, len, any_char,
  head_char, all-not-any, List, [], ◌∷◌, arith, is_alnum,
}
use tgent.Result.{ok}
use tgent.Json.{Json, str}
use tgent.Protocol.Ids.{is_id_char, is_valid_id, validate_id, mem_text, subset_text, same_set}

-- A text that names an entry of a directory: no separator in it, and not `.` or `..`.
pub record IsSafeName (s : String) : Type 0 where
  pub no_slash : any_char (λ c. nat_eq c b'/') s ≡ false
  pub not_empty : s ≢ ""
  pub not_here : s ≢ "."
  pub not_parent : s ≢ ".."
  pub short : len s ≤ 128

id_char-not-slash : (c : ℕ) → is_id_char c ≡ true → nat_eq c b'/' ≡ false
unfolding is_id_char is_alnum
id_char-not-slash c h = ground arith

start-ne : (s t : String) → head_char is_alnum s ≡ true → head_char is_alnum t ≡ false → s ≢ t
start-ne s t h g e = cc (ap (head_char is_alnum) e)

-- An accepted identifier is the name of one entry of a directory: it has at most 128 characters and
-- no slash, and it is not empty, `.` or `..`.
pub is_valid_id-IsSafeName : (s : String) → is_valid_id s ≡ true → IsSafeName s
unfolding is_valid_id head_char is_alnum
is_valid_id-IsSafeName s h =
    let (_, h1) = and-true _ _ h in
    let (short, h2) = and-true _ _ h1 in
    let (start, chars) = and-true _ _ h2 in
    record {
      no_slash = all-not-any is_id_char (λ c. nat_eq c b'/') s id_char-not-slash chars;
      not_empty = start-ne s "" start refl;
      not_here = start-ne s "." start refl;
      not_parent = start-ne s ".." start refl;
      short = leb→le _ _ short;
    }

-- An identifier that `_validate_id` lets through is a text that passes the four tests.
pub validate_id-eq-ok :
    (v : Json) (name : String) {s : String}
    → validate_id v name ≡ ok s
    → (v ≡ str s) × (is_valid_id s ≡ true)
unfolding validate_id
validate_id-eq-ok (str t) name h = ground arith
validate_id-eq-ok _ name h = cc

-- Equal sets have the same members.
mem-subset :
    (k : String) (xs ys : List String)
    → subset_text xs ys ≡ true
    → mem_text k xs ≡ true
    → mem_text k ys ≡ true
unfolding subset_text mem_text
mem-subset k [] ys s m = cc
mem-subset k (x ∷ xs) ys s m = ground (arith, eq_iff x k, mem-subset k xs ys)

pub same_set-mem :
    (k : String) (xs ys : List String) → same_set xs ys ≡ true → mem_text k xs ≡ mem_text k ys
unfolding same_set
same_set-mem k xs ys h = ground (arith, mem-subset k xs ys, mem-subset k ys xs)
