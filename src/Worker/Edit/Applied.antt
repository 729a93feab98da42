-- ===== src/Worker/Edit/Applied.antt =====
-- An edit is a sequence of replacements, each of the only match that there is.
use Prim.Native.Char.{Char, code}
use Prim.Native.String.{◌++◌ as text_append}
use Prim.Native.Nat.{compare, Ordering}
use text.Mathlib.TextEquality.{codes_equal}
use text.Mathlib.TextLemmas.{nil-append, cons-append}
use tgent.Prelude.{
  suc, ◌-◌, ◌≤◌, String, false, ◌≡◌, refl, ap, ◌∙◌, sym, Option, none, some, Option-cases, arith,
  len, drop_prefix, inl, inr, ◌==◌,
}
use tgent.Worker.Text.{count_from, replace_first, contains}

matched_head :
    (o : Ordering) {rest : String} (r : Option String)
    → (elim o as (λ _. Option String) [ Ordering.eq ↦ r | _ ↦ none ]) ≡ some rest
    → (o ≡ Ordering.eq) × (r ≡ some rest)
matched_head Ordering.eq r e = (refl, e)
matched_head Ordering.lt r e = cc
matched_head Ordering.gt r e = cc

drop_prefix-cons :
    (d c : Char) (p s : String) {rest : String}
    → drop_prefix (String.◌∷◌ d p) (String.◌∷◌ c s) ≡ some rest
    → (d ≡ c) × (drop_prefix p s ≡ some rest)
unfolding drop_prefix
drop_prefix-cons d c p s e =
    let (same, more) = matched_head (compare (code d) (code c)) (drop_prefix p s) e in
    (codes_equal d c same, more)

some_eq : {s t : String} → ◌≡◌ {A = Option String} (some s) (some t) → s ≡ t
some_eq e = cc

drop_prefix-some :
    (p s : String) {rest : String} → drop_prefix p s ≡ some rest → s ≡ text_append p rest
unfolding drop_prefix
drop_prefix-some String.[] s {rest} e = some_eq e ∙ sym (nil-append rest)
drop_prefix-some (String.◌∷◌ d p) String.[] e = cc
drop_prefix-some (String.◌∷◌ d p) (String.◌∷◌ c s) {rest} e =
    let (same, more) = drop_prefix-cons d c p s e in
    (λ i. String.◌∷◌ (sym same i) (drop_prefix-some p s more i)) ∙ sym (cons-append d p rest)

count_from-skip :
    (search p s : String) {rest : String}
    → drop_prefix p s ≡ some rest
    → count_from search (len p) s ≡ count_from search 0 rest
unfolding drop_prefix count_from len
count_from-skip search String.[] s e = ap (count_from search 0) (some_eq e)
count_from-skip search (String.◌∷◌ d p) String.[] e = cc
count_from-skip search (String.◌∷◌ d p) (String.◌∷◌ c s) e =
    count_from-skip search p s (drop_prefix-cons d c p s e).1

module _ (search : String) (c : Char) (s : String) where
  count_from-miss :
      drop_prefix search (String.◌∷◌ c s) ≡ none
      → count_from search 0 (String.◌∷◌ c s) ≡ count_from search 0 s
  unfolding count_from
  count_from-miss no_match = ground arith

  count_from-hit :
      {rest : String}
      → drop_prefix search (String.◌∷◌ c s) ≡ some rest
      → count_from search 0 (String.◌∷◌ c s) ≡ suc (count_from search (len search - 1) s)
  unfolding count_from
  count_from-hit matched = ground arith

  contains-miss :
      drop_prefix search (String.◌∷◌ c s) ≡ none
      → contains search (String.◌∷◌ c s) ≡ contains search s
  unfolding contains
  contains-miss no_match = ground arith

  replace-miss :
      (replace : String)
      → drop_prefix search (String.◌∷◌ c s) ≡ none
      → replace_first search replace (String.◌∷◌ c s)
        ≡ String.◌∷◌ c (replace_first search replace s)
  unfolding replace_first
  replace-miss replace no_match = ground arith

  replace-hit :
      (replace : String) {rest : String}
      → drop_prefix search (String.◌∷◌ c s) ≡ some rest
      → replace_first search replace (String.◌∷◌ c s) ≡ text_append replace rest
  unfolding replace_first
  replace-hit replace matched = ground arith

count-zero : (search s : String) → count_from search 0 s ≡ 0 → contains search s ≡ false
unfolding count_from contains
count-zero search String.[] e = refl
count-zero search (String.◌∷◌ c s) e = elim (Option-cases (drop_prefix search (String.◌∷◌ c s))) [
  | inl no_match ↦
      contains-miss search c s no_match
      ∙ count-zero search s (sym (count_from-miss search c s no_match) ∙ e)
  | inr (rest, matched) ↦ absurd (omega (arith, count_from-hit search c s matched))
]

-- The text is `before`, the match and `after`: no match starts in front of it, one that overlaps it
-- included, and nothing matches in `after`.
pub record IsReplaced (search replace text result : String) : Type 0 where
  pub before : String
  pub after : String
  pub found : text ≡ text_append before (text_append search after)
  pub first :
      (before' after' : String)
      → text ≡ text_append before' (text_append search after')
      → len before ≤ len before'
  pub only : contains search after ≡ false
  pub replaced : result ≡ text_append before (text_append replace after)

drop_prefix-append : (p s : String) → drop_prefix p (text_append p s) ≡ some s
unfolding drop_prefix
drop_prefix-append String.[] s = ap some (nil-append s)
drop_prefix-append (String.◌∷◌ d p) s =
    ap (drop_prefix (String.◌∷◌ d p)) (cons-append d p s) ∙ ground (arith, drop_prefix-append p s)

-- What is counted behind a match that is not empty.
count_from-matched :
    (search : String) (c : Char) (s : String) {rest : String}
    → (search == "") ≡ false
    → drop_prefix search (String.◌∷◌ c s) ≡ some rest
    → count_from search (len search - 1) s ≡ count_from search 0 rest
unfolding len
count_from-matched String.[] c s nonempty matched = cc
count_from-matched (String.◌∷◌ d p) c s nonempty matched =
    ap (λ k. count_from (String.◌∷◌ d p) k s) {x = suc (len p) - 1} {y = len p} (omega arith)
    ∙ count_from-skip (String.◌∷◌ d p) p s (drop_prefix-cons d c p s matched).1

-- Where nothing matches at the first character, the first match stands behind it.
first_behind :
    (search : String) (c : Char) (s : String)
    → drop_prefix search (String.◌∷◌ c s) ≡ none
    → (before : String)
    → ((before' after' : String)
        → s ≡ text_append before' (text_append search after')
        → len before ≤ len before')
    → (before' after' : String) → String.◌∷◌ c s ≡ text_append before' (text_append search after')
    → len (String.◌∷◌ c before) ≤ len before'
unfolding len
first_behind search c s no_match before first String.[] after' e =
    let here : drop_prefix search (String.◌∷◌ c s) ≡ some after' =
      ap (drop_prefix search) (e ∙ nil-append (text_append search after'))
      ∙ drop_prefix-append search after' in
    cc
first_behind search c s no_match before first (String.◌∷◌ d before') after' e =
    let e' = e ∙ cons-append d before' (text_append search after') in
    let same : s ≡ text_append before' (text_append search after') = cc in
    omega (arith, first before' after' same)

pub replace_first-IsReplaced :
    (search replace text : String)
    → (search == "") ≡ false
    → count_from search 0 text ≡ 1
    → IsReplaced search replace text (replace_first search replace text)
unfolding count_from replace_first len
replace_first-IsReplaced search replace String.[] nonempty e = cc
replace_first-IsReplaced search replace (String.◌∷◌ c s) nonempty e =
    elim (Option-cases (drop_prefix search (String.◌∷◌ c s))) [
      | inl no_match ↦
          let r =
            replace_first-IsReplaced search replace s nonempty
              (sym (count_from-miss search c s no_match) ∙ e) in
          record {
            first = first_behind search c s no_match r.before r.first;
            before = String.◌∷◌ c r.before;
            after = r.after;
            found =
                (λ i. String.◌∷◌ c (r.found i))
                ∙ sym (cons-append c r.before (text_append search r.after));
            only = r.only;
            replaced =
                replace-miss search c s replace no_match
                ∙ (λ i. String.◌∷◌ c (r.replaced i))
                ∙ sym (cons-append c r.before (text_append replace r.after));
          }
      | inr (rest, matched) ↦ record {
        before = "";
        first = λ before' after' e'. omega arith;
        after = rest;
        found = drop_prefix-some search (String.◌∷◌ c s) matched ∙ sym (nil-append _);
        only = count-zero search rest (
            omega (
              arith,
              count_from-hit search c s matched,
              count_from-matched search c s nonempty matched,
            ));
        replaced = replace-hit search c s replace matched ∙ sym (nil-append _);
      }
    ]
