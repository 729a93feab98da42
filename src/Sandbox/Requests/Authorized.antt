-- ===== src/Sandbox/Requests/Authorized.antt =====
-- Home paths that pass the tests are among those that the policy allows.
use tgent.Prelude.{Bool, true, false, ◌≡◌, refl, ap, List, [], ◌∷◌, ◌++◌, any, arith, if◌then◌else◌}
use tgent.Result.{Result, ok, err, >>=-eq-ok, guard-eq-ok, sandbox_error}
use tgent.Paths.{FilePath, path_eq, path_mem, path_text, sort_by, insert_by}
use tgent.Paths.Equal.{path_eq→eq}
use tgent.Sandbox.Requests.{
  relative_home_path, relative_paths, add_path, difference, authorize, refuse_first,
}

mem-add_path :
    (p q : FilePath) (qs : List FilePath)
    → path_mem p (add_path q qs) ≡ true
    → (if path_eq q p then true else path_mem p qs) ≡ true
unfolding path_mem
mem-add_path p q qs m = ground arith

relative_home_path-eq-ok : (p : FilePath) {q : FilePath} → relative_home_path p ≡ ok q → p ≡ q
unfolding relative_home_path
relative_home_path-eq-ok p e = ground arith

pub mem-relative_paths :
    (p : FilePath) (ps : List FilePath) {qs : List FilePath}
    → relative_paths ps ≡ ok qs
    → path_mem p qs ≡ true
    → path_mem p ps ≡ true
unfolding relative_paths path_mem
mem-relative_paths p [] e m = rw (ap all_of e) m
  where
    all_of : Result (List FilePath) → Bool
    all_of (ok qs) = path_mem p qs
    all_of (err e) = false
mem-relative_paths p (q ∷ ps) e m =
    let (q', e1, e2) = >>=-eq-ok (relative_home_path q) _ e in
    let (qs, e3, e4) = >>=-eq-ok (relative_paths ps) _ e2 in
    ground (arith, relative_home_path-eq-ok q e1, mem-add_path p q' qs, mem-relative_paths p ps e3)

mem-difference :
    (p : FilePath) (ps qs : List FilePath)
    → difference ps qs ≡ []
    → path_mem p ps ≡ true
    → path_mem p qs ≡ true
unfolding difference path_mem
mem-difference p [] qs e m = cc
mem-difference p (x ∷ ps) qs e m = ground (arith, path_eq→eq x p, mem-difference p ps qs)

insert_by-refused :
    (p : FilePath) (ps : List FilePath) → refuse_first (insert_by path_text p ps) ≡ ok tt → ⊥
insert_by-refused p [] e = cc
insert_by-refused p (q ∷ ps) e = ground arith

sort-nil : (ps : List FilePath) → refuse_first (sort_by path_text ps) ≡ ok tt → ps ≡ []
unfolding sort_by
sort-nil [] e = refl
sort-nil (p ∷ ps) e = absurd (insert_by-refused p (sort_by path_text ps) e)

append-nil_parts : (ps qs : List FilePath) → ps ++ qs ≡ [] → (ps ≡ []) × (qs ≡ [])
append-nil_parts [] qs e = (refl, e)
append-nil_parts (p ∷ ps) qs e = cc

-- Each path that is requested is allowed with the same permission.
pub authorize-allowed :
    (ro rw allowed_ro allowed_rw : List FilePath)
    → authorize ro rw allowed_ro allowed_rw ≡ ok tt
    → (p : FilePath)
    → (path_mem p ro ≡ true → path_mem p allowed_ro ≡ true)
      × (path_mem p rw ≡ true → path_mem p allowed_rw ≡ true)
unfolding authorize
authorize-allowed ro rw allowed_ro allowed_rw e p =
    let (_, e1) =
      guard-eq-ok (any (λ p. path_mem p rw) ro)
        (sandbox_error "A home path cannot be requested with conflicting permissions")
        (refuse_first (sort_by path_text (difference ro allowed_ro ++ difference rw allowed_rw)))
        e in
    let (e2, e3) = append-nil_parts _ _ (sort-nil _ e1) in
    (mem-difference p ro allowed_ro e2, mem-difference p rw allowed_rw e3)
