-- ===== src/Acl/Closure.antt =====
-- The search through the roles ends, and finds exactly the roles that are reached, each once.
use libshv.Base.{
  ℕ, zero, suc, ◌+◌, ◌<◌, ◌≤◌, ◌≡◌, inl, inr, refl, sym, ap, ◌∙◌, true, false, ◌||◌, if◌then◌else◌,
  List, [], ◌∷◌, some, ◌++◌, Str, streq, streq_iff, streq_refl, arith, length, length-append,
  Bool-cases, append_assoc, append-nil,
}
use libshv.Base.Dict.{has}
use libshv.Acl.Flatten.{enqueue_all, flatten_loop, flatten}
use libshv.Acl.Queue.{has-append, IsDistinct, seen-enqueue_all, enqueue_all-IsDistinct}

-- A role that is given or that a reached role has.
pub data Reach (subs : Str → List Str) (roles : List Str) : Str → Type 0 where
  given : {r : Str} → has roles r ≡ true → Reach subs roles r
  sub : {u r : Str} → Reach subs roles u → has (subs u) r ≡ true → Reach subs roles r

-- Every role of `xs` is one of `ys`.
abbrev pub IsSubset : List Str → List Str → Type 0
IsSubset xs ys = (r : Str) → has xs r ≡ true → has ys r ≡ true

remove : Str → List Str → List Str
remove r [] = []
remove r (x ∷ xs) = let rest = remove r xs in if streq x r then xs else x ∷ rest

length-remove : (r : Str) (xs : List Str) → has xs r ≡ true → suc (length (remove r xs)) ≡ length xs
unfolding remove has
length-remove r [] h = cc
length-remove r (x ∷ xs) h = ground (arith, length-remove r xs)

has-remove :
    (r y : Str) (xs : List Str) → has xs y ≡ true → streq r y ≡ false → has (remove r xs) y ≡ true
unfolding remove has
has-remove r y [] h n = cc
has-remove r y (x ∷ xs) h n =
    ground (arith, has-remove r y xs, streq_iff x r, streq_iff x y, streq_iff r y)

length-le_of_IsSubset : (xs ys : List Str) → IsDistinct xs → IsSubset xs ys → length xs ≤ length ys
unfolding has
length-le_of_IsSubset [] ys d s = omega arith
length-le_of_IsSubset (x ∷ xs) ys d s =
    let here : has ys x ≡ true = s x (rw (streq_refl x)) in
    let rest : IsSubset xs (remove x ys) =
      λ y h. has-remove x y ys (s y (ground arith)) (ground (arith, streq_iff x y)) in
    omega (arith, length-remove x ys here, length-le_of_IsSubset xs (remove x ys) d.1 rest)

-- The roles that `flatten` answers.
pub record IsClosure (subs : Str → List Str) (roles found : List Str) : Type 0 where
  pub distinct : IsDistinct found
  pub sound : (r : Str) → has found r ≡ true → Reach subs roles r
  pub complete : (r : Str) → Reach subs roles r → has found r ≡ true

module _ (subs : Str → List Str) (roles known : List Str) where
  record Inv (done queue : List Str) : Type 0 where
    distinct : IsDistinct (done ++ queue)
    bounded : IsSubset (done ++ queue) known
    sound : (r : Str) → has (done ++ queue) r ≡ true → Reach subs roles r
    start : (r : Str) → has roles r ≡ true → has (done ++ queue) r ≡ true
    closed : (u v : Str) → has done u ≡ true → has (subs u) v ≡ true → has (done ++ queue) v ≡ true

  Inv-step :
      ((u v : Str) → has known u ≡ true → has (subs u) v ≡ true → has known v ≡ true)
      → (done queue : List Str) (cur : Str) → Inv done (cur ∷ queue)
      → Inv (done ++ (cur ∷ [])) (enqueue_all (done ++ (cur ∷ [])) queue (subs cur))
  unfolding has
  Inv-step within done queue cur h =
      let done' : List Str = done ++ (cur ∷ []) in
      let same : done' ++ queue ≡ done ++ (cur ∷ queue) = append_assoc done (cur ∷ []) queue in
      let seen : (x : Str)
          → has (done' ++ enqueue_all done' queue (subs cur)) x
            ≡ (has (done ++ (cur ∷ queue)) x || has (subs cur) x) =
        λ x.
          seen-enqueue_all done' queue (subs cur) x ∙ ap (λ t. has t x || has (subs cur) x) same in
      let at_cur : has (done ++ (cur ∷ queue)) cur ≡ true =
        ground (arith, has-append done (cur ∷ queue) cur, streq_refl cur) in
      record {
        distinct = enqueue_all-IsDistinct done' queue (subs cur) (rw same h.distinct);
        bounded = λ x e. ground (arith, seen x, h.bounded x, h.bounded cur, within cur x);
        sound = λ x e. elim (Bool-cases (has (done ++ (cur ∷ queue)) x)) [
          | inl y ↦ h.sound x y
          | inr n ↦ Reach.sub (h.sound cur at_cur) (ground (arith, seen x))
        ];
        start = λ x e. ground (arith, seen x, h.start x);
        closed = λ u v e k.
            ground (arith, seen v, h.closed u v, has-append done (cur ∷ []) u, streq_iff cur u);
      }

  Reach-found :
      (found : List Str) → Inv found [] → (r : Str) → Reach subs roles r → has found r ≡ true
  Reach-found found h r (given e) = rw (append-nil found) at (h.start r e)
  Reach-found found h r (sub {u} p e) =
      rw (append-nil found) at (h.closed u r (Reach-found found h u p) e)

  Inv-IsClosure : (found : List Str) → Inv found [] → IsClosure subs roles found
  Inv-IsClosure found h = record {
    distinct = rw (append-nil found) at h.distinct;
    sound = λ r e. h.sound r (rw (append-nil found) e);
    complete = Reach-found found h;
  }

  flatten_loop_lem :
      ((u v : Str) → has known u ≡ true → has (subs u) v ≡ true → has known v ≡ true)
      → (fuel : ℕ) (done queue : List Str) → Inv done queue
      → length known < fuel + length done
      → (found : List Str) × (flatten_loop subs fuel done queue ≡ some found)
        × IsClosure subs roles found
  unfolding flatten_loop
  flatten_loop_lem within zero done queue h lt = absurd (
      omega (
        arith,
        length-append done queue,
        length-le_of_IsSubset (done ++ queue) known h.distinct h.bounded,
      ))
  flatten_loop_lem within (suc fuel) done [] h lt = (done, refl, Inv-IsClosure done h)
  flatten_loop_lem within (suc fuel) done (cur ∷ queue) h lt =
      flatten_loop_lem within fuel (done ++ (cur ∷ [])) _ (Inv-step within done queue cur h)
        (omega (arith, length-append done (cur ∷ [])))

-- If the given roles and the roles of known roles are known, the search with more fuel than there
-- are known roles ends, and answers each role that is given or that a reached role has, no other
-- role, and none of them twice.
pub flatten-IsClosure :
    (subs : Str → List Str) (roles known : List Str) (fuel : ℕ)
    → IsSubset roles known
    → ((u v : Str) → has known u ≡ true → has (subs u) v ≡ true → has known v ≡ true)
    → length known < fuel
    → (found : List Str) × (flatten subs fuel roles ≡ some found) × IsClosure subs roles found
unfolding flatten has
flatten-IsClosure subs roles known fuel given_known within lt =
    let seen : (x : Str) → has (enqueue_all [] [] roles) x ≡ has roles x =
      λ x. seen-enqueue_all [] [] roles x in
    flatten_loop_lem subs roles known within fuel [] (enqueue_all [] [] roles)
      (record {
        distinct = enqueue_all-IsDistinct [] [] roles tt;
        bounded = λ x e. given_known x (sym (seen x) ∙ e);
        sound = λ x e. Reach.given (sym (seen x) ∙ e);
        start = λ x e. seen x ∙ e;
        closed = λ u v e k. cc;
      })
      (omega arith)
