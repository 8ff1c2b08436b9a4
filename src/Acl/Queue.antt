-- ===== src/Acl/Queue.antt =====
-- What enqueuing roles does to the roles that were seen: those flattened and those in the queue.
use libshv.Base.{
  ◌≡◌, inl, inr, refl, sym, ap, ◌∙◌, true, false, ◌||◌, List, [], ◌∷◌, ◌++◌, Str, streq, streq_iff,
  arith, Bool-cases, append_assoc,
}
use libshv.Base.Dict.{has}
use libshv.Acl.Flatten.{enqueue, enqueue_all}

pub has-append : (xs ys : List Str) (r : Str) → has (xs ++ ys) r ≡ (has xs r || has ys r)
unfolding has
has-append [] ys r = refl
has-append (x ∷ xs) ys r = ground (arith, has-append xs ys r)

-- No role twice.
abbrev pub IsDistinct : List Str → Type 0
IsDistinct [] = Unit {0}
IsDistinct (x ∷ xs) = (has xs x ≡ false) × IsDistinct xs

pub append_one-IsDistinct :
    (xs : List Str) (r : Str) → IsDistinct xs → has xs r ≡ false → IsDistinct (xs ++ (r ∷ []))
unfolding has
append_one-IsDistinct [] r d h = (refl, tt)
append_one-IsDistinct (x ∷ xs) r d h = (
  ground (arith, has-append xs (r ∷ []) x, streq_iff x r, streq_iff r x),
  append_one-IsDistinct xs r d.1 (ground arith),
)

module _ (done : List Str) where
  seen-enqueue :
      (queue : List Str) (r x : Str)
      → has (done ++ enqueue done queue r) x ≡ (has (done ++ queue) x || streq r x)
  unfolding enqueue has
  seen-enqueue queue r x = elim (Bool-cases (has done r || has queue r)) [
    | inr e ↦ rw e (
        ap (λ t. has t x) (sym (append_assoc done queue (r ∷ [])))
        ∙ ground (arith, has-append (done ++ queue) (r ∷ []) x))
    | inl e ↦ rw e (elim (Bool-cases (streq r x)) [
      | inr n ↦ ground arith
      | inl y ↦
          let known : has (done ++ queue) x ≡ true =
            rw (← (streq_iff r x).0 y) (has-append done queue r ∙ e) in
          ground arith
    ])
  ]

  pub seen-enqueue_all :
      (queue roles : List Str) (x : Str)
      → has (done ++ enqueue_all done queue roles) x ≡ (has (done ++ queue) x || has roles x)
  unfolding enqueue_all has
  seen-enqueue_all queue [] x = ground arith
  seen-enqueue_all queue (r ∷ roles) x =
      ground (arith, seen-enqueue_all (enqueue done queue r) roles x, seen-enqueue queue r x)

  enqueue-IsDistinct :
      (queue : List Str) (r : Str)
      → IsDistinct (done ++ queue)
      → IsDistinct (done ++ enqueue done queue r)
  unfolding enqueue
  enqueue-IsDistinct queue r d = elim (Bool-cases (has done r || has queue r)) [
    | inl e ↦ rw e d
    | inr e ↦
        rw (e, ← append_assoc done queue (r ∷ []))
          (append_one-IsDistinct (done ++ queue) r d (has-append done queue r ∙ e))
  ]

  pub enqueue_all-IsDistinct :
      (queue roles : List Str)
      → IsDistinct (done ++ queue)
      → IsDistinct (done ++ enqueue_all done queue roles)
  unfolding enqueue_all
  enqueue_all-IsDistinct queue [] d = d
  enqueue_all-IsDistinct queue (r ∷ roles) d =
      enqueue_all-IsDistinct (enqueue done queue r) roles (enqueue-IsDistinct queue r d)
