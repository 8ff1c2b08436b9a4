-- ===== src/Acl/Lookup.antt =====
-- The lazy lookup that the getters of `AclManager` (libshvbroker/src/aclmanager.cpp) share: an
-- empty cache is filled with the known names, and an entry that is not valid is loaded.
use libshv.Base.{
  ◌≡◌, ◌⊎◌, inl, inr, refl, ◌∙◌, Bool, true, false, if◌then◌else◌, Option, none, some, List, [],
  ◌∷◌, Str, streq, streq_iff, is_nil, arith, Bool-cases, Option-cases,
}
use libshv.Base.Dict.{
  Dict, has, is_some, find, insert, emplace, find-insert, find-emplace_known, find-emplace_new,
}

module _ {ℓ} {V : Type ℓ} (names : List Str) (blank : V) (is_loaded : V → Bool)
    (load : Str → V) where
  unfoldable pub fill : List Str → Dict V → Dict V
  fill [] d = d
  fill (k ∷ ks) d = fill ks (emplace k blank d)

  abbrev pub filled : Dict V → Dict V
  filled d = if is_nil d then fill names [] else d

  abbrev at_entry : Str → Dict V → Option V → Option V × Dict V
  at_entry name d none = (none, d)
  at_entry name d (some v) =
      if is_loaded v then (some v, d) else (some (load name), insert name (load name) d)

  unfoldable pub look_up : Str → Dict V → Option V × Dict V
  look_up name d = at_entry name (filled d) (find name (filled d))

  -- The entries of the cache are the known names, and the loaded ones hold what is loaded.
  pub record IsFilled (d : Dict V) : Type ℓ where
    pub keys : (k : Str) → is_some (find k d) ≡ has names k
    pub entries : (k : Str) (v : V) → find k d ≡ some v → is_loaded v ≡ true → v ≡ load k

  abbrev pub IsCoherent : Dict V → Type ℓ
  IsCoherent d = (d ≡ []) ⊎ IsFilled d

  -- What a lookup answers without a cache.
  abbrev pub uncached : Str → Option V
  uncached name = if has names name then some (load name) else none

  emplace-blank :
      (j : Str) (d : Dict V)
      → ((k : Str) (v : V) → find k d ≡ some v → v ≡ blank)
      → (k : Str) (v : V) → find k (emplace j blank d) ≡ some v
      → v ≡ blank
  emplace-blank j d h k v e = elim (Option-cases (find k d)) [
    | inl n ↦ ground (arith, find-emplace_new k j blank d n)
    | inr (w, n) ↦ ground (arith, find-emplace_known k j blank w d n, h k w n)
  ]

  emplace-keys :
      (j : Str) (d : Dict V) (k : Str)
      → is_some (find k (emplace j blank d)) ≡ (if is_some (find k d) then true else streq j k)
  emplace-keys j d k = elim (Option-cases (find k d)) [
    | inl n ↦
        rw (n, find-emplace_new k j blank d n)
          (elim (Bool-cases (streq j k)) [ inl e ↦ rw e refl | inr e ↦ rw e refl ])
    | inr (w, n) ↦ rw (n, find-emplace_known k j blank w d n) refl
  ]

  fill-blank :
      (ks : List Str) (d : Dict V)
      → ((k : Str) (v : V) → find k d ≡ some v → v ≡ blank)
      → (k : Str) (v : V) → find k (fill ks d) ≡ some v
      → v ≡ blank
  unfolding fill
  fill-blank [] d h k v e = h k v e
  fill-blank (j ∷ ks) d h k v e = fill-blank ks (emplace j blank d) (emplace-blank j d h) k v e

  fill-keys :
      (ks : List Str) (d : Dict V) (k : Str)
      → is_some (find k (fill ks d)) ≡ (if is_some (find k d) then true else has ks k)
  unfolding fill has
  fill-keys [] d k = elim (Bool-cases (is_some (find k d))) [
    | inl e ↦ rw e refl
    | inr e ↦ rw e refl
  ]
  fill-keys (j ∷ ks) d k =
      fill-keys ks (emplace j blank d) k
      ∙ rw (emplace-keys j d k) (elim (Bool-cases (is_some (find k d))) [
        | inl e ↦ rw e refl
        | inr e ↦ rw e (elim (Bool-cases (streq j k)) [ inl f ↦ rw f refl | inr f ↦ rw f refl ])
      ])

  fill-IsFilled : is_loaded blank ≡ false → IsFilled (fill names [])
  unfolding find
  fill-IsFilled off = record {
    keys = λ k. fill-keys names [] k;
    entries = λ k v f l. cc (fill-blank names [] (λ i w g. cc) k v f);
  }

  filled-IsFilled : is_loaded blank ≡ false → (d : Dict V) → IsCoherent d → IsFilled (filled d)
  filled-IsFilled off d (inl e) = rw e (fill-IsFilled off)
  filled-IsFilled off [] (inr h) = fill-IsFilled off
  filled-IsFilled off (x ∷ d) (inr h) = h

  insert-IsFilled :
      (d : Dict V) (name : Str) (v : V)
      → IsFilled d
      → find name d ≡ some v
      → IsFilled (insert name (load name) d)
  insert-IsFilled d name v h e = record {
    keys = λ k. rw (find-insert k name (load name) d) (elim (Bool-cases (streq name k)) [
      | inl y ↦ rw y (ground (arith, h.keys name, streq_iff name k))
      | inr n ↦ rw n (h.keys k)
    ]);
    entries = λ k w f l. elim (Bool-cases (streq name k)) [
      | inl y ↦ ground (arith, find-insert k name (load name) d, streq_iff name k)
      | inr n ↦ h.entries k w (ground (arith, find-insert k name (load name) d)) l
    ];
  }

  pub look_up_lem :
      is_loaded blank ≡ false
      → (name : Str) (d : Dict V) → IsCoherent d
      → ((look_up name d).0 ≡ uncached name) × IsCoherent (look_up name d).1
  unfolding look_up
  look_up_lem off name d h =
      let f = filled-IsFilled off d h in
      elim (Option-cases (find name (filled d))) [
        | inl n ↦ rw n (ground (arith, f.keys name), inr f)
        | inr (v, n) ↦ elim (Bool-cases (is_loaded v)) [
          | inl l ↦ rw (n, l) (rw (f.entries name v n l) (ground (arith, f.keys name)), inr f)
          | inr l ↦
              rw (n, l) (ground (arith, f.keys name), inr (insert-IsFilled (filled d) name v f n))
        ]
      ]
