-- ===== src/Gossip/Mempool/Observe.antt =====
-- What `observe` yields and leaves: Mempool.ts.
use mathlib.Core.Option
use mathlib.Core.Path.{fun_ext, subst}
use canvas.Base.{
  Bool, true, false, ◌≡◌, refl, sym, ap, ◌∙◌, arith, Option, none, some, List, [], ◌∷◌, Str, ok,
  inl, inr, Bool-cases, Option-cases, if◌then◌else◌, bytes_eq, bytes_eq_iff, bytes_eq_self,
}
use canvas.Base.Maps.{
  lookup, put, remove, delete, has, Distinct, lookup-put, lookup-remove, has-delete, delete_absent,
}
use canvas.Gossip.Mempool.{Mempool, settle, release, release_all, observe, yielded}
use canvas.Gossip.Mempool.Laws.{or_empty, parents, children, Agrees, IsConsistent}

abbrev pub is_empty {ℓ} : {A : Type ℓ} → List A → Bool
is_empty [] = true
is_empty (x ∷ s) = false

-- The waiting children while `id` is observed: `left` of its children are still to be visited.
abbrev link : Str → List Str → (Str → List Str) → Str → List Str
link id left kids p = if bytes_eq id p then left else kids p

module _ {ℓ} {T : Type ℓ} where
  -- A message is ready when `id` was all it waited for.
  abbrev pub ready : Str → Mempool T → Str → Option (Str × T)
  ready id m c =
      if is_empty (delete id (parents m c))
      then Option.map (λ v. (c, v)) (lookup c m.values)
      else none

  unfoldable pub ready_all : Str → Mempool T → List Str → List (Str × T)
  ready_all id m [] = []
  ready_all id m (c ∷ cs) = yielded (ready id m c) (ready_all id m cs)

  -- What one visit of a child does to the relation.
  record Released (id c : Str) (cs : List Str) (kids : Str → List Str) (m m' : Mempool T)
      : Type ℓ where
    agrees : Agrees (link id cs kids) m'
    parents_after :
        (d : Str) → parents m' d ≡ (if bytes_eq c d then delete id (parents m c) else parents m d)
    values_after : (d : Str) → bytes_eq c d ≡ false → lookup d m'.values ≡ lookup d m.values
    waiting_after : m'.waiting_children ≡ m.waiting_children

  module _ (id c : Str) (cs : List Str) (kids : Str → List Str) (m : Mempool T)
      (k : Agrees (link id (c ∷ cs) kids) m) where
    is_waiting : has id (parents m c) ≡ true
    unfolding has
    is_waiting = sym (k.agree id c) ∙ rw (bytes_eq_self id) (rw (bytes_eq_self c) refl)

    tracked : (s : List Str) × (lookup c m.missing_parents ≡ some s)
    unfolding has
    tracked = elim (Option-cases (lookup c m.missing_parents)) [
      | inl e ↦ absurd (ground (arith, is_waiting))
      | inr found ↦ found
    ]

    has_value : (v : T) × (lookup c m.values ≡ some v)
    has_value = elim (Option-cases (lookup c m.values)) [
      | inl e ↦ absurd (ground (arith, k.valued c, tracked.1))
      | inr found ↦ found
    ]

    fresh : (has c cs ≡ false) × Distinct cs
    fresh = rw (bytes_eq_self id) at (k.distinct id)

    link_agree :
        (p d : Str)
        → has d (link id cs kids p)
          ≡ has p (if bytes_eq c d then delete id (parents m c) else parents m d)
    unfolding has
    link_agree p d = ground (
      arith,
      k.agree p d,
      fresh.0,
      has-delete id p (parents m c),
      bytes_eq_iff c d,
      bytes_eq_iff id p,
    )

    link-Distinct : (p : Str) → Distinct (link id cs kids p)
    link-Distinct p = elim (Bool-cases (bytes_eq id p)) [
      | inl e ↦ rw e fresh.1
      | inr e ↦ rw e (rw e at (k.distinct p))
    ]

    keeps_waiting :
        (left : List Str) (q : Str)
        → delete id (parents m c) ≡ q ∷ left
        → Released id c cs kids m
            (record m { missing_parents = put c (q ∷ left) m.missing_parents })
    keeps_waiting left q e = record {
      agrees = record {
        agree = λ p d. link_agree p d ∙ ap (has p) (sym (after d));
        valued = λ d.
            rw (lookup-put c d (q ∷ left) m.missing_parents)
              (ground (arith, k.valued d, has_value.1, bytes_eq_iff c d));
        distinct = link-Distinct;
        waits = λ d h.
            let h' = sym (lookup-put c d (q ∷ left) m.missing_parents) ∙ h in
            ground (arith, k.waits d);
      };
      parents_after = after;
      values_after = λ d h. refl;
      waiting_after = refl;
    }
      where
        after :
            (d : Str)
            → or_empty (lookup d (put c (q ∷ left) m.missing_parents))
              ≡ (if bytes_eq c d then delete id (parents m c) else parents m d)
        after d = rw (lookup-put c d (q ∷ left) m.missing_parents) (ground arith)

    settle-Released :
        delete id (parents m c) ≡ []
        → Released id c cs kids m
            (record m { values = remove c m.values; missing_parents = remove c m.missing_parents })
    settle-Released e = record {
      agrees = record {
        agree = λ p d. link_agree p d ∙ ap (has p) (sym (after d));
        valued = λ d.
            rw (lookup-remove c d m.missing_parents, lookup-remove c d m.values)
              (ground (arith, k.valued d));
        distinct = link-Distinct;
        waits = λ d h.
            let h' = sym (lookup-remove c d m.missing_parents) ∙ h in ground (arith, k.waits d);
      };
      parents_after = after;
      values_after = λ d h. lookup-remove c d m.values ∙ rw h;
      waiting_after = refl;
    }
      where
        after :
            (d : Str)
            → or_empty (lookup d (remove c m.missing_parents))
              ≡ (if bytes_eq c d then delete id (parents m c) else parents m d)
        after d = rw (lookup-remove c d m.missing_parents) (ground arith)

    release-settle : (s : List Str) → delete id (parents m c) ≡ s → release id c m ≡ settle c s m
    unfolding release
    release-settle s e =
        rw (tracked.1, release)
          (ap (λ t. settle c t m) (ap (delete id) (ap or_empty (sym tracked.1)) ∙ e))

    release_split :
        (s : List Str)
        → delete id (parents m c) ≡ s
        → (m' : Mempool T) × (release id c m ≡ ok (ready id m c, m')) × Released id c cs kids m m'
    unfolding settle
    release_split [] e = (
      record m { values = remove c m.values; missing_parents = remove c m.missing_parents },
      release-settle [] e ∙ rw (e, has_value.1, settle) refl,
      settle-Released e,
    )
    release_split (q ∷ left) e = (
      record m { missing_parents = put c (q ∷ left) m.missing_parents },
      release-settle (q ∷ left) e ∙ rw e refl,
      keeps_waiting left q e,
    )

    -- A visit never throws.
    release_lem :
        (m' : Mempool T) × (release id c m ≡ ok (ready id m c, m')) × Released id c cs kids m m'
    release_lem = release_split _ refl

  -- What is ready does not depend on the visits to other children.
  ready_all-eq :
      (id : Str) (cs : List Str) (m m' : Mempool T)
      → ((d : Str) → has d cs ≡ true → parents m' d ≡ parents m d)
      → ((d : Str) → has d cs ≡ true → lookup d m'.values ≡ lookup d m.values)
      → ready_all id m' cs ≡ ready_all id m cs
  unfolding ready_all has
  ready_all-eq id [] m m' h k = refl
  ready_all-eq id (c ∷ cs) m m' h k = rw (
    h c (ground (arith, bytes_eq_self c)),
    k c (ground (arith, bytes_eq_self c)),
    ready_all-eq id cs m m' (λ d e. h d (ground arith)) (λ d e. k d (ground arith)),
  )

  release_all_lem :
      (id : Str) (cs : List Str) (kids : Str → List Str) (m : Mempool T)
      → Agrees (link id cs kids) m
      → (m' : Mempool T) × (release_all id cs m ≡ ok (ready_all id m cs, m'))
        × Agrees (link id [] kids) m'
        × ((d : Str) → parents m' d ≡ (if has d cs then delete id (parents m d) else parents m d))
        × (m'.waiting_children ≡ m.waiting_children)
  unfolding release_all ready_all has
  release_all_lem id [] kids m k = (m, refl, k, (λ d. refl), refl)
  release_all_lem id (c ∷ cs) kids m k =
      let (m1, e, r) = release_lem id c cs kids m k in
      let (m2, e', k', after, same) = release_all_lem id cs kids m1 r.agrees in
      let f = fresh id c cs kids m k in
      (
        m2,
        rw (e, e')
            (ap (λ out. ok (yielded (ready id m c) out, m2))
              (ready_all-eq id cs m m1
                (λ d h. ground (arith, r.parents_after d, bytes_eq_iff c d, f.0))
                (λ d h. r.values_after d (ground (arith, bytes_eq_iff c d, f.0))))),
        k',
        (λ d. ground (arith, after d, r.parents_after d, f.0, bytes_eq_iff c d)),
        same ∙ r.waiting_after,
      )

  Agrees-eq :
      (kids kids' : Str → List Str) {m : Mempool T}
      → ((p : Str) → kids p ≡ kids' p)
      → Agrees kids m
      → Agrees kids' m
  Agrees-eq kids kids' {m} h k = subst (λ f. Agrees f m) (fun_ext h) k

  children_removed :
      (id p : Str) (m : Mempool T)
      → or_empty (lookup p (remove id m.waiting_children)) ≡ link id [] (children m) p
  children_removed id p m = rw (lookup-remove id p m.waiting_children) (ground arith)

  link_self :
      (id : Str) (m : Mempool T) (p : Str) → children m p ≡ link id (children m id) (children m) p
  link_self id m p = ground (arith, bytes_eq_iff id p)

  observe-none :
      (id : Str) (m : Mempool T) → lookup id m.waiting_children ≡ none → observe id m ≡ ok ([], m)
  unfolding observe
  observe-none id m e = rw (e, observe)

  observe-some :
      (id : Str) (m : Mempool T) {cs : List Str}
      → lookup id m.waiting_children ≡ some cs
      → observe id m
        ≡ release_all id cs (record m { waiting_children = remove id m.waiting_children })
  unfolding observe
  observe-some id m e = rw (e, observe)

  ready_all-nil : (id : Str) (m : Mempool T) {cs : List Str} → cs ≡ [] → ready_all id m cs ≡ []
  unfolding ready_all
  ready_all-nil id m e = rw e

  absent :
      (id : Str) (m : Mempool T)
      → IsConsistent m
      → lookup id m.waiting_children ≡ none
      → (d : Str) → has id (parents m d) ≡ false
  unfolding has
  absent id m k e d = sym (k.agree id d) ∙ ap (λ s. has d (or_empty s)) e

  -- On consistent maps `observe` never throws. It yields, in their order, the children that waited
  -- for `id` alone, each with its value; `id` leaves every set of missing parents, nothing waits for
  -- it any more, and the maps stay consistent.
  pub observe_lem :
      (id : Str) (m : Mempool T)
      → IsConsistent m
      → (m' : Mempool T) × (observe id m ≡ ok (ready_all id m (children m id), m'))
        × IsConsistent m'
        × ((d : Str) → parents m' d ≡ delete id (parents m d))
        × (children m' id ≡ [])
  observe_lem id m k = elim (Option-cases (lookup id m.waiting_children)) [
    | inl e ↦ (
      m,
      observe-none id m e ∙ ap (λ out. ok (out, m)) (sym (ready_all-nil id m (ap or_empty e))),
      k,
      (λ d. sym (delete_absent id _ (absent id m k e d))),
      ap or_empty e,
    )
    | inr (cs, e) ↦
        let m0 : Mempool T = record m { waiting_children = remove id m.waiting_children } in
        let k0 : Agrees (link id cs (children m)) m0 =
          Agrees-eq (children m) (link id cs (children m))
            (λ p. link_self id m p ∙ ap (λ s. link id (or_empty s) (children m) p) e)
            (record {
              agree = k.agree;
              valued = k.valued;
              distinct = k.distinct;
              waits = k.waits;
            }) in
        let (m', run, k', after, same) = release_all_lem id cs (children m) m0 k0 in
        (
          m',
          observe-some id m e
              ∙ run
              ∙ ap (λ out. ok (out, m'))
                  (ready_all-eq id cs m m0 (λ d h. refl) (λ d h. refl)
                    ∙ ap (λ s. ready_all id m (or_empty s)) (sym e)),
          Agrees-eq (link id [] (children m)) (children m')
              (λ p. sym (ap (λ w. or_empty (lookup p w)) same ∙ children_removed id p m)) k',
          (λ d. ground (arith, after d, delete_absent id (parents m d), k.agree id d, e)),
          ap (λ w. or_empty (lookup id w)) same ∙ children_removed id id m ∙ rw (bytes_eq_self id),
        )
  ]
