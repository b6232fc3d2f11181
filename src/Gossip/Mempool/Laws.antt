-- ===== src/Gossip/Mempool/Laws.antt =====
-- What the mempool keeps: Mempool.ts.
use canvas.Base.{
  Bool, true, false, ◌&&◌, ◌||◌, ◌≡◌, ◌≢◌, sym, ◌∙◌, arith, Option, none, some, List, [], ◌∷◌, Str,
  inl, inr, Bool-cases, Option-cases, if◌then◌else◌, bytes_eq, bytes_eq_iff,
}
use canvas.Base.Maps.{lookup, add, has, Distinct, lookup-put, has-add, Distinct-add}
use canvas.Gossip.Mempool.{Mempool, add_child, add_children, insert}

-- The set under a key, empty where there is none.
abbrev pub or_empty : Option (List Str) → List Str
or_empty none = []
or_empty (some s) = s

abbrev pub is_some {ℓ} : {A : Type ℓ} → Option A → Bool
is_some none = false
is_some (some a) = true

module _ {ℓ} {T : Type ℓ} where
  -- The parents that a message waits for, and the messages that wait for a parent.
  abbrev pub parents : Mempool T → Str → List Str
  parents m c = or_empty (lookup c m.missing_parents)

  abbrev pub children : Mempool T → Str → List Str
  children m p = or_empty (lookup p m.waiting_children)

  -- The maps describe one relation: `kids` lists for every parent, once each, the messages that
  -- wait for it; a message has a value exactly if it is tracked, and then it waits for something.
  pub record Agrees (kids : Str → List Str) (m : Mempool T) : Type ℓ where
    pub agree : (p c : Str) → has c (kids p) ≡ has p (parents m c)
    pub valued : (c : Str) → is_some (lookup c m.values) ≡ is_some (lookup c m.missing_parents)
    pub distinct : (p : Str) → Distinct (kids p)
    pub waits : (c : Str) → lookup c m.missing_parents ≢ some []

  abbrev pub IsConsistent : Mempool T → Type ℓ
  IsConsistent m = Agrees (children m) m

children-add_child :
    (id parent p : Str) (w : List (Str × List Str))
    → or_empty (lookup p (add_child id parent w))
      ≡ (if bytes_eq parent p then add id (or_empty (lookup parent w)) else or_empty (lookup p w))
unfolding add_child add
children-add_child id parent p w = elim (Option-cases (lookup parent w)) [
  | inl e ↦ rw (e, add_child) (rw (lookup-put parent p (id ∷ []) w) (ground arith))
  | inr (cs, e) ↦ rw (e, add_child) (rw (lookup-put parent p (add id cs) w) (ground arith))
]

has-add_children :
    (id : Str) (ps : List Str) (p c : Str) (w : List (Str × List Str))
    → has c (or_empty (lookup p (add_children id ps w)))
      ≡ (bytes_eq id c && has p ps || has c (or_empty (lookup p w)))
unfolding add_children has
has-add_children id [] p c w = ground arith
has-add_children id (q ∷ ps) p c w =
    rw (has-add_children id ps p c (add_child id q w), children-add_child id q p w)
      (ground (arith, has-add id c (or_empty (lookup q w)), bytes_eq_iff q p))

Distinct-add_children :
    (id : Str) (ps : List Str) (w : List (Str × List Str))
    → ((p : Str) → Distinct (or_empty (lookup p w)))
    → (p : Str) → Distinct (or_empty (lookup p (add_children id ps w)))
unfolding add_children
Distinct-add_children id [] w d p = d p
Distinct-add_children id (q ∷ ps) w d p = Distinct-add_children id ps (add_child id q w) next p
  where
    next : (p : Str) → Distinct (or_empty (lookup p (add_child id q w)))
    next p = rw (children-add_child id q p w) (elim (Bool-cases (bytes_eq q p)) [
      | inl e ↦ rw e (Distinct-add id _ (d q))
      | inr e ↦ rw e (d p)
    ])

module _ {ℓ} {T : Type ℓ} where
  -- A message that is added waits for exactly its missing parents. A message that waits already
  -- may be added again with at least the parents it still waits for.
  pub insert-IsConsistent :
      (id : Str) (value : T) (missing : List Str) (m : Mempool T)
      → IsConsistent m
      → missing ≢ []
      → ((p : Str) → has p (parents m id) ≡ true → has p missing ≡ true)
      → IsConsistent (insert id value missing m)
        × ((c : Str)
            → parents (insert id value missing m) c
              ≡ (if bytes_eq id c then missing else parents m c))
  unfolding insert
  insert-IsConsistent id value missing m k some_missing keeps = (
    record {
      agree = λ p c.
          has-add_children id missing p c m.waiting_children
          ∙ rw (lookup-put id c missing m.missing_parents)
              (ground (arith, k.agree p c, keeps p, bytes_eq_iff id c));
      valued = λ c.
          rw (lookup-put id c missing m.missing_parents, lookup-put id c value m.values)
            (ground (arith, k.valued c));
      distinct = λ p. Distinct-add_children id missing m.waiting_children k.distinct p;
      waits = λ c h.
          let h' = sym (lookup-put id c missing m.missing_parents) ∙ h in ground (arith, k.waits c);
    },
    λ c. rw (lookup-put id c missing m.missing_parents) (ground arith),
  )
