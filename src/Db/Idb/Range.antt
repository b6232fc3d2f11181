-- ===== src/Db/Idb/Range.antt =====
-- The rows that a range of an index visits: packages/modeldb/src/idb/api.ts.
use mathlib.Core.Path.{subst}
use canvas.Base.{
  Bool, true, false, not, ◌&&◌, ◌||◌, ◌≡◌, refl, ap, sym, ◌∙◌, arith, Option, none, some, Str, ok,
  inl, inr, Bool-cases,
}
use canvas.Db.Types.{PrimitiveType, primitive, Value, Js}
use canvas.Db.Validate.Holds.{Holds, IsNumber, held}
use canvas.Db.Order.{primitive_type_orders}
use canvas.Db.Order.Laws.{OrderedNumbers, order_trichotomy, order_trans}
use canvas.Db.Query.{range_filter, check}
use canvas.Db.Idb.{
  plain, KeyRange, Keys, only, bound, lower_bound, upper_bound, encode_property_value, get_range,
  range_of, or_else, upper_of, given,
}
use canvas.Db.Idb

module _ (js : Js) (idb_keys : Keys js.Num) where
  open js use {Num}
  open idb_keys use {is_key, key_lt}

  -- A value of the type that is not NaN.
  abbrev pub HoldsNumber : PrimitiveType → Value Num → Type 0
  HoldsNumber t v = Holds js t v × IsNumber js v

  abbrev pub above : Idb.Stored Num → Bool → Idb.Stored Num → Bool
  above lower true k = key_lt lower k
  above lower false k = not (key_lt k lower)

  abbrev pub below : Idb.Stored Num → Bool → Idb.Stored Num → Bool
  below upper true k = key_lt k upper
  below upper false k = not (key_lt upper k)

  -- The keys in a range; a null range is the whole index.
  abbrev pub in_range : Option (KeyRange Num) → Idb.Stored Num → Bool
  in_range none k = true
  in_range (some (only a)) k = not (key_lt a k) && not (key_lt k a)
  in_range (some (bound lower upper lo uo)) k = above lower lo k && below upper uo k
  in_range (some (lower_bound lower lo)) k = above lower lo k
  in_range (some (upper_bound upper uo)) k = below upper uo k

  -- The values of a type are keys, which IndexedDB orders as the program's order does.
  pub record SameOrder (t : PrimitiveType) : Type 0 where
    pub keys : (a : Value Num) → HoldsNumber t a → is_key (plain a) ≡ true
    pub order :
        (a b : Value Num)
        → HoldsNumber t a
        → HoldsNumber t b
        → key_lt (plain a) (plain b) ≡ (primitive_type_orders js t).less a b

  abbrev pub Held : PrimitiveType → Option (Value Num) → Type 0
  Held t none = Unit
  Held t (some v) = HoldsNumber t v

  module _ (o : OrderedNumbers js) (t : PrimitiveType) (same : SameOrder t) where
    range_above :
        (gt gte : Option (Value Num)) (v l : Value Num)
        → Held t gt
        → Held t gte
        → HoldsNumber t v
        → check js gt (λ b.
          not ((primitive_type_orders js t).less v b || (primitive_type_orders js t).equals v b))
          ≡ true
        → check js gte (λ b. not ((primitive_type_orders js t).less v b)) ≡ true
        → or_else js gt gte ≡ some l
        → HoldsNumber t l × (above (plain l) (given js gt) (plain v) ≡ true)
    range_above none none v l a b h f g e = absurd (cc)
    range_above (some x) gte v l a b h f g e =
        let k : x ≡ l = cc in
        subst (λ l. HoldsNumber t l × (key_lt (plain l) (plain v) ≡ true)) k
          (
            a,
            same.order x v a h
                ∙ ground (
                  arith,
                  order_trichotomy js o t (held a.0 a.1) (held h.0 h.1),
                  order_trichotomy js o t (held h.0 h.1) (held a.0 a.1),
                ),
          )
    range_above none (some y) v l a b h f g e =
        let k : y ≡ l = cc in
        subst (λ l. HoldsNumber t l × (not (key_lt (plain v) (plain l)) ≡ true)) k
          (b, ap not (same.order v y h b) ∙ g)

    range_below :
        (lt lte : Option (Value Num)) (v u : Value Num)
        → Held t lt
        → HoldsNumber t v
        → check js lt (λ b. (primitive_type_orders js t).less v b) ≡ true
        → upper_of js lt lte ≡ some u
        → HoldsNumber t u × (given js lt ≡ true) × (key_lt (plain v) (plain u) ≡ true)
    range_below none none v u a h f e = absurd (cc)
    range_below none (some y) v u a h f e = absurd (cc)
    range_below (some x) lte v u a h f e =
        let k : x ≡ u = cc in
        subst (λ u. HoldsNumber t u × (true ≡ true) × (key_lt (plain v) (plain u) ≡ true)) k
          (a, refl, same.order v x h a ∙ f)

    in_order :
        (l u v : Value Num) (open_ : Bool)
        → HoldsNumber t l
        → HoldsNumber t u
        → HoldsNumber t v
        → above (plain l) open_ (plain v) ≡ true
        → key_lt (plain v) (plain u) ≡ true
        → key_lt (plain u) (plain l) ≡ false
    in_order l u v open_ hl hu hv f g = elim (Bool-cases (key_lt (plain u) (plain l))) [
      | inr e ↦ e
      | inl e ↦
          let p =
            order_trans js o t (held hv.0 hv.1) (held hu.0 hu.1) (held hl.0 hl.1)
              (sym (same.order v u hv hu) ∙ g) (sym (same.order u l hu hl) ∙ e) in
          let q = same.order v l hv hl ∙ p in absurd (contradiction open_ f q)
    ]
      where
        contradiction :
            (open_ : Bool)
            → above (plain l) open_ (plain v) ≡ true
            → key_lt (plain v) (plain l) ≡ true
            → ⊥
        contradiction true f q = ground (
          arith,
          same.order v l hv hl,
          same.order l v hl hv,
          order_trichotomy js o t (held hv.0 hv.1) (held hl.0 hl.1),
        )
        contradiction false f q = ground arith

    and_true : {a b : Bool} → a && b ≡ true → (a ≡ true) × (b ≡ true)
    and_true {a} {b} h = ground arith

    module _ (n : Str) (gt gte lt lte : Option (Value Num)) (v : Value Num) (hgt : Held t gt)
        (hgte : Held t gte) (hlt : Held t lt) (hv : HoldsNumber t v)
        (passes : range_filter js (primitive_type_orders js t) gt gte lt lte v ≡ true) where
      bounds :
          (check js gt (λ b.
              not
                ((primitive_type_orders js t).less v b || (primitive_type_orders js t).equals v b))
            ≡ true)
          × (check js gte (λ b. not ((primitive_type_orders js t).less v b)) ≡ true)
          × (check js lt (λ b. (primitive_type_orders js t).less v b) ≡ true)
      unfolding range_filter
      bounds =
          let (abc, _) = and_true passes in
          let (ab, c) = and_true abc in let (a, b) = and_true ab in (a, b, c)

      covers_at :
          (lower upper : Option (Value Num))
          → or_else js gt gte ≡ lower
          → upper_of js lt lte ≡ upper
          → (r : Option (KeyRange Num)) × (range_of js idb_keys
                (primitive n t false)
                lower
                upper
                (given js gt)
                (given js lt)
              ≡ ok r)
            × (in_range r (plain v) ≡ true)
      unfolding range_of
      covers_at none none e f = (none, refl, refl)
      covers_at (some l) none e f =
          let (hl, k) = range_above gt gte v l hgt hgte hv bounds.0 bounds.1 e in
          (some (lower_bound (plain l) (given js gt)), rw (same.keys l hl) refl, k)
      covers_at none (some u) e f =
          let (hu, g, k) = range_below lt lte v u hlt hv bounds.2 f in
          (some (upper_bound (plain u) (given js lt)), rw (same.keys u hu) refl, rw g k)
      covers_at (some l) (some u) e f =
          let (hl, k) = range_above gt gte v l hgt hgte hv bounds.0 bounds.1 e in
          let (hu, g, m) = range_below lt lte v u hlt hv bounds.2 f in
          (
            some (bound (plain l) (plain u) (given js gt) (given js lt)),
            rw (same.keys l hl)
                (rw (same.keys u hu) (rw (in_order l u v (given js gt) hl hu hv k m) refl)),
            rw (k, g) m,
          )

  -- For a property that is not optional, any row that the range filter lets through has its key in
  -- the range that the index is read by, whichever of the four bounds are given: the range is made
  -- without an error, and reading the index by it loses no matching row. The row's value and the
  -- bounds `gt`, `gte` and `lt` are of the property's type and not NaN, JavaScript orders the
  -- numbers other than NaN, and such values of the type must be keys of IndexedDB that it orders as
  -- the program does.
  pub get_range_covers :
      (o : OrderedNumbers js) (t : PrimitiveType)
      → SameOrder t
      → (n : Str) (gt gte lt lte : Option (Value Num)) (v : Value Num) → Held t gt
      → Held t gte
      → Held t lt
      → HoldsNumber t v
      → range_filter js (primitive_type_orders js t) gt gte lt lte v ≡ true
      → (r : Option (KeyRange Num)) × (get_range js idb_keys (primitive n t false) gt gte lt lte
          ≡ ok r)
        × (in_range r (plain v) ≡ true)
  unfolding get_range
  get_range_covers o t same n gt gte lt lte v a b c h f =
      covers_at o t same n gt gte lt lte v a b c h f _ _ refl refl
