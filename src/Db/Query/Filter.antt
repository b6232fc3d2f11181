-- ===== src/Db/Query/Filter.antt =====
-- What the filters of `where` let through: packages/modeldb/src/query.ts.
use canvas.Base.{
  Bool, not, ◌&&◌, ◌||◌, ◌≡◌, ◌≢◌, refl, ap, sym, ◌∙◌, arith, Option, none, some, [], ◌∷◌, Str,
  Result, ok, throw, ◌>>=◌, >>=-eq-ok,
}
use canvas.Db.Types.{
  PrimitiveType, json, Property, primitive, Model, Value, Js, ModelValue, get, Expression, range,
}
use canvas.Db.Validate.Laws.{validate_property_value_iff}
use canvas.Db.Validate.Holds.{IsNumber, Stored, nothing, held, Fits, a_value, a_document, no_value}
use canvas.Db.Order.{Order, find_property, primitive_type_orders}
use canvas.Db.Order.Laws.{OrderedNumbers, order_trichotomy}
use canvas.Db.Query.{
  check, range_filter, validate_bound, get_primitive_filter, filter_by, get_filter, passes,
}

module _ (js : Js) where
  open js use {Num}

  fits-Stored :
      {n : Str} {t : PrimitiveType} {b : Bool} {v : Value Num}
      → t ≢ json
      → IsNumber js v
      → Fits js (primitive n t b) v
      → Stored js t v
  fits-Stored ne p (a_value h) = held h p
  fits-Stored ne p (a_document k e) = absurd (ne refl)
  fits-Stored ne p no_value = nothing

  abbrev StoredBound : PrimitiveType → Option (Value Num) → Type 0
  StoredBound t none = Unit
  StoredBound t (some v) = Stored js t v

  -- A bound that is not NaN.
  abbrev pub IsNumberBound : Option (Value Num) → Type 0
  IsNumberBound none = Unit
  IsNumberBound (some v) = IsNumber js v

  bound_sound :
      (n : Str) (t : PrimitiveType) (b : Bool) (v : Option (Value Num))
      → t ≢ json
      → IsNumberBound v
      → validate_bound js (primitive n t b) v ≡ ok tt
      → StoredBound t v
  unfolding validate_bound
  bound_sound n t b none ne p h = tt
  bound_sound n t b (some v) ne p h = fits-Stored ne p ((validate_property_value_iff js _ v).0 h)

  -- The bounds, each said by the order alone: above `gt`, not below `gte`, below `lt`, not above `lte`.
  abbrev pub within : Order Num → (gt gte lt lte : Option (Value Num)) → Value Num → Bool
  within order gt gte lt lte v =
      check js gt (λ b. order.less b v)
      && check js gte (λ b. not (order.less v b))
      && check js lt (λ b. order.less v b)
      && check js lte (λ b. not (order.less b v))

  module _ (o : OrderedNumbers js) (t : PrimitiveType) {v : Value Num} (hv : Stored js t v) where
    gt_lem :
        (x : Option (Value Num))
        → StoredBound t x
        → check js x (λ b.
          not ((primitive_type_orders js t).less v b || (primitive_type_orders js t).equals v b))
          ≡ check js x (λ b. (primitive_type_orders js t).less b v)
    gt_lem none h = refl
    gt_lem (some x) h = ground (arith, order_trichotomy js o t hv h, order_trichotomy js o t h hv)

    lte_lem :
        (x : Option (Value Num))
        → StoredBound t x
        → check js x
            (λ b. (primitive_type_orders js t).less v b || (primitive_type_orders js t).equals v b)
          ≡ check js x (λ b. not ((primitive_type_orders js t).less b v))
    lte_lem none h = refl
    lte_lem (some x) h = ground (arith, order_trichotomy js o t hv h, order_trichotomy js o t h hv)

    range_filter-within :
        (gt gte lt lte : Option (Value Num))
        → StoredBound t gt
        → StoredBound t lte
        → range_filter js (primitive_type_orders js t) gt gte lt lte v
          ≡ within (primitive_type_orders js t) gt gte lt lte v
    unfolding range_filter
    range_filter-within gt gte lt lte a d = rw (gt_lem gt a, lte_lem lte d) refl

  range_filter_ok :
      (n : Str) (t : PrimitiveType) (b : Bool) (gt gte lt lte : Option (Value Num))
      {f : Value Num → Bool}
      → t ≢ json
      → IsNumberBound gt
      → IsNumberBound lte
      → get_primitive_filter js n t b (range gt gte lt lte) ≡ ok f
      → StoredBound t gt
        × StoredBound t lte
        × (f ≡ range_filter js (primitive_type_orders js t) gt gte lt lte)
  unfolding get_primitive_filter
  range_filter_ok n t b gt gte lt lte ne p q e =
      let (_, a, e1) = >>=-eq-ok (validate_bound js (primitive n t b) gt) _ e in
      let (_, _, e2) = >>=-eq-ok (validate_bound js (primitive n t b) gte) _ e1 in
      let (_, _, e3) = >>=-eq-ok (validate_bound js (primitive n t b) lt) _ e2 in
      let (_, d, e4) = >>=-eq-ok (validate_bound js (primitive n t b) lte) _ e3 in
      (bound_sound n t b gt ne p a, bound_sound n t b lte ne q d, cc)

  one_clause :
      (name : Str) (r : Result (Value Num → Bool)) {f : ModelValue Num → Bool}
      → (r >>= (λ g. ok ((name, g) ∷ [])) >>= (λ fs. ok (passes js fs))) ≡ ok f
      → (g : Value Num → Bool) × (r ≡ ok g) × ((row : ModelValue Num) → f row ≡ g (get row name))
  one_clause name (ok g) {f} h =
      let e : passes js ((name, g) ∷ []) ≡ f = cc in
      (g, refl, λ row. sym (ap (λ k. k row) e) ∙ ground arith)
  one_clause name (throw m) h = absurd (cc)

  get_filter_one :
      (model : Model) (name : Str) (e : Expression Num) {p : Property} {f : ModelValue Num → Bool}
      → find_property js name model.properties ≡ some p
      → get_filter js model ((name, e) ∷ []) ≡ ok f
      → (g : Value Num → Bool) × (filter_by js (some p) e ≡ ok g)
        × ((row : ModelValue Num) → f row ≡ g (get row name))
  unfolding get_filter
  get_filter_one model name e {p} found h =
      one_clause name (filter_by js (some p) e) (rw found at h)

  -- A range in `where` on a primitive property that is not JSON, with bounds `gt` and `lte` that are
  -- not NaN: where the filter is made at all, it lets a row whose value is null or of the property's
  -- type, and not NaN, through exactly if that value is above `gt`, not below `gte`, below `lt` and
  -- not above `lte`, of those that are given; null is below all else. Numbers other than NaN are
  -- ordered by JavaScript's `<` and `===`.
  pub get_filter-within :
      (o : OrderedNumbers js) (model : Model) (name n : Str) (t : PrimitiveType) (b : Bool)
      (gt gte lt lte : Option (Value Num)) (row : ModelValue Num) {f : ModelValue Num → Bool}
      → find_property js name model.properties ≡ some (primitive n t b)
      → t ≢ json
      → IsNumberBound gt
      → IsNumberBound lte
      → get_filter js model ((name, range gt gte lt lte) ∷ []) ≡ ok f
      → Stored js t (get row name)
      → f row ≡ within (primitive_type_orders js t) gt gte lt lte (get row name)
  unfolding filter_by
  get_filter-within o model name n t b gt gte lt lte row found ne p q h hv =
      let (g, e, same) = get_filter_one model name (range gt gte lt lte) found h in
      let (a, d, k) = range_filter_ok n t b gt gte lt lte ne p q e in
      same row ∙ ap (λ m. m (get row name)) k ∙ range_filter-within o t hv gt gte lt lte a d
