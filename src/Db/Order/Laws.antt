-- ===== src/Db/Order/Laws.antt =====
-- The orders that values of a property are compared by: packages/modeldb/src/query.ts.
use canvas.Base.{
  ℕ, Bool, true, false, not, ◌&&◌, ◌≡◌, refl, arith, List, bytes_eq, bytes_lt, bytes_eq_iff,
  bytes_lt_irrefl, bytes_lt_trans, bytes_lt_total, bytes_lt_asymm,
}
use canvas.Db.Types.{PrimitiveType, integer, bytes, boolean, Value, null, Js}
use canvas.Db.Validate.Holds.{
  Holds, IsNumber, integers, floats, strings, byte_arrays, booleans, Stored, nothing, held,
}
use canvas.Db.Order.{
  strict_eq, js_lt, null_first, byte_less, byte_equals, boolean_less, boolean_equals,
  primitive_type_orders,
}

pub bytes_trichotomy : (a b : List ℕ) → bytes_eq a b ≡ (not (bytes_lt a b) && not (bytes_lt b a))
bytes_trichotomy a b =
    ground (arith, bytes_eq_iff a b, bytes_lt_asymm a b, bytes_lt_total a b, bytes_lt_irrefl a)

module _ (js : Js) where
  open js use {Num, num_eq, num_lt, is_safe_integer}

  -- JavaScript orders the numbers that equal themselves, which are all but NaN.
  pub record OrderedNumbers : Type 0 where
    pub trichotomy :
        (a b : Num)
        → num_eq a a ≡ true
        → num_eq b b ≡ true
        → num_eq a b ≡ (not (num_lt a b) && not (num_lt b a))
    pub asymm : (a b : Num) → num_lt a b ≡ true → num_lt b a ≡ false
    pub trans : (a b c : Num) → num_lt a b ≡ true → num_lt b c ≡ true → num_lt a c ≡ true

  abbrev lt_of : PrimitiveType → Value Num → Value Num → Bool
  lt_of bytes = byte_less js
  lt_of boolean = boolean_less js
  lt_of _ = js_lt js

  abbrev eq_of : PrimitiveType → Value Num → Value Num → Bool
  eq_of bytes = byte_equals js
  eq_of boolean = boolean_equals js
  eq_of _ = strict_eq js

  less_lem :
      (t : PrimitiveType) (a b : Value Num)
      → (primitive_type_orders js t).less a b ≡ null_first js (lt_of t) a b
  less_lem integer a b = refl
  less_lem _ a b = refl

  equals_lem :
      (t : PrimitiveType) (a b : Value Num) → (primitive_type_orders js t).equals a b ≡ eq_of t a b
  equals_lem integer a b = refl
  equals_lem _ a b = refl

  eq_null : (t : PrimitiveType) → eq_of t null null ≡ true
  unfolding strict_eq byte_equals boolean_equals
  eq_null integer = refl
  eq_null _ = refl

  null_null : (lt : Value Num → Value Num → Bool) → null_first js lt null null ≡ false
  unfolding null_first
  null_null lt = refl

  module _ (o : OrderedNumbers) where
    first_held :
        {t : PrimitiveType} {a b : Value Num}
        → Holds js t a
        → Holds js t b
        → null_first js (lt_of t) a b ≡ lt_of t a b
    unfolding null_first
    first_held (integers m h) (integers n k) = refl
    first_held (floats m) (floats n) = refl
    first_held (strings m) (strings n) = refl
    first_held (byte_arrays m) (byte_arrays n) = refl
    first_held (booleans m) (booleans n) = refl

    first_null :
        {t : PrimitiveType} {a : Value Num}
        → Holds js t a
        → (null_first js (lt_of t) null a ≡ true)
          × (null_first js (lt_of t) a null ≡ false)
          × (eq_of t null a ≡ false)
          × (eq_of t a null ≡ false)
    unfolding null_first strict_eq byte_equals boolean_equals
    first_null (integers m h) = (refl, refl, refl, refl)
    first_null (floats m) = (refl, refl, refl, refl)
    first_null (strings m) = (refl, refl, refl, refl)
    first_null (byte_arrays m) = (refl, refl, refl, refl)
    first_null (booleans m) = (refl, refl, refl, refl)

    held_trichotomy :
        {t : PrimitiveType} {a b : Value Num}
        → Holds js t a
        → Holds js t b
        → IsNumber js a
        → IsNumber js b
        → eq_of t a b ≡ (not (lt_of t a b) && not (lt_of t b a))
    unfolding strict_eq byte_equals boolean_equals js_lt byte_less boolean_less
    held_trichotomy (integers m h) (integers n k) p q = o.trichotomy m n p q
    held_trichotomy (floats m) (floats n) p q = o.trichotomy m n p q
    held_trichotomy (strings m) (strings n) p q = bytes_trichotomy m n
    held_trichotomy (byte_arrays m) (byte_arrays n) p q = bytes_trichotomy m n
    held_trichotomy (booleans m) (booleans n) p q = ground arith

    held_asymm :
        {t : PrimitiveType} {a b : Value Num}
        → Holds js t a
        → Holds js t b
        → lt_of t a b ≡ true
        → lt_of t b a ≡ false
    unfolding js_lt byte_less boolean_less
    held_asymm (integers m h) (integers n k) = o.asymm m n
    held_asymm (floats m) (floats n) = o.asymm m n
    held_asymm (strings m) (strings n) = bytes_lt_asymm m n
    held_asymm (byte_arrays m) (byte_arrays n) = bytes_lt_asymm m n
    held_asymm (booleans m) (booleans n) = λ h. ground arith

    held_trans :
        {t : PrimitiveType} {a b c : Value Num}
        → Holds js t a
        → Holds js t b
        → Holds js t c
        → lt_of t a b ≡ true
        → lt_of t b c ≡ true
        → lt_of t a c ≡ true
    unfolding js_lt byte_less boolean_less
    held_trans (integers m h) (integers n k) (integers p l) = o.trans m n p
    held_trans (floats m) (floats n) (floats p) = o.trans m n p
    held_trans (strings m) (strings n) (strings p) = bytes_lt_trans m n p
    held_trans (byte_arrays m) (byte_arrays n) (byte_arrays p) = bytes_lt_trans m n p
    held_trans (booleans m) (booleans n) (booleans p) = λ h k. ground arith

    -- Of two stored values but NaN, null among them, the order's `equals` holds exactly if neither is less;
    -- no two values are each less than the other.
    pub order_trichotomy :
        (t : PrimitiveType) {a b : Value Num}
        → Stored js t a
        → Stored js t b
        → ((primitive_type_orders js t).equals a b ≡ (
            not ((primitive_type_orders js t).less a b)
            && not ((primitive_type_orders js t).less b a)))
          × ((primitive_type_orders js t).less a b ≡ true
              → (primitive_type_orders js t).less b a ≡ false)
    order_trichotomy t {a} {b} h k = rw (equals_lem t a b, less_lem t a b, less_lem t b a) (go h k)
      where
        go :
            {a b : Value Num}
            → Stored js t a
            → Stored js t b
            → (eq_of t a b
                ≡ (not (null_first js (lt_of t) a b) && not (null_first js (lt_of t) b a)))
              × (null_first js (lt_of t) a b ≡ true → null_first js (lt_of t) b a ≡ false)
        go nothing nothing = (rw (null_null (lt_of t)) (eq_null t), λ h. null_null (lt_of t))
        go nothing (held k _) = let (f, g, u, v) = first_null k in (rw f u, λ h. g)
        go (held k _) nothing =
            let (f, g, u, v) = first_null k in (rw (g, f) v, λ h. absurd (ground (arith, g)))
        go (held h p) (held k q) = (
          rw (first_held h k, first_held k h) (held_trichotomy h k p q),
          rw (first_held h k, first_held k h) (held_asymm h k),
        )

    pub order_trans :
        (t : PrimitiveType) {a b c : Value Num}
        → Stored js t a
        → Stored js t b
        → Stored js t c
        → (primitive_type_orders js t).less a b ≡ true
        → (primitive_type_orders js t).less b c ≡ true
        → (primitive_type_orders js t).less a c ≡ true
    order_trans t {a} {b} {c} h k l = rw (less_lem t a b, less_lem t b c, less_lem t a c) (go h k l)
      where
        go :
            {a b c : Value Num}
            → Stored js t a
            → Stored js t b
            → Stored js t c
            → null_first js (lt_of t) a b ≡ true
            → null_first js (lt_of t) b c ≡ true
            → null_first js (lt_of t) a c ≡ true
        go nothing nothing l = λ h m. absurd (ground (arith, null_null (lt_of t)))
        go nothing (held k _) nothing = λ h m. absurd (ground (arith, first_null k))
        go nothing (held k _) (held l _) = λ h m. (first_null l).0
        go (held h _) nothing l = λ m n. absurd (ground (arith, first_null h))
        go (held h _) (held k _) nothing = λ m n. absurd (ground (arith, first_null k))
        go (held h _) (held k _) (held l _) =
            rw (first_held h k, first_held k l, first_held h l) (held_trans h k l)
