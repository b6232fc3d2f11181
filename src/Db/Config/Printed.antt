-- ===== src/Db/Config/Printed.antt =====
-- The texts that declare a property: parseProperty of packages/modeldb/src/config.ts.
use mathlib.Core.Path.{subst}
use canvas.Base.{
  some_inj, ◌≡◌, ◌≢◌, refl, sym, ap, ap₂, ◌∙◌, ◌↔◌, inl, inr, Bool, true, false, not, ◌&&◌, Option,
  none, some, List, [], ◌∷◌, ◌++◌, Str, String, bytes_eq, bytes_eq_iff, codes, ◌==◌, ==_iff, all,
  Result, ok, throw, arith, Bool-cases, Option-cases, ok_inj,
}
use canvas.Db.Types.{
  PrimitiveType, integer, float, string, bytes, boolean, json, Property, primary, primitive,
  reference, relation, property_name,
}
use canvas.Db.Config.{
  is_name, is_target_char, after, type_text, primitive_types, optional_end, match_types,
  span_target, match_target, parse_target, is_json, parse_type, parse_property,
}

abbrev pub mark : Bool → Str
mark true = codes "?"
mark false = []

-- The text of a property.
abbrev pub print_property : Property → Str
print_property (primary name) = codes "primary"
print_property (primitive name type optional) = type_text type ++ mark optional
print_property (reference name target optional) = b'@' ∷ target ++ mark optional
print_property (relation name target) = b'@' ∷ target ++ codes "[]"

abbrev pub IsTarget : Str → Type 0
IsTarget target = (target ≢ []) × (all is_target_char target ≡ true)

-- What can be declared: a name in the pattern of names, no optional JSON, and a target in the
-- narrower pattern of targets.
abbrev pub IsDeclarable : Property → Type 0
IsDeclarable (primary name) = is_name name ≡ true
IsDeclarable (primitive name type optional) =
    (is_name name ≡ true) × ((is_json type && optional) ≡ false)
IsDeclarable (reference name target optional) = (is_name name ≡ true) × IsTarget target
IsDeclarable (relation name target) = (is_name name ≡ true) × IsTarget target

-- What follows a target: nothing, or a character outside the class.
abbrev Stops : Str → Type 0
Stops [] = Unit
Stops (c ∷ cs) = is_target_char c ≡ false

and_true : (a b : Bool) → (a && b) ≡ true → (a ≡ true) × (b ≡ true)
and_true a b h = ground arith

span_target-append :
    (target rest : Str)
    → all is_target_char target ≡ true
    → Stops rest
    → span_target (target ++ rest) ≡ (target, rest)
unfolding span_target
span_target-append [] [] h s = refl
span_target-append [] (c ∷ cs) h s = rw s refl
span_target-append (c ∷ cs) rest h s =
    let (hc, hs) = and_true (is_target_char c) (all is_target_char cs) h in
    rw (hc, span_target-append cs rest hs s) refl

bytes_eq-nil : (t : Str) → t ≢ [] → bytes_eq t [] ≡ false
unfolding bytes_eq
bytes_eq-nil [] h = absurd (h refl)
bytes_eq-nil (c ∷ cs) h = refl

match_target-append :
    (target rest : Str)
    → IsTarget target
    → Stops rest
    → match_target (b'@' ∷ target ++ rest) ≡ some (target, rest)
unfolding match_target
match_target-append target rest (ne, h) s =
    rw (span_target-append target rest h s, bytes_eq-nil target ne) refl

Stops-mark : (optional : Bool) → Stops (mark optional)
unfolding is_target_char
Stops-mark true = refl
Stops-mark false = tt

Stops-brackets : Stops (codes "[]")
unfolding is_target_char
Stops-brackets = refl

optional_end-mark : (optional : Bool) → optional_end (mark optional) ≡ some optional
unfolding optional_end
optional_end-mark true = refl
optional_end-mark false = refl

parse_target-reference :
    (name target : Str) (optional : Bool)
    → parse_target name (some (target, mark optional)) ≡ ok (reference name target optional)
unfolding parse_target
parse_target-reference name target true = refl
parse_target-reference name target false = refl

parse_target-relation :
    (name target : Str) → parse_target name (some (target, codes "[]")) ≡ ok (relation name target)
unfolding parse_target
parse_target-relation name target = refl

-- No text that starts with `@` is primary or primitive.
at_target :
    (name text : Str)
    → is_name name ≡ true
    → parse_property name (b'@' ∷ text) ≡ parse_target name (match_target (b'@' ∷ text))
unfolding parse_property
at_target name text h = rw h refl

parse_property-print_property :
    (p : Property) → IsDeclarable p → parse_property (property_name p) (print_property p) ≡ ok p
unfolding parse_property
parse_property-print_property (primary name) h = rw h refl
parse_property-print_property (primitive name integer true) (h, j) = rw h refl
parse_property-print_property (primitive name integer false) (h, j) = rw h refl
parse_property-print_property (primitive name float true) (h, j) = rw h refl
parse_property-print_property (primitive name float false) (h, j) = rw h refl
parse_property-print_property (primitive name string true) (h, j) = rw h refl
parse_property-print_property (primitive name string false) (h, j) = rw h refl
parse_property-print_property (primitive name bytes true) (h, j) = rw h refl
parse_property-print_property (primitive name bytes false) (h, j) = rw h refl
parse_property-print_property (primitive name boolean true) (h, j) = rw h refl
parse_property-print_property (primitive name boolean false) (h, j) = rw h refl
parse_property-print_property (primitive name json true) (h, j) = absurd (cc)
parse_property-print_property (primitive name json false) (h, j) = rw h refl
parse_property-print_property (reference name target optional) (h, t) =
    at_target name (target ++ mark optional) h
    ∙ ap (parse_target name) (match_target-append target (mark optional) t (Stops-mark optional))
    ∙ parse_target-reference name target optional
parse_property-print_property (relation name target) (h, t) =
    at_target name (target ++ codes "[]") h
    ∙ ap (parse_target name) (match_target-append target (codes "[]") t Stops-brackets)
    ∙ parse_target-relation name target

after_lem : (prefix text : Str) {rest : Str} → after prefix text ≡ some rest → text ≡ prefix ++ rest
unfolding after
after_lem [] text h = cc
after_lem (c ∷ cs) [] h = absurd (cc)
after_lem (c ∷ cs) (d ∷ ds) {rest} h = elim (Bool-cases (c == d)) [
  | inl e ↦ ap₂ ◌∷◌ (sym ((==_iff c d).0 e)) (after_lem cs ds (rw e at h))
  | inr e ↦ absurd (no_prefix (rw e at h))
]
  where
    no_prefix : ◌≡◌ {A = Option Str} none (some rest) → ⊥
    no_prefix p = cc

optional_end_lem : (rest : Str) {o : Bool} → optional_end rest ≡ some o → rest ≡ mark o
unfolding optional_end
optional_end_lem rest {o} h = elim (Bool-cases (bytes_eq rest [])) [
  | inl e ↦ (bytes_eq_iff rest []).0 e ∙ ap mark (some_inj (rw e at h))
  | inr e ↦ elim (Bool-cases (bytes_eq rest (codes "?"))) [
    | inl f ↦ (bytes_eq_iff rest (codes "?")).0 f ∙ ap mark (some_inj (rw (e, f) at h))
    | inr f ↦ absurd (no_end (rw (e, f) at h))
  ]
]
  where
    no_end : {b : Bool} → ◌≡◌ {A = Option Bool} none (some b) → ⊥
    no_end p = cc

match_types_lem :
    (types : List PrimitiveType) (text : Str) {type : PrimitiveType} {o : Bool}
    → match_types types text ≡ some (type, o)
    → text ≡ type_text type ++ mark o
unfolding match_types
match_types_lem [] text h = absurd (cc)
match_types_lem (t ∷ ts) text {type} {o} h = elim (Option-cases (after (type_text t) text)) [
  | inl e ↦ match_types_lem ts text (rw e at h)
  | inr (rest, e) ↦ elim (Option-cases (optional_end rest)) [
    | inl f ↦ match_types_lem ts text (rw (e, f) at h)
    | inr (o2, f) ↦
        after_lem (type_text t) text e
        ∙ ap (λ r. type_text t ++ r) (optional_end_lem rest f)
        ∙ ap (λ m. type_text m.0 ++ mark m.1) (some_inj (rw (e, f) at h))
  ]
]

span_target_lem :
    (text : Str)
    → (text ≡ (span_target text).0 ++ (span_target text).1)
      × (all is_target_char (span_target text).0 ≡ true)
unfolding span_target
span_target_lem [] = (refl, refl)
span_target_lem (c ∷ cs) = elim (Bool-cases (is_target_char c)) [
  | inl e ↦ rw (e, e) (ap (◌∷◌ c) (span_target_lem cs).0, (span_target_lem cs).1)
  | inr e ↦ rw e (refl, refl)
]

match_target_lem :
    (text : Str) {target rest : Str}
    → match_target text ≡ some (target, rest)
    → (text ≡ b'@' ∷ target ++ rest) × IsTarget target
unfolding match_target
match_target_lem [] h = absurd (cc)
match_target_lem (c ∷ cs) {target} {rest} h =
    elim (Bool-cases (c == b'@' && not (bytes_eq (span_target cs).0 []))) [
      | inr e ↦ absurd (no_target (rw e at h))
      | inl e ↦
          let (at, ne) = and_true (c == b'@') (not (bytes_eq (span_target cs).0 [])) e in
          let p = some_inj (rw e at h) in
          subst (λ (m : Str × Str). ((c ∷ cs) ≡ b'@' ∷ m.0 ++ m.1) × IsTarget m.0) p
            (
              ap (λ d. d ∷ cs) ((==_iff c b'@').0 at) ∙ ap (◌∷◌ b'@') (span_target_lem cs).0,
              (λ z. nonempty (span_target cs).0 ne z, (span_target_lem cs).1),
            )
    ]
  where
    no_target : ◌≡◌ {A = Option (Str × Str)} none (some (target, rest)) → ⊥
    no_target p = cc

    nonempty : (t : Str) → not (bytes_eq t []) ≡ true → t ≡ [] → ⊥
    nonempty t ne z = ground (arith, bytes_eq_iff t [])

-- A property of a name, and the text that declares it.
abbrev pub Declares : (name text : Str) → Property → Type 0
Declares name text p = (property_name p ≡ name) × (print_property p ≡ text) × IsDeclarable p

parse_target_lem :
    (name text : Str) (found : Option (Str × Str)) {p : Property}
    → is_name name ≡ true
    → match_target text ≡ found
    → parse_target name found ≡ ok p
    → Declares name text p
unfolding parse_target
parse_target_lem name text none named e h = absurd (cc)
parse_target_lem name text (some (target, rest)) {p} named e h =
    let (text_is, valid) = match_target_lem text e in
    elim (Option-cases (optional_end rest)) [
      | inr (o, f) ↦ subst (Declares name text) (ok_inj (rw (f, parse_target) at h)) (
        refl,
        ap (λ r. b'@' ∷ target ++ r) (sym (optional_end_lem rest f)) ∙ sym text_is,
        (named, valid),
      )
      | inl f ↦ elim (Bool-cases (bytes_eq rest (codes "[]"))) [
        | inl g ↦ subst (Declares name text) (ok_inj (rw (f, parse_target, g) at h)) (
          refl,
          ap (λ r. b'@' ∷ target ++ r) (sym ((bytes_eq_iff rest (codes "[]")).0 g)) ∙ sym text_is,
          (named, valid),
        )
        | inr g ↦ absurd (refused (rw (f, parse_target, g) at h))
      ]
    ]
  where
    refused : {m : String} → ◌≡◌ {A = Result Property} (throw m) (ok p) → ⊥
    refused q = cc

parse_type_lem :
    (name text : Str) (found : Option (PrimitiveType × Bool)) {p : Property}
    → is_name name ≡ true
    → match_types primitive_types text ≡ found
    → parse_type name text found ≡ ok p
    → Declares name text p
unfolding parse_type
parse_type_lem name text none named e h =
    parse_target_lem name text (match_target text) named refl h
parse_type_lem name text (some (type, optional)) {p} named e h =
    elim (Bool-cases (is_json type && optional)) [
      | inl f ↦ absurd (refused (rw f at h))
      | inr f ↦
          subst (Declares name text) (ok_inj (rw f at h))
            (refl, sym (match_types_lem primitive_types text e), (named, f))
    ]
  where
    refused : {m : String} → ◌≡◌ {A = Result Property} (throw m) (ok p) → ⊥
    refused q = cc

parse_property_lem :
    (name text : Str) {p : Property} → parse_property name text ≡ ok p → Declares name text p
unfolding parse_property
parse_property_lem name text {p} h = elim (Bool-cases (is_name name)) [
  | inr e ↦ absurd (refused (rw e at h))
  | inl e ↦ elim (Bool-cases (bytes_eq text (codes "primary"))) [
    | inl f ↦
        subst (Declares name text) (ok_inj (rw (e, f) at h))
          (refl, sym ((bytes_eq_iff text (codes "primary")).0 f), e)
    | inr f ↦ parse_type_lem name text (match_types primitive_types text) e refl (rw (e, f) at h)
  ]
]
  where
    refused : {m : String} → ◌≡◌ {A = Result Property} (throw m) (ok p) → ⊥
    refused q = cc

-- A name and a text are parsed as a property exactly when the property has this name and prints as
-- this text, and can be declared: its name has only letters, digits and the signs of the pattern, a
-- JSON property is not optional, and a target has only lower-case letters, digits, dots and dashes.
pub parse_property_iff :
    (name text : Str) (p : Property) → (parse_property name text ≡ ok p) ↔ Declares name text p
parse_property_iff name text p = (
  parse_property_lem name text,
  λ d. ap₂ parse_property (sym d.0) (sym d.1) ∙ parse_property-print_property p d.2,
)
