-- ===== src/Gossip/Mempool/Tests.antt =====
-- A message that waits for one parent, and one that waits for two.
use canvas.Base.{ℕ, true, ◌≡◌, refl, arith, [], ◌∷◌, Str, ok, bytes_eq, if◌then◌else◌}
use canvas.Base.Maps.{has, lookup, delete, put, add}
use canvas.Gossip.Mempool.{Mempool, empty, add_child, add_children, insert, observe}
use canvas.Gossip.Mempool.Laws.{parents, children, IsConsistent, insert-IsConsistent}
use canvas.Gossip.Mempool.Observe.{ready_all, observe_lem}

empty-IsConsistent : IsConsistent (empty {T = ℕ})
unfolding lookup has
empty-IsConsistent = record {
  agree = λ p c. refl;
  valued = λ c. refl;
  distinct = λ p. tt;
  waits = λ c h. ground arith;
}

abbrev one : Mempool ℕ
one = insert (1 ∷ []) 10 ((7 ∷ []) ∷ []) empty

one-IsConsistent : IsConsistent one
unfolding lookup has
one-IsConsistent =
    (insert-IsConsistent (1 ∷ []) 10 ((7 ∷ []) ∷ []) (empty {T = ℕ}) empty-IsConsistent
      (λ h. ground arith) (λ p h. ground arith)).0

abbrev two : Mempool ℕ
two = insert (2 ∷ []) 20 ((7 ∷ []) ∷ (8 ∷ []) ∷ []) one

none_waiting :
    (p : Str) → has p (parents one (2 ∷ [])) ≡ true → has p ((7 ∷ []) ∷ (8 ∷ []) ∷ []) ≡ true
unfolding has put lookup bytes_eq insert
none_waiting p h = absurd (ground arith)

insert-IsConsistent_example :
    IsConsistent two
    × ((c : Str)
        → parents two c ≡ (if bytes_eq (2 ∷ []) c then (7 ∷ []) ∷ (8 ∷ []) ∷ [] else parents one c))
insert-IsConsistent_example =
    insert-IsConsistent (2 ∷ []) 20 ((7 ∷ []) ∷ (8 ∷ []) ∷ []) one one-IsConsistent
      (λ h. ground arith) none_waiting

two-IsConsistent : IsConsistent two
two-IsConsistent =
    (insert-IsConsistent (2 ∷ []) 20 ((7 ∷ []) ∷ (8 ∷ []) ∷ []) one one-IsConsistent
      (λ h. ground arith) none_waiting).0

-- The first is released; the second waits on.
observe_two : ready_all (7 ∷ []) two (children two (7 ∷ [])) ≡ (1 ∷ [], 10) ∷ []
unfolding ready_all insert lookup put add_child add_children bytes_eq add delete
observe_two = refl

observe_lem_example :
    (m' : Mempool ℕ) × (observe (7 ∷ []) two
      ≡ ok (ready_all (7 ∷ []) two (children two (7 ∷ [])), m'))
    × IsConsistent m'
    × ((d : Str) → parents m' d ≡ delete (7 ∷ []) (parents two d))
    × (children m' (7 ∷ []) ≡ [])
observe_lem_example = observe_lem (7 ∷ []) two two-IsConsistent
