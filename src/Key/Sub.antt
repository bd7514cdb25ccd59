-- ===== src/Key/Sub.antt =====
-- `sub` of lib/key/key.cpp: the ids of one sorted vector that are not in another one.
use ait_qkd.Prelude.{
  ℕ, zero, suc, ◌+◌, ◌-◌, ◌≤◌, ◌<◌, ◌≡◌, refl, List, [], ◌∷◌, ltb, ◌==◌, if◌then◌else◌, length, All,
  All-map, arith,
}

-- The loop, on fuel: each round passes an id of either vector.
unfoldable pub sub_from : ℕ → List ℕ → List ℕ → List ℕ
sub_from zero lhs rhs = []
sub_from (suc fuel) [] rhs = []
sub_from (suc fuel) (l ∷ ls) [] = l ∷ sub_from fuel ls []
sub_from (suc fuel) (l ∷ ls) (r ∷ rs) =
    let equal = sub_from fuel ls rs in
    let less = sub_from fuel ls (r ∷ rs) in
    let greater = sub_from fuel (l ∷ ls) rs in
    if l == r then equal else if ltb l r then l ∷ less else greater

unfoldable pub sub : List ℕ → List ℕ → List ℕ
unfolding sub_from
sub lhs rhs = sub_from (length lhs + length rhs) lhs rhs

-- How often an id stands in a vector.
unfoldable pub occurrences : ℕ → List ℕ → ℕ
occurrences id [] = 0
occurrences id (k ∷ ks) = if id == k then suc (occurrences id ks) else occurrences id ks

abbrev pub IsSorted : List ℕ → Type 0
IsSorted [] = Unit
IsSorted (k ∷ ks) = All (λ m. k ≤ m) ks × IsSorted ks

occurrences-none : (id : ℕ) (ks : List ℕ) → All (λ m. id < m) ks → occurrences id ks ≡ 0
unfolding occurrences
occurrences-none id [] h = refl
occurrences-none id (k ∷ ks) h = ground (arith, occurrences-none id ks h.1, h.0)

above : (id k : ℕ) (ks : List ℕ) → id < k → All (λ m. k ≤ m) ks → occurrences id (k ∷ ks) ≡ 0
unfolding occurrences
above id k ks h s =
    ground (arith, h, occurrences-none id ks (All-map (λ m e. omega (arith, e, h)) ks s))

sub_from-occurrences :
    (fuel id : ℕ) (lhs rhs : List ℕ)
    → IsSorted lhs
    → IsSorted rhs
    → length lhs + length rhs ≤ fuel
    → occurrences id (sub_from fuel lhs rhs) ≡ occurrences id lhs - occurrences id rhs
unfolding sub_from occurrences
sub_from-occurrences zero id [] rhs s t f = omega arith
sub_from-occurrences zero id (l ∷ ls) rhs s t f = absurd (omega (arith, f))
sub_from-occurrences (suc fuel) id [] rhs s t f = omega arith
sub_from-occurrences (suc fuel) id (l ∷ ls) [] s t f =
    ground (arith, sub_from-occurrences fuel id ls [] s.1 t (omega (arith, f)))
sub_from-occurrences (suc fuel) id (l ∷ ls) (r ∷ rs) s t f = ground (
  arith,
  sub_from-occurrences fuel id ls rs s.1 t.1 (omega (arith, f)),
  sub_from-occurrences fuel id ls (r ∷ rs) s.1 t (omega (arith, f)),
  sub_from-occurrences fuel id (l ∷ ls) rs s t.1 (omega (arith, f)),
  above id r rs,
  above id l ls,
  s.0,
  t.0,
)

-- Of two sorted vectors, `sub` answers the difference: each id stands in it as often as in the first
-- one less the times that it stands in the second one. An id that the first one has more often than
-- the second one is therefore in the result although both have it.
pub sub-occurrences :
    (id : ℕ) (lhs rhs : List ℕ)
    → IsSorted lhs
    → IsSorted rhs
    → occurrences id (sub lhs rhs) ≡ occurrences id lhs - occurrences id rhs
unfolding sub
sub-occurrences id lhs rhs s t =
    sub_from-occurrences (length lhs + length rhs) id lhs rhs s t (omega arith)
