-- ===== src/Key/Tests.antt =====
-- The difference of two vectors of key ids.
use ait_qkd.Prelude.{ℕ, ◌-◌, ◌≡◌, refl, List, [], ◌∷◌, arith}
use ait_qkd.Key.Sub.{sub, occurrences, sub-occurrences}

abbrev stored : List ℕ
stored = 2 ∷ 3 ∷ 3 ∷ 7 ∷ []

abbrev picked : List ℕ
picked = 1 ∷ 3 ∷ 7 ∷ []

sub-occurrences_example :
    occurrences 3 (sub stored picked) ≡ occurrences 3 stored - occurrences 3 picked
sub-occurrences_example =
    sub-occurrences 3 stored picked
      (
        (omega arith, (omega arith, (omega arith, tt))),
        ((omega arith, (omega arith, tt)), ((omega arith, tt), (tt, tt))),
      )
      ((omega arith, (omega arith, tt)), ((omega arith, tt), (tt, tt)))

sub_run : sub stored picked ≡ 2 ∷ 3 ∷ []
unfolding sub
sub_run = refl
