-- ===== src/FlatSet/Tests.antt =====
-- core/flat_set.h on small sets.
use pto_fusebox.Base.{ℕ, ◌≡◌, ◌↔◌, [], ◌∷◌, true, refl, arith, some, none}
use pto_fusebox.FlatSet.{FlatSet, of_range, count, find, insert, erase, equal}
use pto_fusebox.FlatSet.Member.{InsertSpec, insert_lem}
use pto_fusebox.FlatSet.Equal.{equal_iff}

abbrev sample : FlatSet
sample = 2 ∷ 5 ∷ 9 ∷ []

unsorted_range : of_range (5 ∷ 2 ∷ 9 ∷ 5 ∷ 2 ∷ []) ≡ sample
unfolding of_range
unsorted_range = refl

lookups : count sample 5 ∷ count sample 6 ∷ [] ≡ 1 ∷ 0 ∷ []
unfolding count
lookups = refl

found : find sample 9 ∷ find sample 3 ∷ [] ≡ some 2 ∷ none ∷ []
unfolding find
found = refl

inserted : (insert sample 6).set ≡ 2 ∷ 5 ∷ 6 ∷ 9 ∷ []
unfolding insert
inserted = refl

erased : (erase sample 5).set ≡ 2 ∷ 9 ∷ []
unfolding erase
erased = refl

insert_lem_example : InsertSpec sample 6 (insert sample 6)
insert_lem_example = insert_lem sample 6 (omega arith)

equal_iff_example :
    (equal sample (2 ∷ 5 ∷ []) ≡ true) ↔ ((a : ℕ) → count sample a ≡ count (2 ∷ 5 ∷ []) a)
equal_iff_example = equal_iff sample (2 ∷ 5 ∷ []) (omega arith) (omega arith)
