-- ===== src/FlatSet.antt =====
-- core/flat_set.h: the sorted vector with the interface of a set. `std::sort`, `std::unique`,
-- `std::lower_bound` and `std::binary_search` are the standard library's, on numbers.
pub mod Order
pub mod Member
pub mod Equal
mod Tests
use pto_fusebox.Base.{
  ℕ, suc, Bool, true, false, List, [], ◌∷◌, ◌++◌, ltb, ◌==◌, if◌then◌else◌, length, get_elem?,
  insert_at, erase_at, Option, none, some, not, ◌&&◌,
}

-- `v_`, the only field.
abbrev pub FlatSet : Type 0
FlatSet = List ℕ

-- `std::sort`: an equal element goes behind those that are there.
pub sort_insert : ℕ → List ℕ → List ℕ
sort_insert a [] = a ∷ []
sort_insert a (x ∷ xs) = if ltb a x then a ∷ x ∷ xs else x ∷ sort_insert a xs

pub sort : List ℕ → List ℕ
unfolding sort_insert
sort [] = []
sort (x ∷ xs) = sort_insert x (sort xs)

-- `std::unique` with `erase`: of equal neighbours the first stays.
pub unique_after : ℕ → List ℕ → List ℕ
unique_after a [] = []
unique_after a (x ∷ xs) = if a == x then unique_after a xs else x ∷ unique_after x xs

unfoldable pub unique : List ℕ → List ℕ
unfolding unique_after
unique [] = []
unique (x ∷ xs) = x ∷ unique_after x xs

-- The constructor from a range, and the one from an initializer list.
unfoldable pub of_range : List ℕ → FlatSet
unfolding sort unique
of_range xs = unique (sort xs)

-- `std::lower_bound`: the first position whose element is not less than `val`.
pub lower_bound : List ℕ → ℕ → ℕ
lower_bound [] val = 0
lower_bound (x ∷ xs) val = if ltb x val then suc (lower_bound xs val) else 0

-- `it != v_.end() && *it == val` at the position `it`.
abbrev pub holds_at : List ℕ → ℕ → ℕ → Bool
holds_at v it val = elim (get_elem? v it) [ none ↦ false | some x ↦ x == val ]

-- `std::binary_search`.
unfoldable pub count : FlatSet → ℕ → ℕ
unfolding lower_bound
count v val = if holds_at v (lower_bound v val) val then 1 else 0

-- The position of `val`, or `none` for `end()`.
unfoldable pub find : FlatSet → ℕ → Option ℕ
unfolding lower_bound
find v val = let it = lower_bound v val in if holds_at v it val then some it else none

-- The set after the call, the position of the element, and whether it is new.
pub record Inserted : Type 0 where
  pub set : FlatSet
  pub position : ℕ
  pub inserted : Bool

unfoldable pub insert : FlatSet → ℕ → Inserted
unfolding lower_bound
insert v val =
    let it = lower_bound v val in
    if holds_at v it val
    then record { set = v; position = it; inserted = false }
    else record { set = insert_at v it val; position = it; inserted = true }

unfoldable pub insert_range : FlatSet → List ℕ → FlatSet
unfolding sort unique
insert_range v xs = unique (sort (v ++ xs))

-- The set after the call, and the number of elements that were removed.
pub record Erased : Type 0 where
  pub set : FlatSet
  pub removed : ℕ

unfoldable pub erase : FlatSet → ℕ → Erased
unfolding lower_bound
erase v val =
    let it = lower_bound v val in
    if holds_at v it val
    then record { set = erase_at v it; removed = 1 }
    else record { set = v; removed = 0 }

-- `operator==`, which compares the vectors.
pub equal : FlatSet → FlatSet → Bool
equal [] [] = true
equal [] (y ∷ ys) = false
equal (x ∷ xs) [] = false
equal (x ∷ xs) (y ∷ ys) = x == y && equal xs ys

-- `operator<`, the lexicographic order of the vectors.
pub less : FlatSet → FlatSet → Bool
less [] [] = false
less [] (y ∷ ys) = true
less (x ∷ xs) [] = false
less (x ∷ xs) (y ∷ ys) = if ltb x y then true else if ltb y x then false else less xs ys
