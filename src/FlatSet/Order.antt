-- ===== src/FlatSet/Order.antt =====
-- core/flat_set.h: every operation leaves the vector strictly ascending.
use pto_fusebox.Base.{ℕ, ◌≤◌, ◌<◌, List, [], ◌∷◌, ◌++◌, arith, ltb, ◌==◌, All, Bool-cases, inl, inr}
use pto_fusebox.FlatSet.{FlatSet, sort_insert, sort, unique_after, unique, of_range, insert_range}

-- Every element is larger than those before it.
abbrev pub IsSorted : List ℕ → Type 0
IsSorted [] = Unit
IsSorted (x ∷ xs) = All (λ y. x < y) xs × IsSorted xs

-- The elements ascend, with repetitions.
abbrev pub IsAscending : List ℕ → Type 0
IsAscending [] = Unit
IsAscending (x ∷ xs) = All (λ y. x ≤ y) xs × IsAscending xs

All-weaken : (x y : ℕ) (xs : List ℕ) → x ≤ y → All (λ z. y ≤ z) xs → All (λ z. x ≤ z) xs
All-weaken x y [] h a = tt
All-weaken x y (z ∷ xs) h a = (omega arith, All-weaken x y xs h a.1)

pub All-lt_trans : (x y : ℕ) (xs : List ℕ) → x < y → All (λ z. y < z) xs → All (λ z. x < z) xs
All-lt_trans x y [] h a = tt
All-lt_trans x y (z ∷ xs) h a = (omega arith, All-lt_trans x y xs h a.1)

All-sort_insert :
    (b a : ℕ) (xs : List ℕ) → b ≤ a → All (λ y. b ≤ y) xs → All (λ y. b ≤ y) (sort_insert a xs)
unfolding sort_insert
All-sort_insert b a [] h p = (h, tt)
All-sort_insert b a (x ∷ xs) h p = elim (Bool-cases (ltb a x)) [
  | inl e ↦ rw e (h, p)
  | inr e ↦ rw e (p.0, All-sort_insert b a xs h p.1)
]

sort_insert-IsAscending : (a : ℕ) (xs : List ℕ) → IsAscending xs → IsAscending (sort_insert a xs)
unfolding sort_insert
sort_insert-IsAscending a [] h = (tt, tt)
sort_insert-IsAscending a (x ∷ xs) h = elim (Bool-cases (ltb a x)) [
  | inl e ↦ rw e ((ground arith, All-weaken a x xs (ground arith) h.0), h)
  | inr e ↦ rw e (All-sort_insert x a xs (ground arith) h.0, sort_insert-IsAscending a xs h.1)
]

pub sort-IsAscending : (xs : List ℕ) → IsAscending (sort xs)
unfolding sort
sort-IsAscending [] = tt
sort-IsAscending (x ∷ xs) = sort_insert-IsAscending x (sort xs) (sort-IsAscending xs)

unique_after-IsSorted :
    (a : ℕ) (xs : List ℕ)
    → All (λ y. a ≤ y) xs
    → IsAscending xs
    → All (λ y. a < y) (unique_after a xs) × IsSorted (unique_after a xs)
unfolding unique_after
unique_after-IsSorted a [] p s = (tt, tt)
unique_after-IsSorted a (x ∷ xs) p s = elim (Bool-cases (a == x)) [
  | inl e ↦ rw e (unique_after-IsSorted a xs p.1 s.1)
  | inr e ↦
      let (above, sorted) = unique_after-IsSorted x xs s.0 s.1 in
      let a<x : a < x = ground arith in
      rw e ((a<x, All-lt_trans a x (unique_after x xs) a<x above), (above, sorted))
]

unique-IsSorted : (xs : List ℕ) → IsAscending xs → IsSorted (unique xs)
unfolding unique
unique-IsSorted [] s = tt
unique-IsSorted (x ∷ xs) s = unique_after-IsSorted x xs s.0 s.1

pub of_range-IsSorted : (xs : List ℕ) → IsSorted (of_range xs)
unfolding of_range
of_range-IsSorted xs = unique-IsSorted (sort xs) (sort-IsAscending xs)

pub insert_range-IsSorted : (v : FlatSet) (xs : List ℕ) → IsSorted (insert_range v xs)
unfolding insert_range
insert_range-IsSorted v xs = unique-IsSorted (sort (v ++ xs)) (sort-IsAscending (v ++ xs))
