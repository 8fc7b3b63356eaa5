-- ===== src/FlatSet/Member.antt =====
-- core/flat_set.h: lookup and the modifiers against membership in the abstract set.
use pto_fusebox.Base.{
  ℕ, ◌≤◌, ◌<◌, ◌≡◌, refl, ◌∙◌, false, not, ◌&&◌, ◌||◌, List, [], ◌∷◌, ◌++◌, arith, ltb, ◌==◌,
  if◌then◌else◌, All, elem, elem-append, get_elem?, some, length,
}
use pto_fusebox.FlatSet.{
  Inserted, Erased, FlatSet, sort_insert, sort, unique_after, unique, of_range, count, insert,
  insert_range, erase,
}
use pto_fusebox.FlatSet.Order.{IsSorted, All-lt_trans, of_range-IsSorted, insert_range-IsSorted}

-- The set after `insert`, written as one recursion.
abbrev add : ℕ → List ℕ → List ℕ
add val [] = val ∷ []
add val (x ∷ xs) = if ltb x val then x ∷ add val xs else if x == val then x ∷ xs else val ∷ x ∷ xs

-- The set after `erase`, written as one recursion.
abbrev remove : ℕ → List ℕ → List ℕ
remove val [] = []
remove val (x ∷ xs) = if ltb x val then x ∷ remove val xs else if x == val then xs else x ∷ xs

insert-add : (v : FlatSet) (val : ℕ) → (insert v val).set ≡ add val v
unfolding insert
insert-add [] val = refl
insert-add (x ∷ xs) val = ground (arith, insert-add xs val)

erase-remove : (v : FlatSet) (val : ℕ) → (erase v val).set ≡ remove val v
unfolding erase
erase-remove [] val = refl
erase-remove (x ∷ xs) val = ground (arith, erase-remove xs val)

pub elem-below : (x : ℕ) (xs : List ℕ) (a : ℕ) → All (λ y. x < y) xs → a ≤ x → elem xs a ≡ false
elem-below x [] a h p = refl
elem-below x (y ∷ ys) a h p = ground (arith, elem-below x ys a)

-- On a sorted vector `count` is 1 for an element and 0 for anything else.
pub count-elem : (v : FlatSet) (val : ℕ) → IsSorted v → count v val ≡ (if elem v val then 1 else 0)
unfolding count
count-elem [] val s = refl
count-elem (x ∷ xs) val s = ground (arith, count-elem xs val, elem-below x xs val)

All-add : (b val : ℕ) (v : List ℕ) → b < val → All (λ y. b < y) v → All (λ y. b < y) (add val v)
All-add b val [] h p = (h, tt)
All-add b val (x ∷ xs) h p = ground (arith, All-add b val xs)

add-IsSorted : (val : ℕ) (v : List ℕ) → IsSorted v → IsSorted (add val v)
add-IsSorted val [] s = (tt, tt)
add-IsSorted val (x ∷ xs) s =
    ground (arith, add-IsSorted val xs, All-add x val xs, All-lt_trans val x xs)

All-remove : (b val : ℕ) (v : List ℕ) → All (λ y. b < y) v → All (λ y. b < y) (remove val v)
All-remove b val [] p = tt
All-remove b val (x ∷ xs) p = ground (arith, All-remove b val xs)

remove-IsSorted : (val : ℕ) (v : List ℕ) → IsSorted v → IsSorted (remove val v)
remove-IsSorted val [] s = tt
remove-IsSorted val (x ∷ xs) s = ground (arith, remove-IsSorted val xs, All-remove x val xs)

pub insert-IsSorted : (v : FlatSet) (val : ℕ) → IsSorted v → IsSorted (insert v val).set
insert-IsSorted v val s = rw (insert-add v val) (add-IsSorted val v s)

pub erase-IsSorted : (v : FlatSet) (val : ℕ) → IsSorted v → IsSorted (erase v val).set
erase-IsSorted v val s = rw (erase-remove v val) (remove-IsSorted val v s)

elem-add : (val : ℕ) (v : List ℕ) (w : ℕ) → elem (add val v) w ≡ (w == val || elem v w)
elem-add val [] w = refl
elem-add val (x ∷ xs) w = ground (arith, elem-add val xs w)

elem-remove :
    (val : ℕ) (v : List ℕ) (w : ℕ)
    → IsSorted v
    → elem (remove val v) w ≡ (not (w == val) && elem v w)
elem-remove val [] w s = ground arith
elem-remove val (x ∷ xs) w s = ground (arith, elem-remove val xs w, elem-below x xs w)

pub elem-insert : (v : FlatSet) (val w : ℕ) → elem (insert v val).set w ≡ (w == val || elem v w)
elem-insert v val w = rw (insert-add v val) (elem-add val v w)

pub elem-erase :
    (v : FlatSet) (val w : ℕ) → IsSorted v → elem (erase v val).set w ≡ (not (w == val) && elem v w)
elem-erase v val w s = rw (erase-remove v val) (elem-remove val v w s)

elem-sort_insert : (a : ℕ) (xs : List ℕ) (w : ℕ) → elem (sort_insert a xs) w ≡ (w == a || elem xs w)
unfolding sort_insert
elem-sort_insert a [] w = refl
elem-sort_insert a (x ∷ xs) w = ground (arith, elem-sort_insert a xs w)

elem-sort : (xs : List ℕ) (w : ℕ) → elem (sort xs) w ≡ elem xs w
unfolding sort
elem-sort [] w = refl
elem-sort (x ∷ xs) w = ground (arith, elem-sort xs w, elem-sort_insert x (sort xs) w)

elem-unique_after :
    (a : ℕ) (xs : List ℕ) (w : ℕ) → (w == a || elem (unique_after a xs) w) ≡ (w == a || elem xs w)
unfolding unique_after
elem-unique_after a [] w = refl
elem-unique_after a (x ∷ xs) w = ground (arith, elem-unique_after a xs w, elem-unique_after x xs w)

pub elem-unique : (xs : List ℕ) (w : ℕ) → elem (unique xs) w ≡ elem xs w
unfolding unique
elem-unique [] w = refl
elem-unique (x ∷ xs) w = elem-unique_after x xs w

pub elem-of_range : (xs : List ℕ) (w : ℕ) → elem (of_range xs) w ≡ elem xs w
unfolding of_range
elem-of_range xs w = elem-unique (sort xs) w ∙ elem-sort xs w

pub elem-insert_range :
    (v : FlatSet) (xs : List ℕ) (w : ℕ) → elem (insert_range v xs) w ≡ (elem v w || elem xs w)
unfolding insert_range
elem-insert_range v xs w =
    elem-unique (sort (v ++ xs)) w ∙ elem-sort (v ++ xs) w ∙ elem-append v xs w

-- The flag of `insert` says whether the element was missing.
inserted-elem : (v : FlatSet) (val : ℕ) → IsSorted v → (insert v val).inserted ≡ not (elem v val)
unfolding insert
inserted-elem [] val s = refl
inserted-elem (x ∷ xs) val s = ground (arith, inserted-elem xs val, elem-below x xs val)

removed-elem :
    (v : FlatSet) (val : ℕ) → IsSorted v → (erase v val).removed ≡ (if elem v val then 1 else 0)
unfolding erase
removed-elem [] val s = refl
removed-elem (x ∷ xs) val s = ground (arith, removed-elem xs val, elem-below x xs val)

position-insert :
    (v : FlatSet) (val : ℕ) → get_elem? (insert v val).set (insert v val).position ≡ some val
unfolding insert
position-insert [] val = refl
position-insert (x ∷ xs) val = ground (arith, position-insert xs val)

-- What a call of `insert` promises of its result.
pub record InsertSpec (v : FlatSet) (val : ℕ) (r : Inserted) : Type 0 where
  pub sorted : IsSorted r.set
  pub members : (w : ℕ) → count r.set w ≡ (if w == val then 1 else count v w)
  pub placed : get_elem? r.set r.position ≡ some val
  pub flag : r.inserted ≡ (count v val == 0)

-- On a sorted vector, `insert` keeps it sorted, adds exactly the value to what `count` finds,
-- returns the position at which the value stands, and the flag says that it was missing before.
pub insert_lem : (v : FlatSet) (val : ℕ) → IsSorted v → InsertSpec v val (insert v val)
insert_lem v val s =
    let s' = insert-IsSorted v val s in
    record {
      sorted = s';
      members = λ w.
          ground (arith, count-elem (insert v val).set w s', count-elem v w s, elem-insert v val w);
      placed = position-insert v val;
      flag = ground (arith, count-elem v val s, inserted-elem v val s);
    }

-- What a call of `erase` promises of its result.
pub record EraseSpec (v : FlatSet) (val : ℕ) (r : Erased) : Type 0 where
  pub sorted : IsSorted r.set
  pub members : (w : ℕ) → count r.set w ≡ (if w == val then 0 else count v w)
  pub number : r.removed ≡ count v val

-- On a sorted vector, `erase` keeps it sorted, removes exactly the value from what `count` finds,
-- and returns how often the value was there.
pub erase_lem : (v : FlatSet) (val : ℕ) → IsSorted v → EraseSpec v val (erase v val)
erase_lem v val s =
    let s' = erase-IsSorted v val s in
    record {
      sorted = s';
      members = λ w.
          ground (arith, count-elem (erase v val).set w s', count-elem v w s, elem-erase v val w s);
      number = ground (arith, count-elem v val s, removed-elem v val s);
    }

-- The constructor from a range of any order, with repetitions, and the insertion of such a range
-- into any vector give a sorted vector, and `count` finds in it exactly the elements of the range
-- and of the vector.
pub range_lem :
    (v : FlatSet) (xs : List ℕ) (w : ℕ)
    → IsSorted (of_range xs)
      × IsSorted (insert_range v xs)
      × (count (of_range xs) w ≡ (if elem xs w then 1 else 0))
      × (count (insert_range v xs) w ≡ (if elem v w || elem xs w then 1 else 0))
range_lem v xs w =
    let s = of_range-IsSorted xs in
    let t = insert_range-IsSorted v xs in
    (
      s,
      t,
      rw (count-elem (of_range xs) w s, elem-of_range),
      rw (count-elem (insert_range v xs) w t, elem-insert_range),
    )

length-unique_after : (a : ℕ) (xs : List ℕ) → length (unique_after a xs) ≤ length xs
unfolding unique_after
length-unique_after a [] = omega arith
length-unique_after a (x ∷ xs) = ground (arith, length-unique_after a xs, length-unique_after x xs)

pub length-unique : (xs : List ℕ) → length (unique xs) ≤ length xs
unfolding unique
length-unique [] = omega arith
length-unique (x ∷ xs) = omega (arith, length-unique_after x xs)
