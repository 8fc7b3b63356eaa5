-- ===== src/FlatSet/Equal.antt =====
-- core/flat_set.h: the comparisons. Vectors that are sorted represent their sets uniquely.
use pto_fusebox.Base.{ℕ, ◌≡◌, ◌↔◌, refl, ap, true, false, [], ◌∷◌, arith, elem}
use pto_fusebox.FlatSet.{FlatSet, equal, less, count}
use pto_fusebox.FlatSet.Order.{IsSorted}
use pto_fusebox.FlatSet.Member.{elem-below, count-elem}

equal_sound : (v w : FlatSet) → equal v w ≡ true → v ≡ w
unfolding equal
equal_sound [] [] h = refl
equal_sound [] (y ∷ ys) h = cc
equal_sound (x ∷ xs) [] h = cc
equal_sound (x ∷ xs) (y ∷ ys) h = ground (arith, equal_sound xs ys)

equal_refl : (v : FlatSet) → equal v v ≡ true
unfolding equal
equal_refl [] = refl
equal_refl (x ∷ xs) = ground (arith, equal_refl xs)

-- Sorted vectors with the same elements are the same vector.
elem_ext : (v w : FlatSet) → IsSorted v → IsSorted w → ((a : ℕ) → elem v a ≡ elem w a) → v ≡ w
elem_ext [] [] s t h = refl
elem_ext [] (y ∷ ys) s t h = ground (arith, h y)
elem_ext (x ∷ xs) [] s t h = ground (arith, h x)
elem_ext (x ∷ xs) (y ∷ ys) s t h =
    let heads : x ≡ y = ground (arith, h x, h y, elem-below x xs y, elem-below y ys x) in
    let rests : xs ≡ ys =
      elem_ext xs ys s.1 t.1 (λ a. ground (arith, h a, elem-below x xs a, elem-below y ys a)) in
    cc

-- On sorted vectors `operator==` holds exactly when `count` agrees on every value.
pub equal_iff :
    (v w : FlatSet)
    → IsSorted v
    → IsSorted w
    → (equal v w ≡ true) ↔ ((a : ℕ) → count v a ≡ count w a)
equal_iff v w s t = (
  λ e a. ap (λ u. count u a) (equal_sound v w e),
  λ h.
      let same = elem_ext v w s t (λ a. ground (arith, h a, count-elem v a s, count-elem w a t)) in
      rw same (equal_refl w),
)

less_irrefl : (v : FlatSet) → less v v ≡ false
unfolding less
less_irrefl [] = refl
less_irrefl (x ∷ xs) = ground (arith, less_irrefl xs)

less_trans : (u v w : FlatSet) → less u v ≡ true → less v w ≡ true → less u w ≡ true
unfolding less
less_trans [] [] w p q = cc
less_trans [] (y ∷ ys) [] p q = cc
less_trans [] (y ∷ ys) (z ∷ zs) p q = refl
less_trans (x ∷ xs) [] w p q = cc
less_trans (x ∷ xs) (y ∷ ys) [] p q = cc
less_trans (x ∷ xs) (y ∷ ys) (z ∷ zs) p q = ground (arith, less_trans xs ys zs)

less_total : (v w : FlatSet) → less v w ≡ false → less w v ≡ false → equal v w ≡ true
unfolding less equal
less_total [] [] p q = refl
less_total [] (y ∷ ys) p q = cc
less_total (x ∷ xs) [] p q = cc
less_total (x ∷ xs) (y ∷ ys) p q = ground (arith, less_total xs ys)

-- `operator<` is a strict total order whose equality is `operator==`, so sets can be map keys.
pub less_order :
    (u v w : FlatSet)
    → (less u u ≡ false)
      × (less u v ≡ true → less v w ≡ true → less u w ≡ true)
      × (less u v ≡ false → less v u ≡ false → equal u v ≡ true)
less_order u v w = (less_irrefl u, less_trans u v w, less_total u v)
