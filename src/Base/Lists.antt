-- ===== src/Base/Lists.antt =====
-- Lists under native indices, membership as a predicate by recursion, and the Boolean test for it.
use Prim.Native.Nat.{ℕ, zero, suc, ◌+◌, ◌-◌, ◌%◌, ◌≤◌, ◌<◌}
use mathlib.Core.Path.{◌≡◌, refl, sym, ap, ◌∙◌}
use mathlib.Core.Logic.{◌↔◌, ◌⊎◌, inl, inr}
use mathlib.Core.Bool.{Bool, true, false, ◌||◌}
use mathlib.Core.List.{List, [], ◌∷◌, ◌++◌}
use mathlib.Core.Option.{Option, none, some}
use native.Mathlib.Nat.{mod-eq_of_lt, mod-eq-sub-mod, zero-mod, sub_self}
use native.Mathlib.Omega.{arith}
use pto_fusebox.Base.Tests.{
  leb, if◌then◌else◌, ◌==◌, Bool-cases, eq_or_ne, lt_or_ge, le→leb, above_leb,
}

module _ {ℓ} {A : Type ℓ} where
  abbrev pub length : List A → ℕ
  length [] = 0
  length (x ∷ xs) = suc (length xs)

  abbrev pub get_elem? : List A → ℕ → Option A
  get_elem? [] i = none
  get_elem? (x ∷ xs) zero = some x
  get_elem? (x ∷ xs) (suc i) = get_elem? xs i

  abbrev pub get_or : List A → ℕ → A → A
  get_or [] i d = d
  get_or (x ∷ xs) zero d = x
  get_or (x ∷ xs) (suc i) d = get_or xs i d

  -- `v.insert(v.begin() + i, a)`.
  abbrev pub insert_at : List A → ℕ → A → List A
  insert_at xs zero a = a ∷ xs
  insert_at [] (suc i) a = []
  insert_at (x ∷ xs) (suc i) a = x ∷ insert_at xs i a

  -- `v.erase(v.begin() + i)`.
  abbrev pub erase_at : List A → ℕ → List A
  erase_at [] i = []
  erase_at (x ∷ xs) zero = xs
  erase_at (x ∷ xs) (suc i) = x ∷ erase_at xs i

  pub length-append : (xs ys : List A) → length (xs ++ ys) ≡ length xs + length ys
  length-append [] ys = omega arith
  length-append (x ∷ xs) ys = omega (arith, length-append xs ys)

  pub List-cases : (xs : List A) → (xs ≡ []) ⊎ ((x : A) × (rest : List A) × (xs ≡ x ∷ rest))
  List-cases [] = inl refl
  List-cases (x ∷ xs) = inr (x, xs, refl)

abbrev pub In : {A : Type 0} → A → List A → Type 0
In a [] = ⊥
In a (x ∷ xs) = (a ≡ x) ⊎ In a xs

-- Every element satisfies the predicate.
abbrev pub All {ℓ κ} : {A : Type ℓ} → (A → Type κ) → List A → Type κ
All P [] = Unit
All P (x ∷ xs) = P x × All P xs

module _ {A : Type 0} where
  pub In-append : (a : A) (xs ys : List A) → In a (xs ++ ys) ↔ (In a xs ⊎ In a ys)
  In-append a [] ys = (inr, elim [ inl e ↦ elim e [ ] | inr m ↦ m ])
  In-append a (x ∷ xs) ys = ground (arith, In-append a xs ys)

  pub All-In {κ} : (P : A → Type κ) (xs : List A) (a : A) → All P xs → In a xs → P a
  All-In P (x ∷ xs) a h (inl e) = rw e h.0
  All-In P (x ∷ xs) a h (inr m) = All-In P xs a h.1 m
  All-In P [] a h m = elim m [ ]

  pub All-of {κ} : (P : A → Type κ) (xs : List A) → ((a : A) → In a xs → P a) → All P xs
  All-of P [] h = tt
  All-of P (x ∷ xs) h = (h x (inl refl), All-of P xs (λ a m. h a (inr m)))

-- `std::find(v.begin(), v.end(), a) != v.end()` on numbers.
abbrev pub elem : List ℕ → ℕ → Bool
elem [] a = false
elem (x ∷ xs) a = a == x || elem xs a

pub elem_iff : (xs : List ℕ) (a : ℕ) → (elem xs a ≡ true) ↔ In a xs
elem_iff [] a = (λ e. cc, λ m. elim m [ ])
elem_iff (x ∷ xs) a = ground (arith, elem_iff xs a)

pub elem-append : (xs ys : List ℕ) (a : ℕ) → elem (xs ++ ys) a ≡ (elem xs a || elem ys a)
elem-append [] ys a = refl
elem-append (x ∷ xs) ys a = ground (arith, elem-append xs ys a)

-- `std::any_of`.
abbrev pub any : (ℕ → Bool) → List ℕ → Bool
any p [] = false
any p (x ∷ xs) = p x || any p xs

pub any_find :
    (p : ℕ → Bool) (xs : List ℕ) → any p xs ≡ true → (w : ℕ) × (elem xs w ≡ true) × (p w ≡ true)
any_find p [] h = cc
any_find p (x ∷ xs) h = elim (Bool-cases (p x)) [
  | inl e ↦ (x, ground arith, e)
  | inr e ↦ let (w, m, q) = any_find p xs (ground arith) in (w, ground arith, q)
]

pub any_intro :
    (p : ℕ → Bool) (xs : List ℕ) (w : ℕ) → elem xs w ≡ true → p w ≡ true → any p xs ≡ true
any_intro p [] w m q = cc
any_intro p (x ∷ xs) w m q = elim (eq_or_ne w x) [
  | inl e ↦ ground (arith, ap p e)
  | inr e ↦ ground (arith, any_intro p xs w)
]

pub any_cong :
    (p q : ℕ → Bool) (xs : List ℕ) → ((w : ℕ) → elem xs w ≡ true → p w ≡ q w) → any p xs ≡ any q xs
any_cong p q [] h = refl
any_cong p q (x ∷ xs) h = ground (arith, h x, any_cong p q xs (λ w m. h w (ground arith)))

-- Two lists have a common element.
pub any_swap : (xs ys : List ℕ) → any (λ x. elem ys x) xs ≡ any (λ y. elem xs y) ys
any_swap xs ys = elim (Bool-cases (any (λ x. elem ys x) xs)) [
  | inl e ↦
      let (w, m, n) = any_find (λ x. elem ys x) xs e in
      ground (arith, any_intro (λ y. elem xs y) ys w n m)
  | inr e ↦ elim (Bool-cases (any (λ y. elem xs y) ys)) [
    | inl f ↦
        let (w, m, n) = any_find (λ y. elem xs y) ys f in
        ground (arith, any_intro (λ x. elem ys x) xs w n m)
    | inr f ↦ ground arith
  ]
]

-- The values of `for (x = first; x <= last; x += step)`.
unfoldable pub range_by : ℕ → ℕ → ℕ → ℕ → List ℕ
range_by zero first last step = []
range_by (suc fuel) first last step =
    let rest = range_by fuel (first + step) last step in if leb first last then first ∷ rest else []

-- Among the values from `first` on in steps, those after `first` are those from `first + step` on.
range_by_step :
    (first step x : ℕ)
    → 0 < step
    → first < x
    → ((first + step ≤ x) × ((x - (first + step)) % step ≡ 0)) ↔ ((x - first) % step ≡ 0)
range_by_step first step x s lt = elim (lt_or_ge (x - first) step) [
  | inl near ↦ ground (arith, mod-eq_of_lt near)
  | inr far ↦
      let less : x - (first + step) ≡ x - first - step = omega arith in
      let same : (x - (first + step)) % step ≡ (x - first) % step =
        ap (λ z. z % step) less ∙ sym (mod-eq-sub-mod far) in
      (λ (_, e). sym same ∙ e, λ e. (omega arith, same ∙ e))
]

pub In-range_by :
    (fuel first last step x : ℕ)
    → 0 < step
    → last < first + fuel
    → In x (range_by fuel first last step) ↔ ((first ≤ x) × (x ≤ last) × ((x - first) % step ≡ 0))
unfolding range_by
In-range_by zero first last step x s f = (λ m. elim m [ ], λ (lo, hi, e). absurd (omega arith))
In-range_by (suc fuel) first last step x s f =
    let rec = In-range_by fuel (first + step) last step x s (omega arith) in
    elim (lt_or_ge last first) [
      | inl lt ↦ rw (above_leb first last lt) (λ m. elim m [ ], λ (lo, hi, e). absurd (omega arith))
      | inr le ↦ rw (le→leb first last le) (
        elim [
          | inl e ↦ (omega (arith, e), omega (arith, e), rw (e, sub_self first) (zero-mod step))
          | inr m ↦
              let (lo, hi, e) = rec.0 m in
              (omega arith, hi, (range_by_step first step x s (omega arith)).0 (lo, e))
        ],
        λ (lo, hi, e). elim (eq_or_ne x first) [
          | inl f ↦ inl f
          | inr ne ↦
              let (lo, g) = (range_by_step first step x s (omega arith)).1 e in
              inr (rec.1 (lo, hi, g))
        ],
      )
    ]

abbrev pub IsAscending : List ℕ → Type 0
IsAscending [] = Unit
IsAscending (x ∷ xs) = All (λ y. x ≤ y) xs × IsAscending xs

pub range_by-IsAscending :
    (fuel first last step : ℕ)
    → 0 < step
    → last < first + fuel
    → IsAscending (range_by fuel first last step)
unfolding range_by
range_by-IsAscending zero first last step s f = tt
range_by-IsAscending (suc fuel) first last step s f = elim (lt_or_ge last first) [
  | inl lt ↦ rw (above_leb first last lt) tt
  | inr le ↦ rw (le→leb first last le) (
    All-of _ (range_by fuel (first + step) last step) (λ y i.
        omega (arith, ((In-range_by fuel (first + step) last step y s (omega arith)).0 i).0)),
    range_by-IsAscending fuel (first + step) last step s (omega arith),
  )
]
