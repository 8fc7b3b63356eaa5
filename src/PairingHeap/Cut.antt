-- ===== src/PairingHeap/Cut.antt =====
-- util/pairing_heap.h, `cut`: a key and all below it leave the tree in which it is no root.
pub mod Rest
use pto_fusebox.Base.{
  ℕ, zero, suc, ◌+◌, ◌-◌, ◌*◌, ◌/◌, ◌%◌, ◌≤◌, ◌<◌, min, max, ◌≡◌, refl, sym, ap, ◌∙◌, subst,
  fun_ext, ◌≢◌, ◌↔◌, ◌⊎◌, inl, inr, Bool, true, false, not, ◌&&◌, ◌||◌, Option, none, some, List,
  [], ◌∷◌, ◌++◌, map, arith, ltb, leb, ◌==◌, if◌then◌else◌, Bool-cases, Option-cases, eq_or_ne,
  lt_or_ge, ◌^◌, ◌>>=◌, >>=-some, ltb→lt, lt→ltb, leb→le, le→leb, above_leb, ltb_of_zero,
  true_or_false, ==→eq, ==_refl, ==-eq-false, length, get_elem?, get_or, length-append, List-cases,
  All, elem, elem-append, In, All-In, range_by, In-range_by, IsAscending, range_by-IsAscending, any,
  any_find, any_intro, any_cong, Table, put,
}
use pto_fusebox.PairingHeap.{Node, is, set_prev, bypass, set_parent, cut}
use pto_fusebox.PairingHeap.Forest.{
  Forest, nil, node, head, tally, IsDistinct, tally-head, not-head, cell, Laid, Laid-frame,
  Laid-moved, Under, IsOrdered,
}

-- The trees without the key and what is below it, and what is below it.
unfoldable pub without : ℕ → Forest → Forest
without a nil = nil
without a (node k c s) = if k == a then s else node k (without a c) (without a s)

unfoldable pub below : ℕ → Forest → Forest
below a nil = nil
below a (node k c s) = if k == a then c else if ltb 0 (tally c a) then below a c else below a s

pub without_none : (a : ℕ) (f : Forest) → tally f a ≡ 0 → without a f ≡ f
unfolding without tally
without_none a nil z = refl
without_none a (node k c s) z = elim (eq_or_ne k a) [
  | inl e ↦ absurd (ground arith)
  | inr ne ↦
      rw (==-eq-false k a ne, without_none a c (omega arith), without_none a s (omega arith)) refl
]

-- Where a key that stands once stands.
pub data Place (a : ℕ) (k : ℕ) (c s : Forest) : Type 0 where
  here : k ≡ a → tally c a ≡ 0 → tally s a ≡ 0 → Place a k c s
  inside : k ≢ a → tally c a ≡ 1 → tally s a ≡ 0 → Place a k c s
  beside : k ≢ a → tally c a ≡ 0 → tally s a ≡ 1 → Place a k c s

pub placed : (a k : ℕ) (c s : Forest) → tally (node k c s) a ≡ 1 → Place a k c s
unfolding tally
placed a k c s h = elim (eq_or_ne k a) [
  | inl e ↦ here e (ground (arith, ==_refl a)) (ground (arith, ==_refl a))
  | inr ne ↦
      let sum : tally c a + tally s a ≡ 1 = ground (arith, ==-eq-false k a ne) in
      elim (lt_or_ge 0 (tally c a)) [
        | inl lt ↦ inside ne (omega arith) (omega arith)
        | inr le ↦ beside ne (omega arith) (omega arith)
      ]
]

pub tally-without :
    (a : ℕ) (f : Forest) (j : ℕ)
    → tally f a ≡ 1
    → tally (without a f) j + tally (node a (below a f) nil) j ≡ tally f j
unfolding tally without below
tally-without a nil j h = absurd (omega arith)
tally-without a (node k c s) j h = elim (placed a k c s h) [
  | here e zc zs ↦ rw (e, ==_refl a) (omega arith)
  | inside ne one zs ↦
      let rec = tally-without a c j one in
      rw (==-eq-false k a ne, lt→ltb 0 (tally c a) (omega arith), without_none a s zs) (omega arith)
  | beside ne zc one ↦
      let rec = tally-without a s j one in
      rw (==-eq-false k a ne, zc, without_none a c zc) (omega arith)
]

module _ {Move : Type 0} where
  -- The nodes after `cut`: the key's own, its parent, and the next sibling change.
  pub record IsCut (a : ℕ) (p n : Option ℕ) (before after : Table (Node Move)) : Type 0 where
    pub own : after a ≡ record (before a) { prev = none; next_sibling = none }
    pub parent : (j : ℕ) → a ≢ j → is p j ≡ true → after j ≡ bypass a n (before j)
    pub other :
        (j : ℕ)
        → a ≢ j
        → is p j ≡ false
        → after j ≡ (if is n j then record (before j) { prev = p } else before j)

  pub cut_lem :
      (a : ℕ) (p n : Option ℕ) (nodes : Table (Node Move))
      → (nodes a).prev ≡ p
      → (nodes a).next_sibling ≡ n
      → is p a ≡ false
      → is n a ≡ false
      → ((j : ℕ) → is p j ≡ true → is n j ≡ false)
      → IsCut a p n nodes (cut a nodes)
  unfolding cut
  cut_lem a none none nodes ep en fp fn apart = record {
    own = ground (arith, ==_refl a);
    parent = λ j ne i. cc;
    other = λ j ne i. ground (arith, ==-eq-false a j);
  }
  cut_lem a (some p) none nodes ep en fp fn apart = record {
    own = ground (arith, ==_refl a);
    parent = λ j ne i. ground (arith, ==-eq-false a j);
    other = λ j ne i. ground (arith, ==-eq-false a j);
  }
  cut_lem a none (some n) nodes ep en fp fn apart = record {
    own = ground (arith, ==_refl a);
    parent = λ j ne i. cc;
    other = λ j ne i. ground (arith, ==-eq-false a j);
  }
  cut_lem a (some p) (some n) nodes ep en fp fn apart =
      let ne : (p == n) ≡ false = ground (arith, apart p, ==_refl p) in
      record {
        own = ground (arith, ==_refl a);
        parent = λ j nj i. ground (arith, ==-eq-false a j);
        other = λ j nj i. ground (arith, ==-eq-false a j);
      }

  module _ (above : Move → Move → Bool) (moves : Table Move) where
    pub without-Under :
        (a : ℕ) (m : Move) (f : Forest) → Under above moves m f → Under above moves m (without a f)
    unfolding without
    without-Under a m nil u = tt
    without-Under a m (node k c s) (e, us) = elim (eq_or_ne k a) [
      | inl q ↦ rw (q, ==_refl a) us
      | inr ne ↦ rw (==-eq-false k a ne) (e, without-Under a m s us)
    ]

    pub without-IsOrdered :
        (a : ℕ) (f : Forest) → IsOrdered above moves f → IsOrdered above moves (without a f)
    unfolding without
    without-IsOrdered a nil o = tt
    without-IsOrdered a (node k c s) (u, oc, os) = elim (eq_or_ne k a) [
      | inl q ↦ rw (q, ==_refl a) os
      | inr ne ↦
          rw (==-eq-false k a ne)
            (without-Under a (moves k) c u, without-IsOrdered a c oc, without-IsOrdered a s os)
    ]

    pub below-IsOrdered :
        (a : ℕ) (f : Forest)
        → tally f a ≡ 1
        → IsOrdered above moves f
        → IsOrdered above moves (node a (below a f) nil)
    unfolding below tally
    below-IsOrdered a nil h o = absurd (omega arith)
    below-IsOrdered a (node k c s) h (u, oc, os) = elim (placed a k c s h) [
      | here e zc zs ↦ rw (sym e, ==_refl k) (u, oc, tt)
      | inside ne one zs ↦
          rw (==-eq-false k a ne, lt→ltb 0 (tally c a) (omega arith)) (below-IsOrdered a c one oc)
      | beside ne zc one ↦ rw (==-eq-false k a ne, zc) (below-IsOrdered a s one os)
    ]
