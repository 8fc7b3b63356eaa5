-- ===== src/PairingHeap/Cut/Rest.antt =====
-- util/pairing_heap.h: after `cut` the nodes hold the two parts.
use pto_fusebox.Base.{
  ℕ, ◌+◌, ◌<◌, ◌≡◌, refl, sym, ap, ◌∙◌, subst, ◌≢◌, inl, inr, true, false, Option, none, some,
  arith, ◌==◌, if◌then◌else◌, Bool-cases, lt→ltb, ==_refl, ==-eq-false, Table,
}
use pto_fusebox.PairingHeap.{Node, is, bypass, cut}
use pto_fusebox.PairingHeap.Forest.{
  Forest, nil, node, head, tally, IsDistinct, not-head, cell, Laid, Laid-frame, Laid-moved,
}
use pto_fusebox.PairingHeap.Cut.{
  without, below, without_none, here, inside, beside, placed, cut_lem,
}

-- The index is no key of the trees.
abbrev pub IsOutside : Option ℕ → Forest → Type 0
IsOutside p f = (j : ℕ) → is p j ≡ true → tally f j ≡ 0

IsOutside-some : (k : ℕ) (f : Forest) → tally f k ≡ 0 → IsOutside (some k) f
IsOutside-some k f z j i = ground (arith, z)

module _ {Move : Type 0} where
  -- What a parent is after the first of the keys left it, if that is `a`; `rest` remains.
  abbrev passed : ℕ → (f rest : Forest) → Node Move → Node Move
  passed a f rest parent = if is (head f) a then bypass a (head rest) parent else parent

  passed-child :
      (a : ℕ) (f : Forest) (m : Move) (n p : Option ℕ)
      → passed a f (without a f) (cell m (head f) n p) ≡ cell m (head (without a f)) n p
  unfolding without
  passed-child a nil m n p = refl
  passed-child a (node k c s) m n p = elim (Bool-cases (k == a)) [
    | inl e ↦ rw e refl
    | inr e ↦ rw e refl
  ]

  passed-sibling :
      (a : ℕ) (f : Forest) (m : Move) (c p : Option ℕ)
      → is c a ≡ false
      → passed a f (without a f) (cell m c (head f) p) ≡ cell m c (head (without a f)) p
  unfolding without
  passed-sibling a nil m c p out = refl
  passed-sibling a (node k x s) m c p out = elim (Bool-cases (k == a)) [
    | inl e ↦ rw (e, out) refl
    | inr e ↦ rw e refl
  ]

  -- The nodes hold the trees without the key and the tree of the key; outside only the parent of
  -- the first key changes.
  pub record IsParted (a : ℕ) (moves : Table Move) (p : Option ℕ) (f remaining children : Forest)
      (before after : Table (Node Move)) : Type 0 where
    pub rest : Laid after moves p remaining
    pub part : Laid after moves none (node a children nil)
    pub outside :
        (j : ℕ)
        → tally f j ≡ 0
        → after j ≡ (if is p j then passed a f remaining (before j) else before j)

  cut_here :
      (a : ℕ) (c s : Forest) (nodes : Table (Node Move)) (moves : Table Move) (p : Option ℕ)
      → IsDistinct (node a c s)
      → IsOutside p (node a c s)
      → Laid nodes moves p (node a c s)
      → IsParted a moves p (node a c s) s c nodes (cut a nodes)
  unfolding tally
  cut_here a c s nodes moves p d o (e, lc, ls) =
      let self : (tally c a ≡ 0) × (tally s a ≡ 0) =
        let at = d a in ground (arith, at, ==_refl a) in
      let ne : (j : ℕ) → 0 < tally c j + tally s j → a ≢ j =
        λ j i q. absurd (let at = d j in ground (arith, at, q, ==_refl j)) in
      let off : (j : ℕ) → 0 < tally (node a c s) j → is p j ≡ false =
        λ j i. elim (Bool-cases (is p j)) [ inl y ↦ absurd (omega (arith, o j y)) | inr y ↦ y ] in
      let done =
        cut_lem a p (head s) nodes (ap (λ (z : Node Move). z.prev) e)
          (ap (λ (z : Node Move). z.next_sibling) e) (off a (ground (arith, ==_refl a)))
          (not-head s a self.1) (λ j i. not-head s j (omega (arith, o j i))) in
      record {
        rest =
            Laid-moved nodes (cut a nodes) moves (some a) p s (λ j. omega (arith, d j)) ls
              (λ j i. done.other j (ne j (omega arith)) (off j (omega arith)));
        part = (
          done.own ∙ ap (λ (z : Node Move). record z { prev = none; next_sibling = none }) e,
          Laid-frame nodes (cut a nodes) moves moves (some a) c lc (λ j i. (
            done.other j (ne j (omega arith)) (off j (omega arith))
                ∙ rw (not-head s j (omega (arith, d j))) refl,
            refl,
          )),
          tt,
        );
        outside = λ j z.
            let far : a ≢ j = λ q. absurd (ground (arith, z, q, ==_refl j)) in
            elim (Bool-cases (is p j)) [
              | inl y ↦ rw (y, ==_refl a) (done.parent j far y)
              | inr y ↦ rw y (done.other j far y ∙ rw (not-head s j (omega arith)) refl)
            ];
      }

  pub cut-IsParted :
      (a : ℕ) (f : Forest) (nodes : Table (Node Move)) (moves : Table Move) (p : Option ℕ)
      → tally f a ≡ 1
      → IsDistinct f
      → IsOutside p f
      → Laid nodes moves p f
      → IsParted a moves p f (without a f) (below a f) nodes (cut a nodes)
  unfolding tally without below
  cut-IsParted a nil nodes moves p h d o l = absurd (omega arith)
  cut-IsParted a (node k c s) nodes moves p h d o (e, lc, ls) = elim (placed a k c s h) [
    | here q zc zs ↦
        let same : (k == a) ≡ true = rw q (==_refl a) in
        rw same (
          subst
            (λ z.
              IsDistinct (node z c s)
              → IsOutside p (node z c s)
              → Laid nodes moves p (node z c s)
              → IsParted a moves p (node z c s) s c nodes (cut a nodes))
            (sym q) (cut_here a c s nodes moves p) d o (e, lc, ls))
    | inside ne one zs ↦
        let self : (tally c k ≡ 0) × (tally s k ≡ 0) =
          let at = d k in ground (arith, at, ==_refl k) in
        let far : (j : ℕ) → 0 < tally s j → k ≢ j =
          λ j i q. absurd (let at = d j in ground (arith, at, q, ==_refl j)) in
        let r =
          cut-IsParted a c nodes moves (some k) one (λ j. omega (arith, d j))
            (IsOutside-some k c self.0) lc in
        rw (==-eq-false k a ne, lt→ltb 0 (tally c a) (omega arith), without_none a s zs)
          (record {
            rest = (
              r.outside k self.0
                  ∙ rw (==_refl k)
                      (ap (passed a c (without a c)) e ∙ passed-child a c (moves k) (head s) p),
              r.rest,
              Laid-frame nodes (cut a nodes) moves moves (some k) s ls (λ j i.
                  (r.outside j (omega (arith, d j)) ∙ rw (==-eq-false k j (far j i)) refl, refl)),
            );
            part = r.part;
            outside = λ j z.
                let off : k ≢ j = λ q. absurd (ground (arith, z, q, ==_refl j)) in
                r.outside j (omega arith) ∙ rw (==-eq-false k j off) (ground arith);
          })
    | beside ne zc one ↦
        let self : (tally c k ≡ 0) × (tally s k ≡ 0) =
          let at = d k in ground (arith, at, ==_refl k) in
        let far : (j : ℕ) → 0 < tally c j → k ≢ j =
          λ j i q. absurd (let at = d j in ground (arith, at, q, ==_refl j)) in
        let r =
          cut-IsParted a s nodes moves (some k) one (λ j. omega (arith, d j))
            (IsOutside-some k s self.1) ls in
        rw (==-eq-false k a ne, zc, without_none a c zc)
          (record {
            rest = (
              r.outside k self.1
                  ∙ rw (==_refl k) (
                      ap (passed a s (without a s)) e
                      ∙ passed-sibling a s (moves k) (head c) p (not-head c a zc)),
              Laid-frame nodes (cut a nodes) moves moves (some k) c lc (λ j i.
                  (r.outside j (omega (arith, d j)) ∙ rw (==-eq-false k j (far j i)) refl, refl)),
              r.rest,
            );
            part = r.part;
            outside = λ j z.
                let off : k ≢ j = λ q. absurd (ground (arith, z, q, ==_refl j)) in
                r.outside j (omega arith) ∙ rw (==-eq-false k j off) (ground arith);
          })
  ]
