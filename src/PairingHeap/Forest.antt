-- ===== src/PairingHeap/Forest.antt =====
-- What the nodes of util/pairing_heap.h stand for: trees under the first-child and next-sibling
-- indices.
use pto_fusebox.Base.{
  ℕ, ◌+◌, ◌≤◌, ◌<◌, ◌≡◌, refl, sym, inl, inr, Bool, true, false, Option, none, some, arith, ◌==◌,
  if◌then◌else◌, eq_or_ne, lt_or_ge, Table,
}
use pto_fusebox.PairingHeap.{Node, is}

-- A list of trees: the first tree's key and children, and the further trees.
pub data Forest : Type 0 where
  nil : Forest
  node : ℕ → Forest → Forest → Forest

abbrev pub head : Forest → Option ℕ
head nil = none
head (node k c s) = some k

-- How often the key stands in the trees.
unfoldable pub tally : Forest → ℕ → ℕ
tally nil j = 0
tally (node k c s) j = (if k == j then 1 else 0) + (tally c j + tally s j)

abbrev pub IsDistinct : Forest → Type 0
IsDistinct f = (j : ℕ) → tally f j ≤ 1

-- Where the heads are among the keys.
pub tally-head : (f : Forest) (j : ℕ) → is (head f) j ≡ true → 0 < tally f j
unfolding tally
tally-head nil j h = cc
tally-head (node k c s) j h = ground arith

pub not-head : (f : Forest) (j : ℕ) → tally f j ≡ 0 → is (head f) j ≡ false
unfolding tally
not-head nil j h = refl
not-head (node k c s) j h = ground arith

module _ {Move : Type 0} where
  abbrev pub cell : Move → Option ℕ → Option ℕ → Option ℕ → Node Move
  cell m c n p = record { move = m; child = c; next_sibling = n; prev = p }

  -- The nodes hold the trees as one list of siblings, whose first has `p` before it.
  abbrev pub Laid : Table (Node Move) → Table Move → Option ℕ → Forest → Type 0
  Laid nodes moves p nil = Unit
  Laid nodes moves p (node k c s) =
      (nodes k ≡ cell (moves k) (head c) (head s) p)
      × Laid nodes moves (some k) c
      × Laid nodes moves (some k) s

  -- Nothing outside the trees decides it.
  pub Laid-frame :
      (nodes nodes' : Table (Node Move)) (moves moves' : Table Move) (p : Option ℕ) (f : Forest)
      → Laid nodes moves p f
      → ((j : ℕ) → 0 < tally f j → (nodes' j ≡ nodes j) × (moves' j ≡ moves j))
      → Laid nodes' moves' p f
  unfolding tally
  Laid-frame nodes nodes' moves moves' p nil l same = tt
  Laid-frame nodes nodes' moves moves' p (node k c s) (e, lc, ls) same = (
    (let (a, b) = same k (ground arith) in rw (a, b) e),
    Laid-frame nodes nodes' moves moves' (some k) c lc (λ j i. same j (omega arith)),
    Laid-frame nodes nodes' moves moves' (some k) s ls (λ j i. same j (omega arith)),
  )

  -- A new index before the first one.
  pub Laid-moved :
      (nodes nodes' : Table (Node Move)) (moves : Table Move) (p q : Option ℕ) (f : Forest)
      → IsDistinct f
      → Laid nodes moves p f
      → ((j : ℕ)
          → 0 < tally f j
          → nodes' j ≡ (if is (head f) j then record (nodes j) { prev = q } else nodes j))
      → Laid nodes' moves q f
  unfolding tally
  Laid-moved nodes nodes' moves p q nil d l same = tt
  Laid-moved nodes nodes' moves p q (node k c s) d (e, lc, ls) same = (
    ground (arith, same k),
    Laid-frame nodes nodes' moves moves (some k) c lc (λ j i. (ground (arith, same j, d j), refl)),
    Laid-frame nodes nodes' moves moves (some k) s ls (λ j i. (ground (arith, same j, d j), refl)),
  )

  module _ (above : Move → Move → Bool) where
    -- No tree's root is above `m`.
    abbrev pub Under : Table Move → Move → Forest → Type 0
    Under moves m nil = Unit
    Under moves m (node k c s) = (above (moves k) m ≡ false) × Under moves m s

    abbrev pub IsOrdered : Table Move → Forest → Type 0
    IsOrdered moves nil = Unit
    IsOrdered moves (node k c s) = Under moves (moves k) c × IsOrdered moves c × IsOrdered moves s

    pub Under-frame :
        (moves moves' : Table Move) (m : Move) (f : Forest)
        → Under moves m f
        → ((j : ℕ) → 0 < tally f j → moves' j ≡ moves j)
        → Under moves' m f
    unfolding tally
    Under-frame moves moves' m nil u same = tt
    Under-frame moves moves' m (node k c s) (e, us) same = (
      rw (same k (ground arith)) e,
      Under-frame moves moves' m s us (λ j i. same j (omega arith)),
    )

    pub IsOrdered-frame :
        (moves moves' : Table Move) (f : Forest)
        → IsOrdered moves f
        → ((j : ℕ) → 0 < tally f j → moves' j ≡ moves j)
        → IsOrdered moves' f
    unfolding tally
    IsOrdered-frame moves moves' nil o same = tt
    IsOrdered-frame moves moves' (node k c s) (u, oc, os) same = (
      rw (same k (ground arith))
          (Under-frame moves moves' (moves k) c u (λ j i. same j (omega arith))),
      IsOrdered-frame moves moves' c oc (λ j i. same j (omega arith)),
      IsOrdered-frame moves moves' s os (λ j i. same j (omega arith)),
    )

    -- What the comparison of doubles that are numbers satisfies: a strict weak order.
    pub record IsOrder : Type 0 where
      pub asym : (x y : Move) → above x y ≡ true → above y x ≡ false
      pub trans : (x y z : Move) → above x y ≡ false → above y z ≡ false → above x z ≡ false

    module _ (order : IsOrder) where
      pub Under-trans :
          (moves : Table Move) (x y : Move) (f : Forest)
          → Under moves x f
          → above x y ≡ false
          → Under moves y f
      Under-trans moves x y nil u e = tt
      Under-trans moves x y (node k c s) (h, us) e =
          (order.trans (moves k) x y h e, Under-trans moves x y s us e)

      -- In ordered trees whose roots are not above `m` no key is.
      pub Under-all :
          (moves : Table Move) (m : Move) (f : Forest)
          → Under moves m f
          → IsOrdered moves f
          → (j : ℕ) → 0 < tally f j
          → above (moves j) m ≡ false
      unfolding tally
      Under-all moves m nil u o j i = absurd (omega arith)
      Under-all moves m (node k c s) (h, us) (uc, oc, os) j i = elim (eq_or_ne k j) [
        | inl e ↦ rw (sym e) h
        | inr ne ↦ elim (lt_or_ge 0 (tally c j)) [
          | inl inner ↦ Under-all moves m c (Under-trans moves (moves k) m c uc h) oc j inner
          | inr out ↦ Under-all moves m s us os j (ground arith)
        ]
      ]
