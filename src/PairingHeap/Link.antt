-- ===== src/PairingHeap/Link.antt =====
-- util/pairing_heap.h, `link`: of two trees the one whose root is not above hangs on the other.
use pto_fusebox.Base.{
  ℕ, ◌+◌, ◌≤◌, ◌<◌, ◌≡◌, refl, ap, ◌∙◌, ◌≢◌, inl, inr, Bool, false, Option, none, some, arith,
  if◌then◌else◌, Bool-cases, ==_refl, ==-eq-false, Table,
}
use pto_fusebox.PairingHeap.{Node, is, hang, link_nodes}
use pto_fusebox.PairingHeap.Forest.{
  Forest, nil, node, head, tally, not-head, Laid, Laid-frame, Laid-moved, IsOrdered, IsOrder,
}

pub record Tree : Type 0 where
  pub key : ℕ
  pub children : Forest

abbrev pub tree : ℕ → Forest → Tree
tree k c = record { key = k; children = c }

abbrev pub single : Tree → Forest
single t = node t.key t.children nil

-- No key twice in two trees.
abbrev pub IsApart : Tree → Tree → Type 0
IsApart t u = (j : ℕ) → tally (single t) j + tally (single u) j ≤ 1

pub IsApart-keys :
    (t u : Tree)
    → IsApart t u
    → (t.key ≢ u.key) × (tally t.children t.key ≡ 0) × (tally t.children u.key ≡ 0)
unfolding tally
IsApart-keys t u d =
    let at_t = d t.key in
    let at_u = d u.key in
    (
      λ e. absurd (ground (arith, at_u, ==_refl u.key, e)),
      ground (arith, at_t, ==_refl t.key),
      ground (arith, at_u, ==_refl u.key),
    )

pub IsApart-swap : (t u : Tree) → IsApart t u → IsApart u t
IsApart-swap t u d j = omega (arith, d j)

-- A key below the root of one tree stands nowhere else.
pub IsApart-inner :
    (t u : Tree) (j : ℕ)
    → IsApart t u
    → 0 < tally t.children j
    → (t.key ≢ j) × (u.key ≢ j) × (tally u.children j ≡ 0)
unfolding tally
IsApart-inner t u j d i =
    let at = d j in
    (
      λ e. absurd (ground (arith, at, e, ==_refl j)),
      λ e. absurd (ground (arith, at, e, ==_refl j)),
      ground (arith, at),
    )

module _ {Move : Type 0} where
  -- What `link` makes of the trees.
  unfoldable pub tied : (Move → Move → Bool) → Table Move → Tree → Tree → Tree
  tied above moves t u =
      if above (moves u.key) (moves t.key)
      then tree u.key (node t.key t.children u.children)
      else tree t.key (node u.key u.children t.children)

  pub tally-tied :
      (above : Move → Move → Bool) (moves : Table Move) (t u : Tree) (j : ℕ)
      → tally (single (tied above moves t u)) j ≡ tally (single t) j + tally (single u) j
  unfolding tied tally
  tally-tied above moves t u j = elim (Bool-cases (above (moves u.key) (moves t.key))) [
    | inl e ↦ rw e (omega arith)
    | inr e ↦ rw e (omega arith)
  ]

  pub tied-IsOrdered :
      (above : Move → Move → Bool) (moves : Table Move) (t u : Tree)
      → IsOrder above
      → IsOrdered above moves (single t)
      → IsOrdered above moves (single u)
      → IsOrdered above moves (single (tied above moves t u))
  unfolding tied
  tied-IsOrdered above moves t u order (ut, ot, _) (uu, ou, _) =
      elim (Bool-cases (above (moves u.key) (moves t.key))) [
        | inl e ↦ rw e ((order.asym (moves u.key) (moves t.key) e, uu), (ut, ot, ou), tt)
        | inr e ↦ rw e ((e, ut), (uu, ou, ot), tt)
      ]

  -- The nodes after `hang`: `a`, `b`, and of the others only the former first child changes.
  record Hung (a b : ℕ) (first : Option ℕ) (nodes nodes' : Table (Node Move)) : Type 0 where
    upper : nodes' a ≡ record (nodes a) { child = some b }
    lower : nodes' b ≡ record (nodes b) { prev = some a; next_sibling = first }
    other :
        (j : ℕ)
        → a ≢ j
        → b ≢ j
        → nodes' j ≡ (if is first j then record (nodes j) { prev = some b } else nodes j)

  hang_lem :
      (a b : ℕ) (nodes : Table (Node Move)) (first : Option ℕ)
      → a ≢ b
      → (nodes a).child ≡ first
      → is first a ≡ false
      → is first b ≡ false
      → Hung a b first nodes (hang a b nodes)
  unfolding hang
  hang_lem a b nodes none ne e fa fb = record {
    upper = ground (arith, ==-eq-false b a);
    lower = ground (arith, ==-eq-false b a);
    other = λ j na nb. ground (arith, ==-eq-false b a, ==-eq-false a j, ==-eq-false b j);
  }
  hang_lem a b nodes (some k) ne e fa fb = record {
    upper = ground (arith, ==-eq-false b a);
    lower = ground (arith, ==-eq-false b a);
    other = λ j na nb. ground (arith, ==-eq-false b a, ==-eq-false a j, ==-eq-false b j);
  }

  -- `b` becomes the first child of `a`.
  hang-Laid :
      (t u : Tree) (before after : Table (Node Move)) (moves : Table Move)
      → Hung t.key u.key (head t.children) before after
      → IsApart t u
      → Laid before moves none (single t)
      → Laid before moves none (single u)
      → Laid after moves none (single (tree t.key (node u.key u.children t.children)))
  unfolding tally
  hang-Laid t u before after moves h d (et, lt, _) (eu, lu, _) = (
    h.upper ∙ ap (λ (z : Node Move). record z { child = some u.key }) et,
    (
      h.lower
          ∙ ap (λ (z : Node Move). record z { prev = some t.key; next_sibling = head t.children })
              eu,
      Laid-frame before after moves moves (some u.key) u.children lu (λ j i.
          let (nu, nt, z) = IsApart-inner u t j (IsApart-swap t u d) i in
          (h.other j nt nu ∙ rw (not-head t.children j z) refl, refl)),
      Laid-moved before after moves (some t.key) (some u.key) t.children (λ j. omega (arith, d j))
          lt (λ j i. let (nt, nu, z) = IsApart-inner t u j d i in h.other j nt nu),
    ),
    tt,
  )

  -- A link of two trees that gives the third, and leaves the nodes outside alone.
  pub record IsLinked (moves : Table Move) (t u : Tree) (before : Table (Node Move))
      (result : ℕ × Table (Node Move)) (all : Tree) : Type 0 where
    pub root : result.0 ≡ all.key
    pub laid : Laid result.1 moves none (single all)
    pub outside : (j : ℕ) → tally (single t) j ≡ 0 → tally (single u) j ≡ 0 → result.1 j ≡ before j

  hang-IsLinked :
      (t u : Tree) (nodes : Table (Node Move)) (moves : Table Move)
      → IsApart t u
      → Laid nodes moves none (single t)
      → Laid nodes moves none (single u)
      → IsLinked moves t u nodes
          (t.key, hang t.key u.key nodes)
          (tree t.key (node u.key u.children t.children))
  unfolding tally
  hang-IsLinked t u nodes moves d lt lu =
      let (ne, own, far) = IsApart-keys t u d in
      let h =
        hang_lem t.key u.key nodes (head t.children) ne (ap (λ (z : Node Move). z.child) lt.0)
          (not-head t.children t.key own) (not-head t.children u.key far) in
      record {
        root = refl;
        laid = hang-Laid t u nodes (hang t.key u.key nodes) moves h d lt lu;
        outside = λ j zt zu. ground (arith, h.other j, not-head t.children j);
      }

  pub link_nodes_lem :
      (above : Move → Move → Bool) (t u : Tree) (nodes : Table (Node Move)) (moves : Table Move)
      → IsApart t u
      → Laid nodes moves none (single t)
      → Laid nodes moves none (single u)
      → IsLinked moves t u nodes (link_nodes above t.key u.key nodes) (tied above moves t u)
  unfolding link_nodes tied
  link_nodes_lem above t u nodes moves d lt lu =
      let et : (nodes t.key).move ≡ moves t.key = ap (λ (z : Node Move). z.move) lt.0 in
      let eu : (nodes u.key).move ≡ moves u.key = ap (λ (z : Node Move). z.move) lu.0 in
      elim (Bool-cases (above (moves u.key) (moves t.key))) [
        | inl e ↦
            let l = hang-IsLinked u t nodes moves (λ j. omega (arith, d j)) lu lt in
            simp (et, eu, e)
              (record { root = l.root; laid = l.laid; outside = λ j zt zu. l.outside j zu zt })
        | inr e ↦ simp (et, eu, e) (hang-IsLinked t u nodes moves d lt lu)
      ]
