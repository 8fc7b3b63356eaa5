-- ===== src/PairingHeap/Merge.antt =====
-- util/pairing_heap.h, `link` on indices that may be none, and the loop of `merge_peers` that takes the
-- peers apart.
use pto_fusebox.Base.{
  ℕ, zero, suc, ◌+◌, ◌≤◌, ◌<◌, ◌≡◌, refl, ap, ◌∙◌, ◌≢◌, Bool, Option, none, some, List, [], ◌∷◌,
  arith, ==_refl, ==-eq-false, length, Table, put,
}
use pto_fusebox.PairingHeap.{Node, collect_peers, link}
use pto_fusebox.PairingHeap.Forest.{
  Forest, nil, node, head, tally, IsDistinct, Laid, Laid-frame, IsOrdered, IsOrder,
}
use pto_fusebox.PairingHeap.Link.{
  Tree, tree, single, tied, tally-tied, tied-IsOrdered, link_nodes_lem,
}

-- The heap's tree, if it is not empty.
abbrev pub forest : Option Tree → Forest
forest none = nil
forest (some t) = single t

abbrev pub trees : Forest → List Tree
trees nil = []
trees (node k c s) = tree k c ∷ trees s

abbrev pub keys : List Tree → List ℕ
keys [] = []
keys (t ∷ ts) = t.key ∷ keys ts

abbrev pub tally_all : List Tree → ℕ → ℕ
tally_all [] j = 0
tally_all (t ∷ ts) j = tally (single t) j + tally_all ts j

pub tally_all-trees : (f : Forest) (j : ℕ) → tally_all (trees f) j ≡ tally f j
unfolding tally
tally_all-trees nil j = refl
tally_all-trees (node k c s) j = omega (arith, tally_all-trees s j)

module _ {Move : Type 0} where
  abbrev pub LaidAll : Table (Node Move) → Table Move → List Tree → Type 0
  LaidAll nodes moves [] = Unit
  LaidAll nodes moves (t ∷ ts) = Laid nodes moves none (single t) × LaidAll nodes moves ts

  pub LaidAll-frame :
      (nodes nodes' : Table (Node Move)) (moves : Table Move) (ts : List Tree)
      → LaidAll nodes moves ts
      → ((j : ℕ) → 0 < tally_all ts j → nodes' j ≡ nodes j)
      → LaidAll nodes' moves ts
  LaidAll-frame nodes nodes' moves [] l same = tt
  LaidAll-frame nodes nodes' moves (t ∷ ts) (lt, ls) same = (
    Laid-frame nodes nodes' moves moves none (single t) lt (λ j i. (same j (omega arith), refl)),
    LaidAll-frame nodes nodes' moves ts ls (λ j i. same j (omega arith)),
  )

  -- The buffer holds the peers, apart.
  pub record IsCollected (moves : Table Move) (f : Forest) (before : Table (Node Move))
      (result : List ℕ × Table (Node Move)) : Type 0 where
    pub roots : result.0 ≡ keys (trees f)
    pub laid : LaidAll result.1 moves (trees f)
    pub outside : (j : ℕ) → tally f j ≡ 0 → result.1 j ≡ before j

  pub collect_lem :
      (fuel : ℕ) (f : Forest) (nodes : Table (Node Move)) (moves : Table Move) (p : Option ℕ)
      → length (trees f) ≤ fuel
      → IsDistinct f
      → Laid nodes moves p f
      → IsCollected moves f nodes (collect_peers fuel (head f) nodes)
  unfolding collect_peers tally
  collect_lem fuel nil nodes moves p h d l = record {
    roots = refl;
    laid = tt;
    outside = λ j z. refl;
  }
  collect_lem zero (node k c s) nodes moves p h d l = absurd (omega arith)
  collect_lem (suc fuel) (node k c s) nodes moves p h d (e, lc, ls) =
      let freed : Table (Node Move) =
        put nodes k (record (nodes k) { prev = none; next_sibling = none }) in
      let next : (nodes k).next_sibling ≡ head s = ap (λ (z : Node Move). z.next_sibling) e in
      let off : (j : ℕ) → 0 < tally c j → (k ≢ j) × (tally s j ≡ 0) = λ j i.
        let at = d j in (λ q. absurd (ground (arith, at, q, ==_refl j)), ground (arith, at)) in
      let self : (tally c k ≡ 0) × (tally s k ≡ 0) =
        let at = d k in ground (arith, at, ==_refl k) in
      let away : (j : ℕ) → 0 < tally s j → k ≢ j =
        λ j i q. absurd (let at = d j in ground (arith, at, q, ==_refl j)) in
      let rest =
        collect_lem fuel s freed moves (some k) (omega arith) (λ j. omega (arith, d j))
          (Laid-frame nodes freed moves moves (some k) s ls
            (λ j i. (rw (==-eq-false k j (away j i)) refl, refl))) in
      rw next (record {
        roots = ap (λ z. k ∷ z) rest.roots;
        laid = (
          (
            rest.outside k self.1
                ∙ rw (==_refl k)
                    (ap (λ (z : Node Move). record z { prev = none; next_sibling = none }) e),
            Laid-frame nodes (collect_peers fuel (head s) freed).1 moves moves (some k) c lc (λ j i.
                let (ne, z) = off j i in (rest.outside j z ∙ rw (==-eq-false k j ne) refl, refl)),
            tt,
          ),
          rest.laid,
        );
        outside = λ j z. rest.outside j (omega arith) ∙ ground arith;
      })

  module _ (above : Move → Move → Bool) (order : IsOrder above) where
    abbrev pub IsOrderedAll : Table Move → List Tree → Type 0
    IsOrderedAll moves [] = Unit
    IsOrderedAll moves (t ∷ ts) = IsOrdered above moves (single t) × IsOrderedAll moves ts

    pub trees-IsOrderedAll :
        (moves : Table Move) (f : Forest) → IsOrdered above moves f → IsOrderedAll moves (trees f)
    trees-IsOrderedAll moves nil o = tt
    trees-IsOrderedAll moves (node k c s) (u, oc, os) = ((u, oc, tt), trees-IsOrderedAll moves s os)

    -- One ordered tree of the keys that `size` tallies, and the nodes elsewhere as they were.
    pub record Merged (moves : Table Move) (size : ℕ → ℕ) (before : Table (Node Move))
        (result : Option ℕ × Table (Node Move)) : Type 0 where
      pub heap : Option Tree
      pub root : result.0 ≡ head (forest heap)
      pub laid : Laid result.1 moves none (forest heap)
      pub ordered : IsOrdered above moves (forest heap)
      pub total : (j : ℕ) → tally (forest heap) j ≡ size j
      pub outside : (j : ℕ) → size j ≡ 0 → result.1 j ≡ before j

    pub link_lem :
        (o u : Option Tree) (nodes : Table (Node Move)) (moves : Table Move)
        → ((j : ℕ) → tally (forest o) j + tally (forest u) j ≤ 1)
        → Laid nodes moves none (forest o)
        → Laid nodes moves none (forest u)
        → IsOrdered above moves (forest o)
        → IsOrdered above moves (forest u)
        → Merged moves
            (λ j. tally (forest o) j + tally (forest u) j)
            nodes
            (link above (head (forest o)) (head (forest u)) nodes)
    unfolding tally
    link_lem none u nodes moves d lo lu oo ou = record {
      heap = u;
      root = refl;
      laid = lu;
      ordered = ou;
      total = λ j. omega arith;
      outside = λ j z. refl;
    }
    link_lem (some t) none nodes moves d lo lu oo ou = record {
      heap = some t;
      root = refl;
      laid = lo;
      ordered = oo;
      total = λ j. omega arith;
      outside = λ j z. refl;
    }
    link_lem (some t) (some u) nodes moves d lo lu oo ou =
        let both = link_nodes_lem above t u nodes moves d lo lu in
        record {
          heap = some (tied above moves t u);
          root = ap some both.root;
          laid = both.laid;
          ordered = tied-IsOrdered above moves t u order oo ou;
          total = tally-tied above moves t u;
          outside = λ j z. both.outside j (omega arith) (omega arith);
        }
