-- ===== src/PairingHeap/Peers.antt =====
-- util/pairing_heap.h, `merge_peers`: a list of siblings becomes one tree.
use pto_fusebox.Base.{
  ℕ, ◌≤◌, ◌≡◌, refl, ap, ◌∙◌, Bool, Option, none, some, List, [], ◌∷◌, arith, length, Table,
}
use pto_fusebox.PairingHeap.{Node, collect_peers, link_nodes, link_pairs, link_back, merge_peers}
use pto_fusebox.PairingHeap.Forest.{
  Forest, head, tally, IsDistinct, Laid, Laid-frame, IsOrdered, IsOrder,
}
use pto_fusebox.PairingHeap.Link.{Tree, single, tied, tally-tied, tied-IsOrdered, link_nodes_lem}
use pto_fusebox.PairingHeap.Merge.{
  trees, keys, tally_all, tally_all-trees, LaidAll, LaidAll-frame, collect_lem, IsOrderedAll,
  trees-IsOrderedAll, Merged, link_lem,
}

module _ {Move : Type 0} (above : Move → Move → Bool) (order : IsOrder above) where
  pub record Paired (moves : Table Move) (ts : List Tree) (before : Table (Node Move))
      (result : List ℕ × Table (Node Move)) : Type 0 where
    pub firsts : List Tree
    pub roots : result.0 ≡ keys firsts
    pub laid : LaidAll result.1 moves firsts
    pub ordered : IsOrderedAll above order moves firsts
    pub total : (j : ℕ) → tally_all firsts j ≡ tally_all ts j
    pub outside : (j : ℕ) → tally_all ts j ≡ 0 → result.1 j ≡ before j

  pub link_pairs_lem :
      (ts : List Tree) (nodes : Table (Node Move)) (moves : Table Move)
      → ((j : ℕ) → tally_all ts j ≤ 1)
      → LaidAll nodes moves ts
      → IsOrderedAll above order moves ts
      → Paired moves ts nodes (link_pairs above (keys ts) nodes)
  unfolding link_pairs
  link_pairs_lem [] nodes moves d l o = record {
    firsts = [];
    roots = refl;
    laid = tt;
    ordered = tt;
    total = λ j. refl;
    outside = λ j z. refl;
  }
  link_pairs_lem (t ∷ []) nodes moves d l o = record {
    firsts = t ∷ [];
    roots = refl;
    laid = l;
    ordered = o;
    total = λ j. refl;
    outside = λ j z. refl;
  }
  link_pairs_lem (t ∷ u ∷ ts) nodes moves d (lt, (lu, ls)) (ot, (ou, os)) =
      let both = link_nodes_lem above t u nodes moves (λ j. omega (arith, d j)) lt lu in
      let linked = link_nodes above t.key u.key nodes in
      let rest =
        link_pairs_lem ts linked.1 moves (λ j. omega (arith, d j))
          (LaidAll-frame nodes linked.1 moves ts ls
            (λ j i. both.outside j (omega (arith, d j)) (omega (arith, d j))))
          os in
      record {
        firsts = tied above moves t u ∷ rest.firsts;
        roots = ap (λ z. linked.0 ∷ z) rest.roots ∙ ap (λ z. z ∷ keys rest.firsts) both.root;
        laid = (
          Laid-frame linked.1 (link_pairs above (keys ts) linked.1).1 moves moves none
              (single (tied above moves t u)) both.laid
              (λ j i. (rest.outside j (omega (arith, d j, tally-tied above moves t u j)), refl)),
          rest.laid,
        );
        ordered = (tied-IsOrdered above moves t u order ot ou, rest.ordered);
        total = λ j. omega (arith, rest.total j, tally-tied above moves t u j);
        outside = λ j z. rest.outside j (omega arith) ∙ both.outside j (omega arith) (omega arith);
      }

  pub link_back_lem :
      (ts : List Tree) (nodes : Table (Node Move)) (moves : Table Move)
      → ((j : ℕ) → tally_all ts j ≤ 1)
      → LaidAll nodes moves ts
      → IsOrderedAll above order moves ts
      → Merged above order moves (tally_all ts) nodes (link_back above (keys ts) nodes)
  unfolding link_back tally
  link_back_lem [] nodes moves d l o = record {
    heap = none;
    root = refl;
    laid = tt;
    ordered = tt;
    total = λ j. refl;
    outside = λ j z. refl;
  }
  link_back_lem (t ∷ ts) nodes moves d (lt, ls) (ot, os) =
      let rest = link_back_lem ts nodes moves (λ j. omega (arith, d j)) ls os in
      let done = link_back above (keys ts) nodes in
      let all =
        link_lem above order rest.heap (some t) done.1 moves (λ j. omega (arith, d j, rest.total j))
          rest.laid
          (Laid-frame nodes done.1 moves moves none (single t) lt
            (λ j i. (rest.outside j (omega (arith, d j)), refl)))
          rest.ordered ot in
      rw rest.root (record {
        heap = all.heap;
        root = all.root;
        laid = all.laid;
        ordered = all.ordered;
        total = λ j. omega (arith, all.total j, rest.total j);
        outside = λ j z. all.outside j (omega (arith, rest.total j)) ∙ rest.outside j (omega arith);
      })

  pub merge_peers_lem :
      (capacity : ℕ) (f : Forest) (nodes : Table (Node Move)) (moves : Table Move) (p : Option ℕ)
      → length (trees f) ≤ capacity
      → IsDistinct f
      → Laid nodes moves p f
      → IsOrdered above moves f
      → Merged above order moves (tally f) nodes (merge_peers above capacity (head f) nodes)
  unfolding merge_peers
  merge_peers_lem capacity f nodes moves p h d l o =
      let first = collect_lem capacity f nodes moves p h d l in
      let apart = collect_peers capacity (head f) nodes in
      let second =
        link_pairs_lem (trees f) apart.1 moves (λ j. omega (arith, d j, tally_all-trees f j))
          first.laid (trees-IsOrderedAll above order moves f o) in
      let paired = link_pairs above (keys (trees f)) apart.1 in
      let third =
        link_back_lem second.firsts paired.1 moves
          (λ j. omega (arith, d j, tally_all-trees f j, second.total j)) second.laid
          second.ordered in
      rw (first.roots, second.roots)
        (record {
          heap = third.heap;
          root = third.root;
          laid = third.laid;
          ordered = third.ordered;
          total = λ j. third.total j ∙ second.total j ∙ tally_all-trees f j;
          outside = λ j z.
              third.outside j (omega (arith, second.total j, tally_all-trees f j))
              ∙ second.outside j (omega (arith, tally_all-trees f j))
              ∙ first.outside j z;
        })
