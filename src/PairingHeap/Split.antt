-- ===== src/PairingHeap/Split.antt =====
-- util/pairing_heap.h: how a key that is not the root comes off, and how its children come back.
use pto_fusebox.Base.{
  ℕ, ◌+◌, ◌≤◌, ◌<◌, ◌≡◌, refl, sym, ap, ◌∙◌, subst, inl, inr, Bool, false, Option, none, some,
  arith, lt_or_ge, ==_refl, ==-eq-false, Table,
}
use pto_fusebox.PairingHeap.{Node, is, cut, drop_children, merge_peers, release_children}
use pto_fusebox.PairingHeap.Forest.{
  Forest, head, tally, IsDistinct, Laid, Laid-frame, IsOrdered, IsOrder,
}
use pto_fusebox.PairingHeap.Link.{Tree, tree, single}
use pto_fusebox.PairingHeap.Merge.{forest, Merged, link_lem}
use pto_fusebox.PairingHeap.Peers.{merge_peers_lem}
use pto_fusebox.PairingHeap.Cut.{without, below, tally-without, without-IsOrdered, below-IsOrdered}
use pto_fusebox.PairingHeap.Cut.Rest.{cut-IsParted}
use pto_fusebox.PairingHeap.Room.{length-trees-le}
use pto_fusebox.PairingHeap.Contents.{Laid-move}

module _ {Move : Type 0} where
  module _ (above : Move → Move → Bool) where
    -- The key and all below it leave a tree in which it is not the root.
    pub record Split (key : ℕ) (moves now : Table Move) (o : Option Tree)
        (before after : Table (Node Move)) : Type 0 where
      pub rest : Option Tree
      pub children : Forest
      pub root : head (forest rest) ≡ head (forest o)
      pub rest_laid : Laid after now none (forest rest)
      pub part_laid : Laid after now none (single (tree key children))
      pub rest_ordered : IsOrdered above moves (forest rest)
      pub part_ordered : IsOrdered above moves (single (tree key children))
      pub total :
          (j : ℕ)
          → tally (forest rest) j + tally (single (tree key children)) j ≡ tally (forest o) j
      pub outside : (j : ℕ) → tally (forest o) j ≡ 0 → after j ≡ before j

    pub cut-Split :
        (key : ℕ) (o : Option Tree) (nodes : Table (Node Move)) (moves now : Table Move)
        → tally (forest o) key ≡ 1
        → is (head (forest o)) key ≡ false
        → IsDistinct (forest o)
        → Laid nodes now none (forest o)
        → IsOrdered above moves (forest o)
        → Split key moves now o nodes (cut key nodes)
    unfolding tally without
    cut-Split key none nodes moves now one nr d l ord = absurd (omega arith)
    cut-Split key (some t) nodes moves now one nr d l ord =
        let parts = cut-IsParted key (single t) nodes now none one d (λ j i. cc) l in
        let shape : without key (single t) ≡ single (tree t.key (without key t.children)) =
          rw nr refl in
        record {
          rest = some (tree t.key (without key t.children));
          children = below key (single t);
          root = refl;
          rest_laid = subst (Laid (cut key nodes) now none) shape parts.rest;
          part_laid = parts.part;
          rest_ordered =
              subst (IsOrdered above moves) shape
                (without-IsOrdered above moves key (single t) ord);
          part_ordered = below-IsOrdered above moves key (single t) one ord;
          total = λ j.
              ap (λ z. tally z j + tally (single (tree key (below key (single t)))) j) (sym shape)
              ∙ tally-without key (single t) j one;
          outside = λ j z. parts.outside j z;
        }

    -- The key stands in its own place alone.
    pub Split-own :
        (key : ℕ) (moves now : Table Move) (o : Option Tree) (before after : Table (Node Move))
        (s : Split key moves now o before after)
        → tally (forest o) key ≡ 1
        → (tally (forest s.rest) key ≡ 0) × (tally s.children key ≡ 0)
    unfolding tally
    Split-own key moves now o before after s one =
        let at = s.total key in
        (ground (arith, at, one, ==_refl key), ground (arith, at, one, ==_refl key))

    pub Split-move :
        (key : ℕ) (moves now : Table Move) (o : Option Tree) (before after : Table (Node Move))
        → Split key moves now o before after
        → ((j : ℕ) → (before j).move ≡ now j)
        → (j : ℕ) → (after j).move ≡ now j
    Split-move key moves now o before after s kept j = elim (lt_or_ge 0 (tally (forest s.rest) j)) [
      | inl lt ↦ Laid-move after now none (forest s.rest) j s.rest_laid lt
      | inr le ↦ elim (lt_or_ge 0 (tally (single (tree key s.children)) j)) [
        | inl lt ↦ Laid-move after now none (single (tree key s.children)) j s.part_laid lt
        | inr le' ↦ ap (λ (z : Node Move). z.move) (s.outside j (omega (arith, s.total j))) ∙ kept j
      ]
    ]

    module _ (order : IsOrder above) where
      -- The children of `key`, cut off, are merged and linked to the rest.
      pub release_lem :
          (capacity key : ℕ) (o : Option Tree) (f : Forest) (nodes : Table (Node Move))
          (moves : Table Move)
          → (nodes key).child ≡ head f
          → ((j : ℕ) → tally (forest o) j + tally f j ≤ 1)
          → ((j : ℕ) → 0 < tally f j → j < capacity)
          → Laid (drop_children key nodes) moves none (forest o)
          → Laid (drop_children key nodes) moves (some key) f
          → IsOrdered above moves (forest o)
          → IsOrdered above moves f
          → Merged above order moves
              (λ j. tally (forest o) j + tally f j)
              (drop_children key nodes)
              (release_children above capacity key (head (forest o)) nodes)
      unfolding release_children
      release_lem capacity key o f nodes moves e d b lo lf oo of =
          let freed = drop_children key nodes in
          let room = length-trees-le capacity f (λ j. omega (arith, d j)) b in
          let m =
            merge_peers_lem above order capacity f freed moves (some key) room
              (λ j. omega (arith, d j)) lf of in
          let done = merge_peers above capacity (head f) freed in
          let all =
            link_lem above order o m.heap done.1 moves (λ j. omega (arith, d j, m.total j))
              (Laid-frame freed done.1 moves moves none (forest o) lo
                (λ j i. (m.outside j (omega (arith, d j)), refl)))
              m.laid oo m.ordered in
          rw (e, m.root)
            (record {
              heap = all.heap;
              root = all.root;
              laid = all.laid;
              ordered = all.ordered;
              total = λ j. omega (arith, all.total j, m.total j);
              outside = λ j z. all.outside j (omega (arith, m.total j)) ∙ m.outside j (omega arith);
            })

      -- The children of a key that was cut off go back to the rest; the key's node is left alone.
      pub release-Split :
          (capacity key : ℕ) (moves now : Table Move) (o : Option Tree)
          (before after : Table (Node Move)) (s : Split key moves now o before after)
          → tally (forest o) key ≡ 1
          → IsDistinct (forest o)
          → ((j : ℕ) → 0 < tally (forest o) j → j < capacity)
          → IsOrdered above now (forest s.rest)
          → IsOrdered above now s.children
          → Merged above order now
              (λ j. tally (forest s.rest) j + tally s.children j)
              (drop_children key after)
              (release_children above capacity key (head (forest o)) after)
      unfolding tally
      release-Split capacity key moves now o before after s one d b oo of =
          let (far, own) = Split-own key moves now o before after s one in
          let freed : (j : ℕ) (f : Forest)
              → tally f key ≡ 0
              → 0 < tally f j
              → drop_children key after j ≡ after j =
            λ j f z i.
              rw (==-eq-false key j (λ q. absurd (omega (arith, subst (λ x. tally f x ≡ 0) q z))))
                refl in
          subst
            (λ z.
              Merged above order now (λ j. tally (forest s.rest) j + tally s.children j)
                (drop_children key after) (release_children above capacity key z after))
            s.root
            (release_lem capacity key s.rest s.children after now
              (ap (λ (z : Node Move). z.child) s.part_laid.0) (λ j. omega (arith, d j, s.total j))
              (λ j i. b j (omega (arith, s.total j)))
              (Laid-frame after (drop_children key after) now now none (forest s.rest) s.rest_laid
                (λ j i. (freed j (forest s.rest) far i, refl)))
              (Laid-frame after (drop_children key after) now now (some key) s.children
                s.part_laid.1 (λ j i. (freed j s.children own i, refl)))
              oo of)
