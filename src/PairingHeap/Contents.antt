-- ===== src/PairingHeap/Contents.antt =====
-- util/pairing_heap.h: what the heap holds for its callers, and the steps that its operations share.
use pto_fusebox.Base.{
  ℕ, ◌≤◌, ◌<◌, ◌≡◌, sym, ap, ◌∙◌, subst, ◌≢◌, inl, inr, Bool, true, false, Option, none, some,
  arith, ◌==◌, if◌then◌else◌, eq_or_ne, lt_or_ge, ==→eq, ==_refl, ==-eq-false, Table, put,
}
use pto_fusebox.PairingHeap.{Node, PairingHeap, is}
use pto_fusebox.PairingHeap.Forest.{
  Forest, nil, node, head, tally, IsDistinct, Laid, IsOrdered, IsOrder,
}
use pto_fusebox.PairingHeap.Link.{Tree, tree, single}
use pto_fusebox.PairingHeap.Merge.{forest, Merged}

-- The keys that are held, and the move last stored under each key.
pub record Contents (Move : Type 0) : Type 0 where
  pub present : Table Bool
  pub moves : Table Move

-- What the number of places of a key says, if that is one just for a key that is held.
module _ (held : Bool) (places : ℕ) (e : places ≡ (if held then 1 else 0)) where
  pub held_le : places ≤ 1
  held_le = ground (arith, e)

  pub held_absent : held ≡ false → places ≡ 0
  held_absent h = ground (arith, e)

  pub held_one : held ≡ true → places ≡ 1
  held_one h = ground (arith, e)

  pub held_present : 0 < places → held ≡ true
  held_present h = ground (arith, e)

-- A key that is the root, with its tree.
root_parts :
    (o : Option Tree) (key : ℕ)
    → is (head (forest o)) key ≡ true
    → (children : Forest) × (forest o ≡ single (tree key children))
root_parts none key e = cc
root_parts (some t) key e = (t.children, ap (λ k. node k t.children nil) (==→eq t.key key e))

module _ {Move : Type 0} where
  -- Every node of the trees holds its move.
  pub Laid-move :
      (nodes : Table (Node Move)) (moves : Table Move) (p : Option ℕ) (f : Forest) (j : ℕ)
      → Laid nodes moves p f
      → 0 < tally f j
      → (nodes j).move ≡ moves j
  unfolding tally
  Laid-move nodes moves p nil j l i = absurd (omega arith)
  Laid-move nodes moves p (node k c s) j (e, lc, ls) i = elim (eq_or_ne k j) [
    | inl q ↦ rw (sym q) (ap (λ (z : Node Move). z.move) e)
    | inr ne ↦ elim (lt_or_ge 0 (tally c j)) [
      | inl lt ↦ Laid-move nodes moves (some k) c j lc lt
      | inr le ↦ Laid-move nodes moves (some k) s j ls (ground (arith, ==-eq-false k j ne))
    ]
  ]

  -- A new move at a node.
  pub Laid-stored :
      (nodes : Table (Node Move)) (moves : Table Move) (p : Option ℕ) (f : Forest) (key : ℕ)
      (m : Move)
      → Laid nodes moves p f
      → Laid (put nodes key (record (nodes key) { move = m })) (put moves key m) p f
  Laid-stored nodes moves p nil key m l = tt
  Laid-stored nodes moves p (node k c s) key m (e, lc, ls) = (
    elim (eq_or_ne key k) [
      | inl q ↦
          let same : (key == k) ≡ true = rw q (==_refl k) in
          rw same (rw q (ap (λ (z : Node Move). record z { move = m }) e))
      | inr ne ↦ rw (==-eq-false key k ne) e
    ],
    Laid-stored nodes moves (some k) c key m lc,
    Laid-stored nodes moves (some k) s key m ls,
  )

  -- The move is stored under the key.
  abbrev pub with_move : ℕ → Move → Contents Move → Contents Move
  with_move key m c = record { present = put c.present key true; moves = put c.moves key m }

  -- The key is not held any more.
  abbrev pub without_key : ℕ → Contents Move → Contents Move
  without_key key c = record c { present = put c.present key false }

  module _ (above : Move → Move → Bool) where
    -- The invariant: one heap-ordered tree of just the keys that are held.
    pub record Represents (h : PairingHeap Move) (c : Contents Move) : Type 0 where
      pub heap : Option Tree
      pub root : h.root ≡ head (forest heap)
      pub laid : Laid h.nodes c.moves none (forest heap)
      pub ordered : IsOrdered above c.moves (forest heap)
      pub held : (j : ℕ) → tally (forest heap) j ≡ (if c.present j then 1 else 0)
      pub marked : (j : ℕ) → h.in_heap j ≡ c.present j
      pub stored : (j : ℕ) → (h.nodes j).move ≡ c.moves j
      pub bound : (j : ℕ) → c.present j ≡ true → j < h.capacity

    -- The heap's tree, at a key that is the root.
    pub record Rooted (key : ℕ) (h : PairingHeap Move) (c : Contents Move) : Type 0 where
      pub children : Forest
      pub laid : Laid h.nodes c.moves none (single (tree key children))
      pub ordered : IsOrdered above c.moves (single (tree key children))
      pub held : (j : ℕ) → tally (single (tree key children)) j ≡ (if c.present j then 1 else 0)
      pub own : tally children key ≡ 0
      pub off : (j : ℕ) → 0 < tally children j → key ≢ j
      pub distinct : IsDistinct (single (tree key children))
      pub root : h.root ≡ some key

    pub root_lem :
        (key : ℕ) (h : PairingHeap Move) (c : Contents Move)
        → Represents h c
        → is h.root key ≡ true
        → Rooted key h c
    unfolding tally
    root_lem key h c r at_root =
        let (f, shape) = root_parts r.heap key (subst (λ z. is z key ≡ true) r.root at_root) in
        let tallies : (j : ℕ) → tally (single (tree key f)) j ≡ (if c.present j then 1 else 0) =
          λ j. ap (λ z. tally z j) (sym shape) ∙ r.held j in
        let own : tally f key ≡ 0 =
          let at = held_le (c.present key) _ (tallies key) in ground (arith, at, ==_refl key) in
        record {
          children = f;
          laid = subst (Laid h.nodes c.moves none) shape r.laid;
          ordered = subst (IsOrdered above c.moves) shape r.ordered;
          held = tallies;
          own = own;
          off = λ j i q. absurd (omega (arith, subst (λ x. tally f x ≡ 0) q own));
          distinct = λ j. held_le (c.present j) _ (tallies j);
          root = r.root ∙ ap head shape;
        }

    module _ (order : IsOrder above) where
      pub Merged-move :
          (moves : Table Move) (size : ℕ → ℕ) (before : Table (Node Move))
          (result : Option ℕ × Table (Node Move))
          → Merged above order moves size before result
          → ((j : ℕ) → (before j).move ≡ moves j)
          → (j : ℕ) → (result.1 j).move ≡ moves j
      Merged-move moves size before result m kept j = elim (lt_or_ge 0 (size j)) [
        | inl lt ↦ Laid-move result.1 moves none (forest m.heap) j m.laid (omega (arith, m.total j))
        | inr le ↦ ap (λ (z : Node Move). z.move) (m.outside j (omega arith)) ∙ kept j
      ]

      -- A merge that leaves the keys that are held.
      pub Merged-Represents :
          (h : PairingHeap Move) (c : Contents Move) (size : ℕ → ℕ) (before : Table (Node Move))
          → Merged above order c.moves size before (h.root, h.nodes)
          → ((j : ℕ) → (before j).move ≡ c.moves j)
          → ((j : ℕ) → size j ≡ (if c.present j then 1 else 0))
          → ((j : ℕ) → h.in_heap j ≡ c.present j)
          → ((j : ℕ) → c.present j ≡ true → j < h.capacity)
          → Represents h c
      Merged-Represents h c size before m kept sized marked bound = record {
        heap = m.heap;
        root = m.root;
        laid = m.laid;
        ordered = m.ordered;
        held = λ j. m.total j ∙ sized j;
        marked = marked;
        stored = Merged-move c.moves size before (h.root, h.nodes) m kept;
        bound = bound;
      }
