-- ===== src/PairingHeap/Remove.antt =====
-- util/pairing_heap.h, `remove` and `pop_best`: a key leaves the heap.
use pto_fusebox.Base.{
  ℕ, ◌+◌, ◌≤◌, ◌<◌, ◌≡◌, sym, ap, ◌∙◌, subst, ◌≢◌, inl, inr, Bool, true, false, some, arith,
  if◌then◌else◌, eq_or_ne, ==_refl, ==-eq-false, Table, put,
}
use pto_fusebox.PairingHeap.{
  Node, PairingHeap, is, cut, drop_children, merge_peers, release_children, drop_root, drop_inner,
}
use pto_fusebox.PairingHeap.Forest.{tally, IsOrder}
use pto_fusebox.PairingHeap.Link.{tree, single}
use pto_fusebox.PairingHeap.Merge.{forest, Merged}
use pto_fusebox.PairingHeap.Peers.{merge_peers_lem}
use pto_fusebox.PairingHeap.Room.{length-trees-le}
use pto_fusebox.PairingHeap.Contents.{
  Contents, without_key, held_le, held_one, held_present, Represents, Rooted, Merged-Represents,
}
use pto_fusebox.PairingHeap.Split.{Split-own, Split-move, cut-Split, release-Split}

-- Without the key, that stood once, the others stand as they did.
sized_erase :
    (key : ℕ) (present : Table Bool) (before after : ℕ → ℕ) (j : ℕ)
    → after key ≡ 0
    → (key ≢ j → after j ≡ before j)
    → before j ≡ (if present j then 1 else 0)
    → after j ≡ (if put present key false j then 1 else 0)
sized_erase key present before after j gone same held = elim (eq_or_ne key j) [
  | inl q ↦ rw (sym q, ==_refl key) gone
  | inr ne ↦ rw (==-eq-false key j ne) (same ne ∙ held)
]

bound_erase :
    (key : ℕ) (present : Table Bool) (j : ℕ) → put present key false j ≡ true → present j ≡ true
bound_erase key present j e = ground (arith, e)

module _ {Move : Type 0} (above : Move → Move → Bool) (order : IsOrder above) where
  pub drop_root_lem :
      (key : ℕ) (h : PairingHeap Move) (c : Contents Move)
      → Represents above h c
      → Rooted above key h c
      → Represents above (drop_root above key h) (without_key key c)
  unfolding drop_root tally
  drop_root_lem key h c r t =
      let inside : (j : ℕ) → 0 < tally t.children j → j < h.capacity =
        λ j i. r.bound j (held_present (c.present j) _ (t.held j) (omega arith)) in
      let small : (j : ℕ) → tally t.children j ≤ 1 = λ j. omega (arith, t.distinct j) in
      let done =
        merge_peers_lem above order h.capacity t.children h.nodes c.moves (some key)
          (length-trees-le h.capacity t.children small inside) small t.laid.1 t.ordered.1 in
      Merged-Represents above order (drop_root above key h) (without_key key c) (tally t.children)
        h.nodes
        (subst
          (λ z.
            Merged above order c.moves (tally t.children) h.nodes
              (merge_peers above h.capacity z h.nodes))
          (sym (ap (λ (z : Node Move). z.child) t.laid.0)) done)
        r.stored
        (λ j.
          sized_erase key c.present (tally (single (tree key t.children))) (tally t.children) j
            t.own (λ ne. rw (==-eq-false key j ne) (omega arith)) (t.held j))
        (λ j. ground (arith, r.marked j)) (λ j e. r.bound j (bound_erase key c.present j e))

  pub drop_inner_lem :
      (key : ℕ) (h : PairingHeap Move) (c : Contents Move)
      → Represents above h c
      → is h.root key ≡ false
      → c.present key ≡ true
      → Represents above (drop_inner above key h) (without_key key c)
  unfolding drop_inner tally
  drop_inner_lem key h c r inner held =
      let one = held_one (c.present key) _ (r.held key) held in
      let once : (j : ℕ) → tally (forest r.heap) j ≤ 1 = λ j. held_le (c.present j) _ (r.held j) in
      let s =
        cut-Split above key r.heap h.nodes c.moves c.moves one
          (subst (λ z. is z key ≡ false) r.root inner) once r.laid r.ordered in
      let apart = cut key h.nodes in
      let (far, own) = Split-own above key c.moves c.moves r.heap h.nodes apart s one in
      let kept = Split-move above key c.moves c.moves r.heap h.nodes apart s r.stored in
      let size : ℕ → ℕ = λ j. tally (forest s.rest) j + tally s.children j in
      let back =
        release-Split above order h.capacity key c.moves c.moves r.heap h.nodes apart s one once
          (λ j i. r.bound j (held_present (c.present j) _ (r.held j) i)) s.rest_ordered
          s.part_ordered.1 in
      Merged-Represents above order (drop_inner above key h) (without_key key c) size
        (drop_children key apart)
        (subst
          (λ z.
            Merged above order c.moves size (drop_children key apart)
              (release_children above h.capacity key z apart))
          (sym r.root) back)
        (λ j. ground (arith, kept j))
        (λ j.
          let sum = s.total j in
          sized_erase key c.present (tally (forest r.heap)) size j (omega arith)
            (λ ne. let flat = rw (==-eq-false key j ne) at sum in omega (arith, flat)) (r.held j))
        (λ j. ground (arith, r.marked j)) (λ j e. r.bound j (bound_erase key c.present j e))
