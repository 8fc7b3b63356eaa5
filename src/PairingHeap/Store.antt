-- ===== src/PairingHeap/Store.antt =====
-- util/pairing_heap.h, `push_or_update`, on every branch.
use pto_fusebox.Base.{
  ℕ, ◌+◌, ◌<◌, ◌≡◌, refl, sym, subst, ◌≢◌, inl, inr, Bool, true, false, none, some, arith,
  if◌then◌else◌, eq_or_ne, ==_refl, ==-eq-false, Table, put,
}
use pto_fusebox.PairingHeap.{Node, PairingHeap, link, push_new}
use pto_fusebox.PairingHeap.Forest.{nil, tally, cell, Laid-frame, IsOrdered-frame, IsOrder}
use pto_fusebox.PairingHeap.Link.{tree, single}
use pto_fusebox.PairingHeap.Merge.{forest, Merged, link_lem}
use pto_fusebox.PairingHeap.Contents.{
  Contents, with_move, held_le, held_absent, Represents, Merged-Represents,
}

module _ {Move : Type 0} where
  module _ (above : Move → Move → Bool) (order : IsOrder above) where
    pub push_lem :
        (key : ℕ) (m : Move) (h : PairingHeap Move) (c : Contents Move)
        → Represents above h c
        → c.present key ≡ false
        → key < h.capacity
        → Represents above (push_new above key m h) (with_move key m c)
    unfolding push_new tally
    push_lem key m h c r new fits =
        let nodes : Table (Node Move) = put h.nodes key (cell m none none none) in
        let off : (j : ℕ) → 0 < tally (forest r.heap) j → key ≢ j = λ j i q.
          let none_here : c.present j ≡ false = subst (λ x. c.present x ≡ false) q new in
          absurd (omega (arith, held_absent (c.present j) _ (r.held j) none_here)) in
        let moves : Table Move = put c.moves key m in
        let free = held_absent (c.present key) (tally (forest r.heap) key) (r.held key) new in
        let size : ℕ → ℕ = λ j. tally (forest r.heap) j + tally (single (tree key nil)) j in
        let apart : (j : ℕ) → size j ≡ (if put c.present key true j then 1 else 0) = λ j.
          elim (eq_or_ne key j) [
            | inl q ↦ rw (sym q, ==_refl key) (omega arith)
            | inr ne ↦ rw (==-eq-false key j ne) (omega (arith, r.held j))
          ] in
        let done =
          link_lem above order r.heap (some (tree key nil)) nodes moves
            (λ j. held_le (put c.present key true j) _ (apart j))
            (Laid-frame h.nodes nodes c.moves moves none (forest r.heap) r.laid
              (λ j i. rw (==-eq-false key j (off j i)) (refl, refl)))
            (rw (==_refl key) refl, tt, tt)
            (IsOrdered-frame above c.moves moves (forest r.heap) r.ordered
              (λ j i. rw (==-eq-false key j (off j i)) refl))
            (tt, tt, tt) in
        Merged-Represents above order (push_new above key m h) (with_move key m c) size nodes
          (subst (λ z. Merged above order moves size nodes (link above z (some key) nodes))
            (sym r.root) done)
          (λ j. ground (arith, r.stored j)) apart (λ j. ground (arith, r.marked j))
          (λ j e. elim (eq_or_ne key j) [
            | inl q ↦ subst (λ z. z < h.capacity) q fits
            | inr ne ↦ r.bound j (rw (==-eq-false key j ne) at e)
          ])
