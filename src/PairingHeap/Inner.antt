-- ===== src/PairingHeap/Inner.antt =====
-- util/pairing_heap.h, `push_or_update` on a key of the heap that is not the root.
use pto_fusebox.Base.{
  ℕ, ◌+◌, ◌≡◌, refl, sym, ap, ◌∙◌, subst, Bool, true, false, Option, none, some, arith,
  if◌then◌else◌, ==_refl, Table, put,
}
use pto_fusebox.PairingHeap.{
  Node, PairingHeap, is, cut, drop_children, link, release_children, update_inner,
}
use pto_fusebox.PairingHeap.Forest.{Forest, nil, head, tally, Laid, IsOrdered, IsOrder}
use pto_fusebox.PairingHeap.Link.{Tree, tree, single}
use pto_fusebox.PairingHeap.Merge.{forest, Merged, link_lem}
use pto_fusebox.PairingHeap.Contents.{
  Contents, with_move, held_le, held_one, held_present, Represents, Laid-stored, Merged-Represents,
  Merged-move,
}
use pto_fusebox.PairingHeap.Split.{Split, Split-own, Split-move, cut-Split, release-Split}
use pto_fusebox.PairingHeap.Update.{stored_move, present-with_move, kept_order, raised}

module _ {Move : Type 0} where
  drop_children_at :
      (key : ℕ) (nodes : Table (Node Move))
      → drop_children key nodes key ≡ record (nodes key) { child = none }
  drop_children_at key nodes = rw (==_refl key) refl

  module _ (above : Move → Move → Bool) (order : IsOrder above) where
    -- What the two cases of `update_inner` end with: the key's tree is linked to the rest.
    relink_lem :
        (key : ℕ) (m : Move) (o : Option Tree) (f : Forest) (h h' : PairingHeap Move)
        (c : Contents Move) (before : Table (Node Move))
        → Represents above h c
        → c.present key ≡ true
        → ((j : ℕ)
            → tally (forest o) j + tally (single (tree key f)) j ≡ (if c.present j then 1 else 0))
        → Laid before (put c.moves key m) none (forest o)
        → Laid before (put c.moves key m) none (single (tree key f))
        → IsOrdered above (put c.moves key m) (forest o)
        → IsOrdered above (put c.moves key m) (single (tree key f))
        → ((j : ℕ) → (before j).move ≡ put c.moves key m j)
        → (h'.capacity ≡ h.capacity)
        → ((j : ℕ) → h'.in_heap j ≡ h.in_heap j)
        → ((h'.root, h'.nodes) ≡ link above (head (forest o)) (some key) before)
        → Represents above h' (with_move key m c)
    relink_lem key m o f h h' c before r held total lo lf oo of kept cap marks made =
        let stays : (j : ℕ) → put c.present key true j ≡ c.present j =
          λ j. present-with_move key c.present j held in
        Merged-Represents above order h' (with_move key m c)
          (λ j. tally (forest o) j + tally (single (tree key f)) j) before
          (subst
            (Merged above order (put c.moves key m)
              (λ j. tally (forest o) j + tally (single (tree key f)) j) before)
            (sym made)
            (link_lem above order o (some (tree key f)) before (put c.moves key m)
              (λ j. held_le (c.present j) _ (total j)) lo lf oo of))
          kept (λ j. total j ∙ ap (λ b. if b then 1 else 0) (sym (stays j)))
          (λ j. marks j ∙ r.marked j ∙ sym (stays j))
          (λ j e. rw cap (r.bound j (sym (stays j) ∙ e)))

    -- The cut of the key, its new move already stored.
    update-Split :
        (key : ℕ) (m : Move) (h : PairingHeap Move) (c : Contents Move) (r : Represents above h c)
        → is h.root key ≡ false
        → c.present key ≡ true
        → let nodes = (stored_move key m h).nodes in
          Split above key c.moves (put c.moves key m) r.heap nodes (cut key nodes)
    update-Split key m h c r inner held =
        cut-Split above key r.heap (stored_move key m h).nodes c.moves (put c.moves key m)
          (held_one (c.present key) _ (r.held key) held)
          (subst (λ z. is z key ≡ false) r.root inner) (λ j. held_le (c.present j) _ (r.held j))
          (Laid-stored h.nodes c.moves none (forest r.heap) key m r.laid) r.ordered

    pub update_inner_lem :
        (key : ℕ) (m : Move) (less : Bool) (h : PairingHeap Move) (c : Contents Move)
        → Represents above h c
        → is h.root key ≡ false
        → c.present key ≡ true
        → (less ≡ false → above (c.moves key) m ≡ false)
        → Represents above (update_inner above key less (stored_move key m h)) (with_move key m c)
    unfolding update_inner tally
    update_inner_lem key m false h c r inner held up =
        let nodes = (stored_move key m h).nodes in
        let moves : Table Move = put c.moves key m in
        let s = update-Split key m h c r inner held in
        let (far, own) =
          Split-own above key c.moves moves r.heap nodes (cut key nodes) s
            (held_one (c.present key) _ (r.held key) held) in
        relink_lem key m s.rest s.children h (update_inner above key false (stored_move key m h)) c
          (cut key nodes) r held (λ j. s.total j ∙ r.held j) s.rest_laid s.part_laid
          (kept_order above order key m c.moves (forest s.rest) far s.rest_ordered)
          (raised above order key m c.moves s.children own (up refl) s.part_ordered)
          (Split-move above key c.moves moves r.heap nodes (cut key nodes) s
            (λ j. ground (arith, r.stored j)))
          refl (λ j. refl) (ap (λ z. link above z (some key) (cut key nodes)) (r.root ∙ sym s.root))
    update_inner_lem key m true h c r inner held up =
        let nodes = (stored_move key m h).nodes in
        let moves : Table Move = put c.moves key m in
        let s = update-Split key m h c r inner held in
        let one = held_one (c.present key) _ (r.held key) held in
        let (far, own) = Split-own above key c.moves moves r.heap nodes (cut key nodes) s one in
        let apart = cut key nodes in
        let freed = drop_children key apart in
        let kept =
          Split-move above key c.moves moves r.heap nodes apart s
            (λ j. ground (arith, r.stored j)) in
        let back =
          release-Split above order h.capacity key c.moves moves r.heap nodes apart s one
            (λ j. held_le (c.present j) _ (r.held j))
            (λ j i. r.bound j (held_present (c.present j) _ (r.held j) i))
            (kept_order above order key m c.moves (forest s.rest) far s.rest_ordered)
            (kept_order above order key m c.moves s.children own s.part_ordered.1) in
        let size : ℕ → ℕ = λ j. tally (forest s.rest) j + tally s.children j in
        let done = release_children above h.capacity key (head (forest r.heap)) apart in
        relink_lem key m back.heap nil h (update_inner above key true (stored_move key m h)) c
          done.1 r held
          (λ j.
            let sum : tally (forest back.heap) j + tally (single (tree key nil)) j
                ≡ tally (forest r.heap) j =
              omega (arith, back.total j, s.total j) in
            sum ∙ r.held j)
          back.laid
          (
            back.outside key (omega arith)
                ∙ drop_children_at key apart
                ∙ ap (λ (z : Node Move). record z { child = none }) s.part_laid.0,
            tt,
            tt,
          )
          back.ordered (tt, tt, tt)
          (Merged-move above order moves size freed done back (λ j. ground (arith, kept j))) refl
          (λ j. refl)
          (ap
              (λ z.
                let (root, after) = release_children above h.capacity key z apart in
                link above root (some key) after)
              r.root
            ∙ ap (λ z. link above z (some key) done.1) back.root)
