-- ===== src/PairingHeap/Update.antt =====
-- util/pairing_heap.h, `push_or_update` on the root, with what an update of any key needs.
use pto_fusebox.Base.{
  ℕ, ◌+◌, ◌<◌, ◌≡◌, refl, sym, ap, ◌∙◌, subst, ◌≢◌, inl, inr, Bool, true, false, none, some, arith,
  if◌then◌else◌, eq_or_ne, ==_refl, ==-eq-false, Table, put,
}
use pto_fusebox.PairingHeap.{Node, PairingHeap, drop_children, release_children, update_root}
use pto_fusebox.PairingHeap.Forest.{
  Forest, nil, tally, Laid-frame, Under-frame, IsOrdered, IsOrdered-frame, IsOrder, Under-trans,
}
use pto_fusebox.PairingHeap.Link.{tree, single}
use pto_fusebox.PairingHeap.Merge.{Merged}
use pto_fusebox.PairingHeap.Contents.{
  Contents, with_move, held_present, Represents, Rooted, Laid-stored, Merged-Represents,
}
use pto_fusebox.PairingHeap.Split.{release_lem}

pub present-with_move :
    (key : ℕ) (present : Table Bool) (j : ℕ)
    → present key ≡ true
    → put present key true j ≡ present j
present-with_move key present j held = elim (eq_or_ne key j) [
  | inl q ↦ rw (sym q, ==_refl key) (sym held)
  | inr ne ↦ rw (==-eq-false key j ne) refl
]

module _ {Move : Type 0} where
  -- `push_or_update` up to the stored move.
  abbrev pub stored_move : ℕ → Move → PairingHeap Move → PairingHeap Move
  stored_move key m h = record h { nodes = put h.nodes key (record (h.nodes key) { move = m }) }

  kept_move :
      (key : ℕ) (m : Move) (moves : Table Move) (f : Forest) (j : ℕ)
      → tally f key ≡ 0
      → 0 < tally f j
      → put moves key m j ≡ moves j
  kept_move key m moves f j z i =
      rw (==-eq-false key j (λ q. absurd (omega (arith, subst (λ x. tally f x ≡ 0) q z)))) refl

  module _ (above : Move → Move → Bool) (order : IsOrder above) where
    pub kept_order :
        (key : ℕ) (m : Move) (moves : Table Move) (f : Forest)
        → tally f key ≡ 0
        → IsOrdered above moves f
        → IsOrdered above (put moves key m) f
    kept_order key m moves f z o =
        IsOrdered-frame above moves (put moves key m) f o (λ j i. kept_move key m moves f j z i)

    -- A move that is not less may stand above the key's children.
    pub raised :
        (key : ℕ) (m : Move) (moves : Table Move) (f : Forest)
        → tally f key ≡ 0
        → above (moves key) m ≡ false
        → IsOrdered above moves (single (tree key f))
        → IsOrdered above (put moves key m) (single (tree key f))
    raised key m moves f z up (u, of, _) = (
      rw (==_refl key) (
          Under-trans above order (put moves key m) (moves key) m f
            (Under-frame above moves (put moves key m) (moves key) f u
              (λ j i. kept_move key m moves f j z i))
            up),
      kept_order key m moves f z of,
      tt,
    )

    pub update_root_lem :
        (key : ℕ) (m : Move) (less : Bool) (h : PairingHeap Move) (c : Contents Move)
        → Represents above h c
        → Rooted above key h c
        → c.present key ≡ true
        → (less ≡ false → above (c.moves key) m ≡ false)
        → Represents above (update_root above key less (stored_move key m h)) (with_move key m c)
    unfolding update_root tally
    update_root_lem key m false h c r t held up = record {
      heap = some (tree key t.children);
      root = t.root;
      laid = Laid-stored h.nodes c.moves none (single (tree key t.children)) key m t.laid;
      ordered = raised key m c.moves t.children t.own (up refl) t.ordered;
      held = λ j.
          t.held j ∙ ap (λ b. if b then 1 else 0) (sym (present-with_move key c.present j held));
      marked = λ j. r.marked j ∙ sym (present-with_move key c.present j held);
      stored = λ j. ground (arith, r.stored j);
      bound = λ j e. r.bound j (sym (present-with_move key c.present j held) ∙ e);
    }
    update_root_lem key m true h c r t held up =
        let moves : Table Move = put c.moves key m in
        let nodes : Table (Node Move) = put h.nodes key (record (h.nodes key) { move = m }) in
        let (e, lf, _) =
          Laid-stored h.nodes c.moves none (single (tree key t.children)) key m t.laid in
        let freed : (j : ℕ) → key ≢ j → drop_children key nodes j ≡ nodes j =
          λ j ne. rw (==-eq-false key j ne) refl in
        let size : ℕ → ℕ = λ j. tally (single (tree key nil)) j + tally t.children j in
        let done =
          release_lem above order h.capacity key (some (tree key nil)) t.children nodes moves
            (ap (λ (z : Node Move). z.child) e) (λ j. omega (arith, t.distinct j))
            (λ j i. r.bound j (held_present (c.present j) _ (t.held j) (omega arith)))
            (
              rw (==_refl key)
                  (ap (λ (z : Node Move). record z { move = m; child = none }) t.laid.0),
              tt,
              tt,
            )
            (Laid-frame nodes (drop_children key nodes) moves moves (some key) t.children lf
              (λ j i. (freed j (t.off j i), refl)))
            (tt, tt, tt) (kept_order key m c.moves t.children t.own t.ordered.1) in
        let sized : (j : ℕ) → size j ≡ (if put c.present key true j then 1 else 0) = λ j.
          let all : size j ≡ tally (single (tree key t.children)) j = omega arith in
          all
          ∙ t.held j
          ∙ ap (λ b. if b then 1 else 0) (sym (present-with_move key c.present j held)) in
        Merged-Represents above order (update_root above key true (stored_move key m h))
          (with_move key m c) size (drop_children key nodes)
          (subst
            (λ z.
              Merged above order moves size (drop_children key nodes)
                (release_children above h.capacity key z nodes))
            (sym t.root) done)
          (λ j. ground (arith, r.stored j)) sized
          (λ j. r.marked j ∙ sym (present-with_move key c.present j held))
          (λ j e. r.bound j (sym (present-with_move key c.present j held) ∙ e))
