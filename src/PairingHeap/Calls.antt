-- ===== src/PairingHeap/Calls.antt =====
-- util/pairing_heap.h: every public operation on a heap with given contents.
use pto_fusebox.Base.{
  ℕ, ◌<◌, ◌≡◌, refl, sym, ap, ◌∙◌, subst, ◌↔◌, ◌⊎◌, inl, inr, Bool, true, false, Option, none, some,
  arith, if◌then◌else◌, Bool-cases, Option-cases, eq_or_ne, lt→ltb, true_or_false, ==_refl,
  ==-eq-false, put,
}
use pto_fusebox.PairingHeap.{
  PairingHeap, is, empty_heap, push_or_update, drop_root, remove, pop_from, pop_best, empty,
  contains, peek, peek_best,
}
use pto_fusebox.PairingHeap.Forest.{Forest, nil, node, head, tally, IsOrder, Under-all}
use pto_fusebox.PairingHeap.Link.{tree, single}
use pto_fusebox.PairingHeap.Merge.{forest}
use pto_fusebox.PairingHeap.Contents.{
  Contents, with_move, without_key, held_one, held_present, Represents, root_lem,
}
use pto_fusebox.PairingHeap.Store.{push_lem}
use pto_fusebox.PairingHeap.Update.{update_root_lem}
use pto_fusebox.PairingHeap.Inner.{update_inner_lem}
use pto_fusebox.PairingHeap.Remove.{drop_root_lem, drop_inner_lem}

-- `best` is held and no key that is held is above it.
abbrev pub IsBest : {Move : Type 0} → (Move → Move → Bool) → ℕ → Contents Move → Type 0
IsBest above best c =
    (c.present best ≡ true)
    × ((j : ℕ) → c.present j ≡ true → above (c.moves j) (c.moves best) ≡ false)

pub empty_heap-Represents :
    {Move : Type 0} (above : Move → Move → Bool) (capacity : ℕ) (default : Move)
    → Represents above
        (empty_heap capacity default)
        (record { present = λ j. false; moves = λ j. default })
unfolding empty_heap tally
empty_heap-Represents above capacity default = record {
  heap = none;
  root = refl;
  laid = tt;
  ordered = tt;
  held = λ j. refl;
  marked = λ j. refl;
  stored = λ j. refl;
  bound = λ j e. cc;
}

module _ {Move : Type 0} (above : Move → Move → Bool) (order : IsOrder above) where
  -- Storing a move under a key below the capacity, new or held, with a higher saving or a lower one,
  -- leaves one heap-ordered tree of just the keys that are held, in which that key has the new move
  -- and every other key what it had. The comparison of savings is a strict weak order.
  pub push_or_update_lem :
      (key : ℕ) (m : Move) (h : PairingHeap Move) (c : Contents Move)
      → Represents above h c
      → key < h.capacity
      → Represents above (push_or_update above key m h) (with_move key m c)
  unfolding push_or_update
  push_or_update_lem key m h c r fits = elim (Bool-cases (h.in_heap key)) [
    | inr new ↦ rw new (push_lem above order key m h c r (sym (r.marked key) ∙ new) fits)
    | inl old ↦
        let held : c.present key ≡ true = sym (r.marked key) ∙ old in
        let less = above (h.nodes key).move m in
        let up : less ≡ false → above (c.moves key) m ≡ false =
          λ e. subst (λ z. above z m ≡ false) (r.stored key) e in
        elim (Bool-cases (is h.root key)) [
          | inl e ↦
              rw (old, e)
                (update_root_lem above order key m less h c r (root_lem above key h c r e) held up)
          | inr e ↦ rw (old, e) (update_inner_lem above order key m less h c r e held up)
        ]
  ]

  -- A key that is not held stays so.
  erase_absent :
      (key : ℕ) (h : PairingHeap Move) (c : Contents Move)
      → Represents above h c
      → c.present key ≡ false
      → Represents above h (without_key key c)
  erase_absent key h c r gone =
      let same : (j : ℕ) → c.present j ≡ put c.present key false j = λ j. elim (eq_or_ne key j) [
        | inl q ↦ rw (sym q, ==_refl key) gone
        | inr ne ↦ rw (==-eq-false key j ne) refl
      ] in
      record {
        heap = r.heap;
        root = r.root;
        laid = r.laid;
        ordered = r.ordered;
        held = λ j. r.held j ∙ ap (λ b. if b then 1 else 0) (same j);
        marked = λ j. r.marked j ∙ same j;
        stored = r.stored;
        bound = λ j e. r.bound j (same j ∙ e);
      }

  -- Removing a key, the root or another, leaves one heap-ordered tree of the other held keys, with
  -- their moves; a key that is not held changes nothing. The comparison of savings is a strict weak
  -- order.
  pub remove_lem :
      (key : ℕ) (h : PairingHeap Move) (c : Contents Move)
      → Represents above h c
      → Represents above (remove above key h) (without_key key c)
  unfolding remove
  remove_lem key h c r = elim (Bool-cases (h.in_heap key)) [
    | inr gone ↦ rw gone (erase_absent key h c r (sym (r.marked key) ∙ gone))
    | inl old ↦ elim (Bool-cases (is h.root key)) [
      | inl e ↦ rw (old, e) (drop_root_lem above order key h c r (root_lem above key h c r e))
      | inr e ↦ rw (old, e) (drop_inner_lem above order key h c r e (sym (r.marked key) ∙ old))
    ]
  ]

  irrefl : (x : Move) → above x x ≡ false
  irrefl x = elim (Bool-cases (above x x)) [ inl e ↦ order.asym x x e | inr e ↦ e ]

  pub root-IsBest :
      (best : ℕ) (h : PairingHeap Move) (c : Contents Move)
      → Represents above h c
      → h.root ≡ some best
      → IsBest above best c
  unfolding tally
  root-IsBest best h c r e =
      let t = root_lem above best h c r (subst (λ z. is z best ≡ true) (sym e) (==_refl best)) in
      (
        held_present (c.present best) _ (t.held best) (rw (==_refl best) (omega arith)),
        λ j i.
            Under-all above order c.moves (c.moves best) (single (tree best t.children))
              (irrefl (c.moves best), tt) t.ordered j
              (omega (arith, held_one (c.present j) _ (t.held j) i)),
      )

  pub root-absent :
      (h : PairingHeap Move) (c : Contents Move)
      → Represents above h c
      → h.root ≡ none
      → (j : ℕ) → c.present j ≡ false
  unfolding tally
  root-absent h c r e j =
      let bare : forest r.heap ≡ nil = headless (forest r.heap) (sym r.root ∙ e) in
      elim (Bool-cases (c.present j)) [
        | inr no_key ↦ no_key
        | inl key ↦
            absurd
              (omega (arith, held_one (c.present j) _ (r.held j) key, ap (λ z. tally z j) bare))
      ]
    where
      headless : (f : Forest) → head f ≡ none → f ≡ nil
      headless nil e = refl
      headless (node k c s) e = cc

  -- On a heap that holds no key `pop_best` returns none and changes nothing. Otherwise it returns the
  -- move of a held key that no held key's move is above, and leaves one heap-ordered tree of the
  -- other held keys. The comparison of savings is a strict weak order.
  pub pop_best_lem :
      (h : PairingHeap Move) (c : Contents Move)
      → Represents above h c
      → ((pop_best above h ≡ (none, h)) × ((j : ℕ) → c.present j ≡ false))
        ⊎ ((best : ℕ) × ((pop_best above h).0 ≡ some (c.moves best))
            × IsBest above best c
            × Represents above (pop_best above h).1 (without_key best c))
  unfolding pop_best pop_from
  pop_best_lem h c r = elim (Option-cases h.root) [
    | inl e ↦ inl (ap (λ z. pop_from above z h) e, root-absent h c r e)
    | inr (best, e) ↦
        let t = root_lem above best h c r (subst (λ z. is z best ≡ true) (sym e) (==_refl best)) in
        let runs : pop_best above h ≡ (some (h.nodes best).move, drop_root above best h) =
          ap (λ z. pop_from above z h) e in
        inr (
          best,
          ap (λ z. z.0) runs ∙ ap some (r.stored best),
          root-IsBest best h c r e,
          subst (λ z. Represents above z.1 (without_key best c)) (sym runs)
              (drop_root_lem above order best h c r t),
        )
  ]

  peek_from :
      (o : Option ℕ) (h : PairingHeap Move)
      → elim o [ none ↦ none | some k ↦ some (h.nodes k).move ] ≡ (pop_from above o h).0
  unfolding pop_from
  peek_from none h = refl
  peek_from (some k) h = refl

  -- On a heap that represents its contents `contains` tells the held keys, `peek` reads the move last
  -- stored under a key, `empty` holds exactly when no key is held, and `peek_best` returns what
  -- `pop_best` would. The comparison of savings is a strict weak order.
  pub queries_lem :
      (h : PairingHeap Move) (c : Contents Move)
      → Represents above h c
      → ((j : ℕ) → (contains h j ≡ c.present j) × (peek h j ≡ c.moves j))
        × ((empty h ≡ true) ↔ ((j : ℕ) → c.present j ≡ false))
        × (peek_best h ≡ (pop_best above h).0)
  unfolding contains peek_best pop_best pop_from
  queries_lem h c r = (
    λ j. (
      elim (Bool-cases (c.present j)) [
        | inl e ↦ rw (r.marked j, e, lt→ltb j h.capacity (r.bound j e)) refl
        | inr e ↦ rw (r.marked j, e) (ground arith)
      ],
      r.stored j,
    ),
    elim (Option-cases h.root) [
      | inl e ↦
          (λ t. root-absent h c r e, λ gone. ap (λ o. elim o [ none ↦ true | some k ↦ false ]) e)
      | inr (best, e) ↦ (
        λ t. absurd (true_or_false t (ap (λ o. elim o [ none ↦ true | some k ↦ false ]) e)),
        λ gone. absurd (true_or_false (root-IsBest best h c r e).0 (gone best)),
      )
    ],
    peek_from h.root h,
  )
