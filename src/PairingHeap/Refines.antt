-- ===== src/PairingHeap/Refines.antt =====
-- util/pairing_heap.h as a priority map: what any sequence of calls on a new heap returns.
use pto_fusebox.Base.{
  ℕ, ◌<◌, ◌≡◌, refl, sym, ap, ◌∙◌, subst, inl, inr, Bool, true, false, Option, none, some, List, [],
  ◌∷◌, Bool-cases, Option-cases,
}
use pto_fusebox.PairingHeap.{
  PairingHeap, is, empty_heap, push_or_update, push_new, update_root, update_inner, remove,
  drop_root, drop_inner, pop_from, pop_best, empty, clear,
}
use pto_fusebox.PairingHeap.Forest.{tally, IsOrder}
use pto_fusebox.PairingHeap.Contents.{Contents, with_move, without_key, Represents}
use pto_fusebox.PairingHeap.Calls.{
  IsBest, empty_heap-Represents, push_or_update_lem, remove_lem, pop_best_lem, root-absent,
}

pub data Call (Move : Type 0) : Type 0 where
  store : ℕ → Move → Call Move
  drop : ℕ → Call Move
  pop : Call Move
  wipe : Call Move

module _ {Move : Type 0} where
  -- The keys that are stored are below the capacity.
  abbrev pub Fits : ℕ → List (Call Move) → Type 0
  Fits capacity [] = Unit
  Fits capacity (store key m ∷ calls) = (key < capacity) × Fits capacity calls
  Fits capacity (drop key ∷ calls) = Fits capacity calls
  Fits capacity (pop ∷ calls) = Fits capacity calls
  Fits capacity (wipe ∷ calls) = Fits capacity calls

  -- No key is held.
  abbrev pub wiped : Contents Move → Contents Move
  wiped c = record c { present = λ j. false }

  module _ (above : Move → Move → Bool) where
    unfoldable pub apply : Call Move → PairingHeap Move → Option Move × PairingHeap Move
    apply (store key m) h = (none, push_or_update above key m h)
    apply (drop key) h = (none, remove above key h)
    apply pop h = pop_best above h
    apply wipe h = (none, clear h)

    unfoldable pub run : List (Call Move) → PairingHeap Move → List (Option Move) × PairingHeap Move
    run [] h = ([], h)
    run (call ∷ calls) h =
        let (answer, h') = apply call h in
        let (answers, h'') = run calls h' in (answer ∷ answers, h'')

    -- The abstract machine: one call, its answer, and the contents after it.
    pub data Step (c : Contents Move) : Call Move → Option Move → Contents Move → Type 0 where
      stored : {key : ℕ} {m : Move} → Step c (store key m) none (with_move key m c)
      dropped : {key : ℕ} → Step c (drop key) none (without_key key c)
      popped :
          {best : ℕ} → IsBest above best c → Step c pop (some (c.moves best)) (without_key best c)
      nothing : ((j : ℕ) → c.present j ≡ false) → Step c pop none c
      cleared : Step c wipe none (wiped c)

    pub data Steps
        : Contents Move → List (Call Move) → List (Option Move) → Contents Move → Type 0 where
      done : {c : Contents Move} → Steps c [] [] c
      step :
          {c : Contents Move} {call : Call Move} {calls : List (Call Move)} {answer : Option Move}
          {answers : List (Option Move)} {c' c'' : Contents Move}
          → Step c call answer c'
          → Steps c' calls answers c''
          → Steps c (call ∷ calls) (answer ∷ answers) c''

    capacity-apply :
        (call : Call Move) (h : PairingHeap Move) → (apply call h).1.capacity ≡ h.capacity
    unfolding apply push_or_update push_new update_root update_inner remove drop_root drop_inner
        pop_best pop_from clear
    capacity-apply (store key m) h = elim (Bool-cases (h.in_heap key)) [
      | inr e ↦ rw e refl
      | inl e ↦ elim (Bool-cases (is h.root key)) [
        | inr f ↦ rw (e, f) refl
        | inl f ↦ elim (Bool-cases (above (h.nodes key).move m)) [
          | inl less ↦ rw (e, f, less) refl
          | inr less ↦ rw (e, f, less) refl
        ]
      ]
    ]
    capacity-apply (drop key) h = elim (Bool-cases (h.in_heap key)) [
      | inr e ↦ rw e refl
      | inl e ↦ elim (Bool-cases (is h.root key)) [
        | inr f ↦ rw (e, f) refl
        | inl f ↦ rw (e, f) refl
      ]
    ]
    capacity-apply pop h = elim (Option-cases h.root) [
      | inl e ↦ ap (λ z. (pop_from above z h).1.capacity) e
      | inr (k, e) ↦ ap (λ z. (pop_from above z h).1.capacity) e
    ]
    capacity-apply wipe h = elim (Bool-cases (empty h)) [ inl e ↦ rw e refl | inr e ↦ rw e refl ]

    module _ (order : IsOrder above) where
      clear_lem :
          (h : PairingHeap Move) (c : Contents Move)
          → Represents above h c
          → Represents above (clear h) (wiped c)
      unfolding clear tally
      clear_lem h c r =
          let bare : PairingHeap Move = record h { in_heap = λ k. false; root = none } in
          let fresh : Represents above bare (wiped c) = record {
            heap = none;
            root = refl;
            laid = tt;
            ordered = tt;
            held = λ j. refl;
            marked = λ j. refl;
            stored = r.stored;
            bound = λ j e. cc;
          } in
          elim (Bool-cases (empty h)) [
            | inr e ↦ rw e fresh
            | inl e ↦
                let vacant : h.root ≡ none = rootless h.root e in
                let gone = root-absent above order h c r vacant in
                rw e (record {
                  heap = none;
                  root = vacant;
                  laid = tt;
                  ordered = tt;
                  held = λ j. refl;
                  marked = λ j. r.marked j ∙ gone j;
                  stored = r.stored;
                  bound = λ j x. cc;
                })
          ]
        where
          rootless : (o : Option ℕ) → elim o [ none ↦ true | some k ↦ false ] ≡ true → o ≡ none
          rootless none e = refl
          rootless (some k) e = cc

      -- Every call does what the machine does.
      pub apply_lem :
          (call : Call Move) (h : PairingHeap Move) (c : Contents Move)
          → Represents above h c
          → Fits h.capacity (call ∷ [])
          → (c' : Contents Move) × Step c call (apply call h).0 c'
            × Represents above (apply call h).1 c'
      unfolding apply
      apply_lem (store key m) h c r fits =
          (with_move key m c, stored, push_or_update_lem above order key m h c r fits.0)
      apply_lem (drop key) h c r fits =
          (without_key key c, dropped, remove_lem above order key h c r)
      apply_lem pop h c r fits = elim (pop_best_lem above order h c r) [
        | inl (e, gone) ↦ (
          c,
          subst (λ z. Step c pop z c) (sym (ap (λ z. z.0) e)) (nothing gone),
          subst (λ z. Represents above z c) (sym (ap (λ z. z.1) e)) r,
        )
        | inr (best, e, most, rest) ↦ (
          without_key best c,
          subst (λ z. Step c pop z (without_key best c)) (sym e) (popped most),
          rest,
        )
      ]
      apply_lem wipe h c r fits = (wiped c, cleared, clear_lem h c r)

      Fits-tail :
          (capacity : ℕ) (call : Call Move) (calls : List (Call Move))
          → Fits capacity (call ∷ calls)
          → Fits capacity (call ∷ []) × Fits capacity calls
      Fits-tail capacity (store key m) calls (a, b) = ((a, tt), b)
      Fits-tail capacity (drop key) calls b = (tt, b)
      Fits-tail capacity pop calls b = (tt, b)
      Fits-tail capacity wipe calls b = (tt, b)

      run-Steps :
          (calls : List (Call Move)) (h : PairingHeap Move) (c : Contents Move)
          → Represents above h c
          → Fits h.capacity calls
          → (c' : Contents Move) × Steps c calls (run calls h).0 c'
            × Represents above (run calls h).1 c'
      unfolding run
      run-Steps [] h c r fits = (c, done, r)
      run-Steps (call ∷ calls) h c r fits =
          let (here, later) = Fits-tail h.capacity call calls fits in
          let (c', s, r') = apply_lem call h c r here in
          let (c'', ss, r'') =
            run-Steps calls (apply call h).1 c' r'
              (subst (λ z. Fits z calls) (sym (capacity-apply call h)) later) in
          (c'', step s ss, r'')

      -- A new heap of the given capacity answers any calls whose stored keys are below the capacity
      -- as the abstract machine does that begins with no key held: a pop answers with the move of a
      -- held key that no held key's move is above and takes the key out, or with none if no key is
      -- held. At the end the nodes are one heap-ordered tree of just the keys that are held. The
      -- comparison of savings is a strict weak order.
      pub run_lem :
          (capacity : ℕ) (default : Move) (calls : List (Call Move))
          → Fits capacity calls
          → let start : Contents Move = record { present = λ j. false; moves = λ j. default } in
            let (answers, h) = run calls (empty_heap capacity default) in
            (c : Contents Move) × Steps start calls answers c × Represents above h c
      unfolding empty_heap
      run_lem capacity default calls fits =
          run-Steps calls (empty_heap capacity default)
            (record { present = λ j. false; moves = λ j. default })
            (empty_heap-Represents above capacity default) fits
