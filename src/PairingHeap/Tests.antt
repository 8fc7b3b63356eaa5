-- ===== src/PairingHeap/Tests.antt =====
-- Runs of util/pairing_heap.h on moves whose saving is a natural number.
use pto_fusebox.Base.{
  ℕ, ◌≡◌, refl, ◌↔◌, ◌⊎◌, Bool, true, false, none, some, List, [], ◌∷◌, arith, ltb,
}
use pto_fusebox.PairingHeap.{
  PairingHeap, empty_heap, push_or_update, push_new, update_root, update_inner, remove, drop_root,
  drop_inner, pop_from, pop_best, empty, contains, peek_best, peek, cut, hang, collect_peers,
  link_nodes, link_pairs, link_back, merge_peers, release_children,
}
use pto_fusebox.PairingHeap.Forest.{IsOrder}
use pto_fusebox.PairingHeap.Contents.{Contents, with_move, without_key, Represents}
use pto_fusebox.PairingHeap.Calls.{
  IsBest, empty_heap-Represents, queries_lem, push_or_update_lem, remove_lem, pop_best_lem,
}
use pto_fusebox.PairingHeap.Refines.{Call, store, drop, pop, Steps, apply, run, run_lem}

-- `a.saving > b.saving`.
abbrev above : ℕ → ℕ → Bool
above a b = ltb b a

above-IsOrder : IsOrder above
above-IsOrder = record {
  asym = λ x y e. ground (arith, e);
  trans = λ x y z e f. ground (arith, e, f);
}

abbrev calls : List (Call ℕ)
calls =
    store 0 5
    ∷ store 1 9
    ∷ store 2 7
    ∷ store 3 1
    ∷ store 1 2
    ∷ drop 2
    ∷ store 3 6
    ∷ pop
    ∷ pop
    ∷ pop
    ∷ pop
    ∷ []

answers :
    (run above calls (empty_heap 4 0)).0
    ≡ none ∷ none ∷ none ∷ none ∷ none ∷ none ∷ none ∷ some 6 ∷ some 5 ∷ some 2 ∷ none ∷ []
unfolding run apply empty_heap push_or_update push_new update_root update_inner remove drop_root
    drop_inner pop_from pop_best cut hang collect_peers link_nodes link_pairs link_back merge_peers
    release_children
answers = refl

run_lem_example :
    let start : Contents ℕ = record { present = λ j. false; moves = λ j. 0 } in
    let (answers, h) = run above calls (empty_heap 4 0) in
    (c : Contents ℕ) × Steps above start calls answers c × Represents above h c
run_lem_example = run_lem above above-IsOrder 4 0 calls (omega arith)

-- Three keys, of which the second is the root and the others are its children.
abbrev three : PairingHeap ℕ
three =
    push_or_update above 2 7 (push_or_update above 1 9 (push_or_update above 0 5 (empty_heap 4 0)))

abbrev held : Contents ℕ
held =
    with_move 2 7 (with_move 1 9 (with_move 0 5 (record { present = λ j. false; moves = λ j. 0 })))

three-Represents : Represents above three held
unfolding empty_heap push_or_update push_new
three-Represents =
    push_or_update_lem above above-IsOrder 2 7 _ _
      (push_or_update_lem above above-IsOrder 1 9 _ _
        (push_or_update_lem above above-IsOrder 0 5 _ _ vacant (omega arith)) (omega arith))
      (omega arith)
  where
    vacant : Represents above (empty_heap 4 0) (record { present = λ j. false; moves = λ j. 0 })
    vacant = empty_heap-Represents above 4 0

-- The root falls below both of its children.
push_or_update_lem_example : Represents above (push_or_update above 1 6 three) (with_move 1 6 held)
unfolding empty_heap push_or_update push_new
push_or_update_lem_example =
    push_or_update_lem above above-IsOrder 1 6 three held three-Represents (omega arith)

remove_lem_example : Represents above (remove above 2 three) (without_key 2 held)
remove_lem_example = remove_lem above above-IsOrder 2 three held three-Represents

pop_best_lem_example :
    ((pop_best above three ≡ (none, three)) × ((j : ℕ) → held.present j ≡ false))
    ⊎ ((best : ℕ) × ((pop_best above three).0 ≡ some (held.moves best))
        × IsBest above best held
        × Represents above (pop_best above three).1 (without_key best held))
pop_best_lem_example = pop_best_lem above above-IsOrder three held three-Represents

popped_three : (pop_best above three).0 ≡ some 9
unfolding empty_heap push_or_update push_new link_nodes hang pop_best pop_from
popped_three = refl

queries_lem_example :
    ((j : ℕ) → (contains three j ≡ held.present j) × (peek three j ≡ held.moves j))
    × ((empty three ≡ true) ↔ ((j : ℕ) → held.present j ≡ false))
    × (peek_best three ≡ (pop_best above three).0)
queries_lem_example = queries_lem above above-IsOrder three held three-Represents
