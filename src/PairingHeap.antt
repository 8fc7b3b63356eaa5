-- ===== src/PairingHeap.antt =====
-- util/pairing_heap.h: the pairing heap over an array of nodes. The type of the moves is a parameter,
-- and so is the comparison of their `saving`, a double: `above a b` stands for
-- `a.saving > b.saving`. An index that is `-1` in the source is `none`.
pub mod Forest
pub mod Link
pub mod Merge
pub mod Peers
pub mod Cut
pub mod Room
pub mod Contents
pub mod Split
pub mod Store
pub mod Update
pub mod Inner
pub mod Remove
pub mod Calls
pub mod Refines
mod Tests
use pto_fusebox.Base.{
  ℕ, zero, suc, ◌+◌, ◌-◌, ◌*◌, ◌/◌, ◌%◌, ◌≤◌, ◌<◌, min, max, ◌≡◌, refl, sym, ap, ◌∙◌, subst,
  fun_ext, ◌≢◌, ◌↔◌, ◌⊎◌, inl, inr, Bool, true, false, not, ◌&&◌, ◌||◌, Option, none, some, List,
  [], ◌∷◌, ◌++◌, map, arith, ltb, leb, ◌==◌, if◌then◌else◌, Bool-cases, Option-cases, eq_or_ne,
  lt_or_ge, ◌^◌, ◌>>=◌, >>=-some, ltb→lt, lt→ltb, leb→le, le→leb, above_leb, ltb_of_zero,
  true_or_false, ==→eq, ==_refl, ==-eq-false, length, get_elem?, get_or, length-append, List-cases,
  All, elem, elem-append, In, All-In, range_by, In-range_by, IsAscending, range_by-IsAscending, any,
  any_find, any_intro, any_cong, Table, put,
}

pub record Node (Move : Type 0) : Type 0 where
  pub move : Move
  pub child : Option ℕ
  pub next_sibling : Option ℕ
  pub prev : Option ℕ

-- `merge_buf_` is scratch space of `merge_peers`, a list there.
pub record PairingHeap (Move : Type 0) : Type 0 where
  pub capacity : ℕ
  pub nodes : Table (Node Move)
  pub in_heap : Table Bool
  pub root : Option ℕ

-- The index `o` is `key`.
abbrev pub is : Option ℕ → ℕ → Bool
is none key = false
is (some k) key = k == key

module _ {Move : Type 0} where
  -- The constructor: every node holds a default move.
  unfoldable pub empty_heap : ℕ → Move → PairingHeap Move
  empty_heap capacity default = record {
    capacity = capacity;
    nodes = λ k. record { move = default; child = none; next_sibling = none; prev = none };
    in_heap = λ k. false;
    root = none;
  }

  -- `if (o != -1) nodes_[o].prev = p;`
  abbrev pub set_prev : Option ℕ → Option ℕ → Table (Node Move) → Table (Node Move)
  set_prev none p nodes = nodes
  set_prev (some k) p nodes = put nodes k (record (nodes k) { prev = p })

  -- The tail of `link`: `b` becomes the first child of `a`.
  pub hang : ℕ → ℕ → Table (Node Move) → Table (Node Move)
  hang a b nodes =
      let below : Table (Node Move) =
        put nodes b (record (nodes b) { prev = some a; next_sibling = (nodes a).child }) in
      let pushed : Table (Node Move) = set_prev (below a).child (some b) below in
      put pushed a (record (pushed a) { child = some b })

  -- What a node that `a` hangs on keeps of it: its next sibling in its place.
  abbrev pub bypass : ℕ → Option ℕ → Node Move → Node Move
  bypass a next parent =
      if is parent.child a
      then record parent { child = next }
      else record parent { next_sibling = next }

  abbrev pub set_parent : ℕ → Option ℕ → Option ℕ → Table (Node Move) → Table (Node Move)
  set_parent a none next nodes = nodes
  set_parent a (some p) next nodes = put nodes p (bypass a next (nodes p))

  unfoldable pub cut : ℕ → Table (Node Move) → Table (Node Move)
  cut a nodes =
      let p = (nodes a).prev in
      let around : Table (Node Move) = set_parent a p (nodes a).next_sibling nodes in
      let back : Table (Node Move) = set_prev (around a).next_sibling p around in
      put back a (record (back a) { prev = none; next_sibling = none })

  -- The first loop of `merge_peers`: the peers come apart and go into the buffer.
  pub collect_peers : ℕ → Option ℕ → Table (Node Move) → List ℕ × Table (Node Move)
  collect_peers fuel none nodes = ([], nodes)
  collect_peers zero (some cur) nodes = ([], nodes)
  collect_peers (suc fuel) (some cur) nodes =
      let (buffer, nodes') =
        collect_peers fuel (nodes cur).next_sibling
          (put nodes cur (record (nodes cur) { prev = none; next_sibling = none })) in
      (cur ∷ buffer, nodes')

  -- `nodes_[key].child = -1`.
  abbrev pub drop_children : ℕ → Table (Node Move) → Table (Node Move)
  drop_children key nodes = put nodes key (record (nodes key) { child = none })

  module _ (above : Move → Move → Bool) where
    pub link_nodes : ℕ → ℕ → Table (Node Move) → ℕ × Table (Node Move)
    link_nodes a b nodes =
        if above (nodes b).move (nodes a).move then (b, hang b a nodes) else (a, hang a b nodes)

    abbrev pub link : Option ℕ → Option ℕ → Table (Node Move) → Option ℕ × Table (Node Move)
    link none b nodes = (b, nodes)
    link (some a) none nodes = (some a, nodes)
    link (some a) (some b) nodes = let (r, nodes') = link_nodes a b nodes in (some r, nodes')

    -- The second loop: what it leaves at the even positions of the buffer.
    pub link_pairs : List ℕ → Table (Node Move) → List ℕ × Table (Node Move)
    link_pairs [] nodes = ([], nodes)
    link_pairs (a ∷ []) nodes = (a ∷ [], nodes)
    link_pairs (a ∷ b ∷ buffer) nodes =
        let (r, nodes') = link_nodes a b nodes in
        let (rs, nodes'') = link_pairs buffer nodes' in (r ∷ rs, nodes'')

    -- The third loop: from the last one back to the first.
    pub link_back : List ℕ → Table (Node Move) → Option ℕ × Table (Node Move)
    link_back [] nodes = (none, nodes)
    link_back (a ∷ buffer) nodes =
        let (result, nodes') = link_back buffer nodes in link result (some a) nodes'

    -- `capacity` bounds the number of peers.
    pub merge_peers : ℕ → Option ℕ → Table (Node Move) → Option ℕ × Table (Node Move)
    merge_peers capacity first nodes =
        let (buffer, apart) = collect_peers capacity first nodes in
        let (firsts, paired) = link_pairs buffer apart in link_back firsts paired

    -- `if (c != -1) root_ = link(root_, merge_peers(c));` after the children of `key` are dropped.
    pub release_children : ℕ → ℕ → Option ℕ → Table (Node Move) → Option ℕ × Table (Node Move)
    release_children capacity key root nodes =
        let (merged, nodes') = merge_peers capacity (nodes key).child (drop_children key nodes) in
        link root merged nodes'

    -- `push_or_update` on a key that is not in the heap.
    unfoldable pub push_new : ℕ → Move → PairingHeap Move → PairingHeap Move
    push_new key move h =
        let nodes : Table (Node Move) =
          put h.nodes key
            (record { move = move; child = none; next_sibling = none; prev = none }) in
        let (root, nodes') = link h.root (some key) nodes in
        record h { nodes = nodes'; in_heap = put h.in_heap key true; root = root }

    -- `push_or_update` on the root, the new move already stored.
    unfoldable pub update_root : ℕ → Bool → PairingHeap Move → PairingHeap Move
    update_root key less h =
        if less
        then (let (root, nodes) = release_children h.capacity key h.root h.nodes in
            record h { nodes = nodes; root = root })
        else h

    -- `push_or_update` on another key of the heap.
    unfoldable pub update_inner : ℕ → Bool → PairingHeap Move → PairingHeap Move
    update_inner key less h =
        let nodes = cut key h.nodes in
        let (root, nodes') =
          if less then release_children h.capacity key h.root nodes else (h.root, nodes) in
        let (root', nodes'') = link root (some key) nodes' in
        record h { nodes = nodes''; root = root' }

    unfoldable pub push_or_update : ℕ → Move → PairingHeap Move → PairingHeap Move
    push_or_update key move h =
        if h.in_heap key
        then (let less = above (h.nodes key).move move in
            let moved : PairingHeap Move = record h {
              nodes = put h.nodes key (record (h.nodes key) { move = move });
            } in
            if is h.root key then update_root key less moved else update_inner key less moved)
        else push_new key move h

    -- The root leaves and its children are merged.
    unfoldable pub drop_root : ℕ → PairingHeap Move → PairingHeap Move
    drop_root key h =
        let (root, nodes) = merge_peers h.capacity (h.nodes key).child h.nodes in
        record h { nodes = nodes; in_heap = put h.in_heap key false; root = root }

    unfoldable pub drop_inner : ℕ → PairingHeap Move → PairingHeap Move
    drop_inner key h =
        let (root, nodes) = release_children h.capacity key h.root (cut key h.nodes) in
        record h { nodes = nodes; in_heap = put h.in_heap key false; root = root }

    -- On a key that is not below the capacity, where the source reads out of range, nothing changes.
    unfoldable pub remove : ℕ → PairingHeap Move → PairingHeap Move
    remove key h =
        if h.in_heap key then if is h.root key then drop_root key h else drop_inner key h else h

    -- `pop_best` with the index of the root.
    unfoldable pub pop_from : Option ℕ → PairingHeap Move → Option Move × PairingHeap Move
    pop_from none h = (none, h)
    pop_from (some best) h = (some (h.nodes best).move, drop_root best h)

    unfoldable pub pop_best : PairingHeap Move → Option Move × PairingHeap Move
    pop_best h = pop_from h.root h

  abbrev pub empty : PairingHeap Move → Bool
  empty h = elim h.root [ none ↦ true | some k ↦ false ]

  unfoldable pub contains : PairingHeap Move → ℕ → Bool
  contains h key = ltb key h.capacity && h.in_heap key

  unfoldable pub peek_best : PairingHeap Move → Option Move
  peek_best h = elim h.root [ none ↦ none | some k ↦ some (h.nodes k).move ]

  unfoldable pub clear : PairingHeap Move → PairingHeap Move
  clear h = if empty h then h else record h { in_heap = λ k. false; root = none }

  abbrev pub peek : PairingHeap Move → ℕ → Move
  peek h key = (h.nodes key).move
