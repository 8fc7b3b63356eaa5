-- ===== src/Dag/Merge/Cycle.antt =====
-- core/dag.cpp, DAG::merge_creates_cycle: the answer.
use pto_fusebox.Base.{
  ℕ, ◌/◌, ◌%◌, ◌<◌, ◌≡◌, ◌↔◌, Bool, true, false, ◌||◌, ◌&&◌, Table, ltb, ◌==◌, arith, inl, inr,
  Bool-cases, elem, any, any_find, any_intro, ltb→lt, lt→ltb,
}
use pto_fusebox.Base.Bits.{test_bit-zero}
use pto_fusebox.FlatSet.{FlatSet}
use pto_fusebox.Dag.{Dag}
use pto_fusebox.Dag.Graph.{Walk}
use pto_fusebox.Dag.Rows.Cells.{bit}
use pto_fusebox.Dag.Rows.Lookup.{IsBuilt, column_fits, bit-Walk}
use pto_fusebox.Dag.Merge.{add_mask, add_reach, scan_words, merge_creates_cycle}
use pto_fusebox.Dag.Merge.Masks.{
  set_bit, IsMask, add_mask-IsMask, set_bit-add_mask, set_bit-add_reach,
}
use pto_fusebox.Dag.Merge.Scan.{
  reaches_back_sound, reaches_back_complete, scan_words_sound, scan_words_complete,
}

-- An operation of the graph that is in one of the two sets.
abbrev pub member : Dag → FlatSet → FlatSet → ℕ → Bool
member d a b v = ltb v d.num_ops && (elem a v || elem b v)

-- A walk leaves the merged set to an operation outside, and another leads from there back.
pub record Detour (d : Dag) (a b : FlatSet) : Type 0 where
  pub from : ℕ
  pub outside : ℕ
  pub back : ℕ
  pub from_member : member d a b from ≡ true
  pub back_member : member d a b back ≡ true
  pub outside_inside : outside < d.num_ops
  pub not_member : member d a b outside ≡ false
  pub leaves : Walk d.op_succs from outside
  pub returns : Walk d.op_succs outside back

module _ (d : Dag) (built : IsBuilt d) (a b : FlatSet) where
  mask : Table ℕ
  mask = add_mask d.num_ops b (add_mask d.num_ops a (λ w. 0))

  out : Table ℕ
  out = add_reach d b (add_reach d a (λ w. 0))

  mask-IsMask : IsMask mask
  unfolding mask
  mask-IsMask =
      add_mask-IsMask d.num_ops b _ (add_mask-IsMask d.num_ops a (λ w. 0) (λ w. omega arith))

  set_bit-mask : (v : ℕ) → set_bit mask v ≡ member d a b v
  unfolding mask
  set_bit-mask v = ground (
    arith,
    set_bit-add_mask d.num_ops b (add_mask d.num_ops a (λ w. 0)) v,
    set_bit-add_mask d.num_ops a (λ w. 0) v,
    test_bit-zero (v % 64),
  )

  abbrev reached_from : ℕ → ℕ → Bool
  reached_from v op = ltb op d.num_ops && bit d.words_per_row d.reachable op v

  set_bit-out :
      (v : ℕ)
      → v / 64 < d.words_per_row
      → set_bit out v ≡ (any (reached_from v) a || any (reached_from v) b)
  unfolding out
  set_bit-out v h = ground (
    arith,
    set_bit-add_reach d b (add_reach d a (λ w. 0)) v h,
    set_bit-add_reach d a (λ w. 0) v h,
    test_bit-zero (v % 64),
  )

  -- An operation that a member reaches, with the member.
  reached_member :
      (v : ℕ)
      → (any (reached_from v) a || any (reached_from v) b) ≡ true
      → (op : ℕ) × (member d a b op ≡ true) × (reached_from v op ≡ true)
  reached_member v h = elim (Bool-cases (any (reached_from v) a)) [
    | inl e ↦ let (op, m, r) = any_find (reached_from v) a e in (op, ground arith, r)
    | inr e ↦ let (op, m, r) = any_find (reached_from v) b (ground arith) in (op, ground arith, r)
  ]

  member_reaches :
      (v op : ℕ)
      → member d a b op ≡ true
      → reached_from v op ≡ true
      → (any (reached_from v) a || any (reached_from v) b) ≡ true
  member_reaches v op m r =
      ground (arith, any_intro (reached_from v) a op, any_intro (reached_from v) b op)

  and_parts : {p q : Bool} → (p && q) ≡ true → (p ≡ true) × (q ≡ true)
  and_parts h = ground arith

  scan_sound : scan_words d mask out d.words_per_row ≡ true → Detour d a b
  scan_sound h =
      let (x, fits, reached, new, hit) =
        scan_words_sound d mask mask-IsMask out d.words_per_row h in
      let (inside, backwards) = and_parts hit in
      let x_inside = ltb→lt x d.num_ops inside in
      let (op, member_op, from_op) = reached_member x (rw (← set_bit-out x fits) reached) in
      let op_inside = ltb→lt op d.num_ops (and_parts member_op).0 in
      let (v, _, from_x, in_mask) =
        reaches_back_sound d mask mask-IsMask x d.words_per_row backwards in
      let member_v : member d a b v ≡ true = rw (← set_bit-mask v) in_mask in
      let v_inside = ltb→lt v d.num_ops (and_parts member_v).0 in
      record {
        from = op;
        outside = x;
        back = v;
        from_member = member_op;
        back_member = member_v;
        outside_inside = x_inside;
        not_member = rw (← set_bit-mask x) new;
        leaves = (bit-Walk d built op x op_inside x_inside).0 (and_parts from_op).1;
        returns = (bit-Walk d built x v x_inside v_inside).0 from_x;
      }

  scan_complete : Detour d a b → scan_words d mask out d.words_per_row ≡ true
  scan_complete r =
      let from_inside = ltb→lt from d.num_ops (and_parts from_member).0 in
      let back_inside = ltb→lt back d.num_ops (and_parts back_member).0 in
      let fits = column_fits d built outside outside_inside in
      let from_bit = (bit-Walk d built from outside from_inside outside_inside).1 leaves in
      let back_bit = (bit-Walk d built outside back outside_inside back_inside).1 returns in
      let hit =
        reaches_back_complete d mask mask-IsMask outside d.words_per_row back
          (column_fits d built back back_inside) back_bit (rw (set_bit-mask back) back_member) in
      scan_words_complete d mask mask-IsMask out d.words_per_row outside fits
        (rw (set_bit-out outside fits) (
          member_reaches outside from from_member
            (rw (lt→ltb from d.num_ops from_inside, from_bit))))
        (rw (set_bit-mask outside) not_member) (rw (lt→ltb outside d.num_ops outside_inside, hit))
    where
      open r use {
        from, outside, back, from_member, back_member, outside_inside, not_member, leaves, returns,
      }

-- On a graph that was built, `merge_creates_cycle` holds exactly when a walk leads from an
-- operation of the merged set to an operation outside it and another walk leads from there back to
-- an operation of the merged set.
pub merge_creates_cycle_lem :
    (d : Dag) → IsBuilt d → (a b : FlatSet) → (merge_creates_cycle d a b ≡ true) ↔ Detour d a b
unfolding merge_creates_cycle
merge_creates_cycle_lem d built a b = elim (Bool-cases (d.words_per_row == 0)) [
  | inl e ↦
      rw e (λ h. cc, λ r. absurd (ground (arith, column_fits d built r.outside r.outside_inside)))
  | inr e ↦ rw e (unfold mask out in (scan_sound d built a b, scan_complete d built a b))
]
