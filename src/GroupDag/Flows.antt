-- ===== src/GroupDag/Flows.antt =====
-- core/group_dag.cpp, GroupDAG::build: the edges in terms of the data flow.
use pto_fusebox.Base.{
  ℕ, ◌≡◌, refl, sym, ◌∙◌, subst, ◌≢◌, ◌↔◌, ◌⊎◌, inl, inr, Bool, true, false, ◌&&◌, ◌||◌, some,
  arith, ltb, ◌==◌, Bool-cases, ==-eq-false, length, elem, any, any_find, any_intro,
}
use pto_fusebox.Dag.Build.Producers.{depends}
use pto_fusebox.Partition.{Partition, group_at}
use pto_fusebox.Partition.Index.{is_in}
use pto_fusebox.GroupDag.{GroupDag, is_other, built_edges, build}
use pto_fusebox.GroupDag.Edges.{IsMirrored, IsMirrored-same}
use pto_fusebox.GroupDag.Order.Valid.{HasOrder, compute_topo_order_lem}
use pto_fusebox.GroupDag.Links.{feeds, fed_by, alive-lt}
use pto_fusebox.GroupDag.Build.{edges_below, built_edges-Adds}
use pto_fusebox.GroupDag.Feeds.{IsReady, feeds_sound, feeds_complete, fed_by_sound, fed_by_complete}

-- An operation of group `v` depends on one of group `u`, and they do not share both.
pub record GroupEdge (part : Partition) (u v : ℕ) : Type 0 where
  pub producer : ℕ
  pub consumer : ℕ
  pub producer_in : is_in part producer u ≡ true
  pub consumer_in : is_in part consumer v ≡ true
  pub flows : depends part.prob.ops producer consumer ≡ true
  pub distinct : u ≢ v
  pub crossing :
      (elem (group_at part u).ops consumer && elem (group_at part v).ops producer) ≡ false

or_parts : {p q : Bool} → (p || q) ≡ true → (p ≡ true) ⊎ (q ≡ true)
or_parts h = ground arith

four_parts :
    {p q r s : Bool} → (p && q && r && s) ≡ true → (p ≡ true) × (q ≡ true) × (r ≡ true) × (s ≡ true)
four_parts h = ground arith

and_false : (p : Bool) {q : Bool} → q ≡ false → (p && q) ≡ false
and_false p h = ground arith

module _ (part : Partition) (r : IsReady part) where
  elem_in : (op gi : ℕ) → is_in part op gi ≡ true → elem (group_at part gi).ops op ≡ true
  elem_in op gi h = ground arith

  other_distinct : (u v : ℕ) → is_other part u v ≡ true → v ≢ u
  other_distinct u v h same = ground arith

  GroupEdge-sound :
      (u v : ℕ) → edges_below part (length part.groups) u v ≡ true → GroupEdge part u v
  GroupEdge-sound u v h =
      elim (or_parts
        {p = ltb u (length part.groups)
          && (group_at part u).alive
          && is_other part u v
          && any (feeds part u v) (group_at part u).ops}
        {q = ltb v (length part.groups)
          && (group_at part v).alive
          && is_other part v u
          && any (fed_by part v u) (group_at part v).ops}
        h) [
          | inl e ↦
              let (_, life, other, some_op) =
                four_parts {p = ltb u (length part.groups)} {q = (group_at part u).alive}
                  {r = is_other part u v} {s = any (feeds part u v) (group_at part u).ops} e in
              let (p, m, q) = any_find (feeds part u v) (group_at part u).ops some_op in
              let (c, flows, out, n) = feeds_sound part r u v p q in
              record {
                producer = p;
                consumer = c;
                producer_in = cc;
                consumer_in = n;
                flows = flows;
                distinct = λ same. other_distinct u v other (sym same);
                crossing = rw out refl;
              }
          | inr e ↦
              let (_, life, other, some_op) =
                four_parts {p = ltb v (length part.groups)} {q = (group_at part v).alive}
                  {r = is_other part v u} {s = any (fed_by part v u) (group_at part v).ops} e in
              let (c, m, q) = any_find (fed_by part v u) (group_at part v).ops some_op in
              let (p, flows, out, n) = fed_by_sound part r u v c q in
              record {
                producer = p;
                consumer = c;
                producer_in = n;
                consumer_in = cc;
                flows = flows;
                distinct = λ same. other_distinct v u other same;
                crossing = and_false _ out;
              }
        ]

  GroupEdge-complete :
      (u v : ℕ) → GroupEdge part u v → edges_below part (length part.groups) u v ≡ true
  GroupEdge-complete u v e =
      let p = e.producer in
      let c = e.consumer in
      let p_in = elem_in p u e.producer_in in
      let c_in = elem_in c v e.consumer_in in
      let u_alive : (group_at part u).alive ≡ true = ground (arith, e.producer_in) in
      let v_alive : (group_at part v).alive ≡ true = ground (arith, e.consumer_in) in
      let u_inside = alive-lt part.groups u u_alive in
      let v_inside = alive-lt part.groups v v_alive in
      let apart : (v == u) ≡ false = ==-eq-false v u (λ same. e.distinct (sym same)) in
      let apart' : (u == v) ≡ false = ==-eq-false u v e.distinct in
      elim (Bool-cases (elem (group_at part u).ops c)) [
        | inr out ↦
            let fed =
              any_intro (feeds part u v) (group_at part u).ops p p_in
                (feeds_complete part r u v p c e.flows out e.consumer_in) in
            ground arith
        | inl both ↦
            let out : elem (group_at part v).ops p ≡ false = ground (arith, e.crossing) in
            let fed =
              any_intro (fed_by part v u) (group_at part v).ops c c_in
                (fed_by_complete part r u v p c e.flows out e.producer_in) in
            ground arith
      ]

pub built_edges_lem :
    (part : Partition)
    → IsReady part
    → IsMirrored (built_edges part)
      × ((u v : ℕ) → (elem ((built_edges part).succs u) v ≡ true) ↔ GroupEdge part u v)
built_edges_lem part r =
    let a = built_edges-Adds part in
    (
      a.mirrored,
      λ u v. (
        λ h. GroupEdge-sound part r u v (sym (a.edges u v) ∙ h),
        λ e. a.edges u v ∙ GroupEdge-complete part r u v e,
      ),
    )

-- For a partition whose index agrees with its groups, `build` ends with mirrored edges and with a
-- valid order: the groups that have a position are alive and come after all their predecessors. There
-- is an edge from one group to another exactly when both are alive and some operation of the second
-- depends on some operation of the first, unless the first also contains the consumer and the second
-- also contains the producer.
pub build_edges_lem :
    (part : Partition)
    → IsReady part
    → (g : GroupDag) × (build part ≡ some g)
      × IsMirrored g
      × HasOrder part g
      × ((u v : ℕ) → (elem (g.succs u) v ≡ true) ↔ GroupEdge part u v)
unfolding build
build_edges_lem part r =
    let (m, edges) = built_edges_lem part r in
    let (g, runs, size, succs, preds, order, _) =
      compute_topo_order_lem part (built_edges part) m in
    (
      g,
      runs,
      IsMirrored-same (built_edges part) g size succs preds m,
      order,
      λ u v. subst (λ s. (elem (s u) v ≡ true) ↔ GroupEdge part u v) (sym succs) (edges u v),
    )
