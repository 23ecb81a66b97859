-- ===== src/EconomicGraph/Traversal/Laws/Rules.antt =====
-- How to reason about the two loops of `bounded_graph_as_of`
-- (packages/economic_graph/traversal.py).
use market_intelligence_lab.Prelude.{
  ℕ, ◌≤◌, arith, zero, suc, ◌+◌, sym, ◌∙◌, ap, ◌≡◌, Bool, ◌⊎◌, inl, inr, true, false, Option, none,
  some, List, [], ◌∷◌, ◌++◌, ltb, leb, if◌then◌else◌, All, exists_row, ◌==◌, Bool-cases,
  Option-cases, All-where_rows, All-where_rows_of, All-zip, All-Memᴰ, Memᴰ, All-sort_rows,
  All-append, refl,
}
use mathlib.Core.Option.{some-injective}
use mathlib.Core.Path.{subst}
use mathlib.Core.List.{append-nil, append_assoc}
use market_intelligence_lab.EconomicGraph.Rows.{Entity, Relationship, Graph}
use market_intelligence_lab.EconomicGraph.Traversal.{
  Trail, Found, Outcome, found, exceeded_timeout, exceeded_node_limit, Request, Visited,
  invalid_max_depth, invalid_max_nodes, invalid_timeout, start_not_visible, edge_before, is_edge_of,
  edges_of, extended, visible_entity, other_end, step_to, is_full, joined, visit_edges, expand,
  walk, tree_size, start_path, start_found, depth_allowed, nodes_allowed, timeout_allowed,
  bounded_graph_as_of,
}

-- What an edge adds to the children: at most the path it leads to.
abbrev pub child_of : Option (Entity × Trail) → List Trail → List Trail
child_of none cs = cs
child_of (some (e, child)) cs = child ∷ cs

abbrev found_or : Found → Outcome → Found
found_or w (found t) = t
found_or w _ = w

pub found-injective : (w t : Found) → found w ≡ found t → w ≡ t
found-injective w t h = ap (found_or w) h

abbrev pub is_refusal : Outcome → Bool
is_refusal invalid_max_depth = true
is_refusal invalid_max_nodes = true
is_refusal invalid_timeout = true
is_refusal start_not_visible = true
is_refusal _ = false

module _ (graph : Graph) (request : Request) where
  abbrev pub IsEdgeOf : Trail → Relationship → Type 0
  IsEdgeOf p r = (is_edge_of graph request p.current_id r ≡ true) × Memᴰ r graph.relationships

  pub All-edges_of : (p : Trail) → All (IsEdgeOf p) (edges_of graph request p.current_id)
  unfolding edges_of
  All-edges_of p = All-sort_rows (IsEdgeOf p) edge_before _ (
      All-zip _ _ _ (All-where_rows (is_edge_of graph request p.current_id) graph.relationships) (
        All-where_rows_of _ (is_edge_of graph request p.current_id) graph.relationships
          (All-Memᴰ graph.relationships)))

  abbrev pub collect : Trail → List Relationship → List Trail
  collect p [] = []
  collect p (r ∷ rs) = child_of (step_to graph request p r) (collect p rs)

  -- The paths that are one edge longer.
  abbrev pub children : Trail → List Trail
  children p =
      if leb request.max_depth p.depth then [] else collect p (edges_of graph request p.current_id)

  module _ {ℓ} (p : Trail) (Q : Found → Type ℓ)
      (keep : (r : Relationship) (e : Entity) (child : Trail) (w : Found)
        → IsEdgeOf p r
        → step_to graph request p r ≡ some (e, child)
        → is_full graph request e w ≡ false
        → Q w
        → Q (joined r e child w)) where
    -- The edges of a path add its children, and keep what every edge keeps.
    pub visit_rule :
        (rs : List Relationship) (w : Found) (cs : List Trail) (w' : Found) (cs' : List Trail)
        → All (IsEdgeOf p) rs
        → visit_edges graph request p rs w cs ≡ some (w', cs')
        → Q w
        → Q w' × (w'.paths ≡ w.paths ++ collect p rs) × (cs' ≡ cs ++ collect p rs)
    unfolding visit_edges
    visit_rule [] w cs w' cs' edges h q =
        let same : (w', cs') ≡ (w, cs) = some-injective _ _ (sym h) in
        subst (λ t. Q t.0 × (t.0.paths ≡ w.paths ++ []) × (t.1 ≡ cs ++ [])) (sym same)
          (q, sym (append-nil w.paths), sym (append-nil cs))
    visit_rule (r ∷ rs) w cs w' cs' edges h q = elim (Option-cases (step_to graph request p r)) [
      | inl e ↦ rw e (visit_rule rs w cs w' cs' edges.1 (rw e at h) q)
      | inr ((en, child), e) ↦ elim (Bool-cases (is_full graph request en w)) [
        | inl k ↦ let refused : ◌≡◌ {A = Visited} none (some (w', cs')) = (rw (e, k) at h) in cc
        | inr k ↦
            let rest =
              visit_rule rs (joined r en child w) (cs ++ (child ∷ [])) w' cs' edges.1
                (rw (e, k) at h) (keep r en child w edges.0 e k q) in
            rw e (
              rest.0,
              rest.1 ∙ append_assoc w.paths (child ∷ []) (collect p rs),
              rest.2 ∙ append_assoc cs (child ∷ []) (collect p rs),
            )
      ]
    ]

    pub expand_rule :
        (w w' : Found) (cs : List Trail)
        → expand graph request p w ≡ some (w', cs)
        → Q w
        → Q w' × (w'.paths ≡ w.paths ++ children p) × (cs ≡ children p)
    unfolding expand
    expand_rule w w' cs h q = elim (Bool-cases (leb request.max_depth p.depth)) [
      | inl e ↦
          let same : (w', cs) ≡ (w, []) = some-injective _ _ (sym (rw e at h)) in
          rw e (
            subst (λ t. Q t.0 × (t.0.paths ≡ w.paths ++ []) × (t.1 ≡ [])) (sym same)
              (q, sym (append-nil w.paths), refl))
      | inr e ↦ rw e (
          visit_rule (edges_of graph request p.current_id) w [] w' cs (All-edges_of p) (rw e at h)
            q)
    ]

  -- A round of the loop that returns found the children of the head of the queue.
  pub walk_round :
      (fuel round : ℕ) (p : Trail) (queue : List Trail) (w t : Found)
      → walk graph request (suc fuel) round (p ∷ queue) w ≡ found t
      → (w' : Found) × (cs : List Trail) × (expand graph request p w ≡ some (w', cs))
        × (walk graph request fuel (round + 1) (queue ++ cs) w' ≡ found t)
  unfolding walk
  walk_round fuel round p queue w t h =
      elim (Bool-cases (ltb request.timeout_ms (request.elapsed_ms round))) [
        | inl e ↦ let bad : exceeded_timeout ≡ found t = (rw e at h) in cc
        | inr e ↦ elim (Option-cases (expand graph request p w)) [
          | inl k ↦ let bad : exceeded_node_limit ≡ found t = (rw (e, k) at h) in cc
          | inr ((w', cs), k) ↦ (w', cs, k, (rw (e, k) at h))
        ]
      ]

  -- Where a path is led by an edge.
  pub step_to-eq-some :
      (p : Trail) (r : Relationship) (e : Entity) (child : Trail)
      → step_to graph request p r ≡ some (e, child)
      → (child ≡ extended graph request p r (other_end p.current_id r))
        × (exists_row (λ id. id == other_end p.current_id r) p.entity_path ≡ false)
        × (visible_entity graph request (other_end p.current_id r) ≡ some e)
  unfolding step_to
  step_to-eq-some p r e child h =
      elim (Bool-cases (exists_row (λ id. id == other_end p.current_id r) p.entity_path)) [
        | inl k ↦
            let bad : ◌≡◌ {A = Option (Entity × Trail)} none (some (e, child)) = (rw k at h) in cc
        | inr k ↦ elim (Option-cases (visible_entity graph request (other_end p.current_id r))) [
          | inl v ↦
              let bad : ◌≡◌ {A = Option (Entity × Trail)} none (some (e, child)) =
                (rw (k, v) at h) in
              cc
          | inr (en, v) ↦
              let same : (en, extended graph request p r (other_end p.current_id r)) ≡ (e, child) =
                some-injective _ _ (rw (k, v) at h) in
              (sym (ap (λ t. t.1) same), k, v ∙ ap (λ t. some t.0) same)
        ]
      ]

  module _ {κ} (P : Trail → Type κ) (p : Trail) where
    All-collect :
        ((r : Relationship) (e : Entity) (child : Trail)
          → step_to graph request p r ≡ some (e, child)
          → P child)
        → (rs : List Relationship) → All P (collect p rs)
    All-collect h [] = tt
    All-collect h (r ∷ rs) = elim (Option-cases (step_to graph request p r)) [
      | inl e ↦ rw e (All-collect h rs)
      | inr ((en, child), e) ↦ rw e (h r en child e, All-collect h rs)
    ]

    pub All-children :
        (leb request.max_depth p.depth ≡ false
          → (r : Relationship) (e : Entity) (child : Trail)
          → step_to graph request p r ≡ some (e, child)
          → P child)
        → All P (children p)
    All-children h = elim (Bool-cases (leb request.max_depth p.depth)) [
      | inl e ↦ rw e tt
      | inr e ↦ rw e (All-collect (h e) (edges_of graph request p.current_id))
    ]

  module _ {κ} (Ok : Trail → Type κ)
      (grow : (p : Trail) (r : Relationship) (e : Entity) (child : Trail)
        → leb request.max_depth p.depth ≡ false
        → Ok p
        → step_to graph request p r ≡ some (e, child)
        → Ok child) where
    -- What holds of the start and goes from a path to its children, and what every edge keeps of
    -- the collections, holds of what the loop returns.
    pub walk_rule {ℓ} :
        (Q : Found → Type ℓ)
        → ((p : Trail) (r : Relationship) (e : Entity) (child : Trail) (w : Found)
            → Ok p
            → IsEdgeOf p r
            → step_to graph request p r ≡ some (e, child)
            → is_full graph request e w ≡ false
            → Q w
            → Q (joined r e child w))
        → (fuel round : ℕ) (queue : List Trail) (w t : Found)
        → walk graph request fuel round queue w ≡ found t
        → All Ok queue
        → All Ok w.paths
        → Q w
        → All Ok t.paths × Q t
    unfolding walk
    walk_rule Q keep fuel round [] w t h oks paths q =
        subst (λ v. All Ok v.paths × Q v) (found-injective w t h) (paths, q)
    walk_rule Q keep zero round (p ∷ queue) w t h oks paths q = cc
    walk_rule Q keep (suc fuel) round (p ∷ queue) w t h oks paths q =
        let (w', cs, e, next) = walk_round fuel round p queue w t h in
        let (q', more, same) =
          expand_rule p Q (λ r en child v. keep p r en child v oks.0) w w' cs e q in
        let new = All-children Ok p (λ d r en child. grow p r en child d oks.0) in
        walk_rule Q keep fuel (round + 1) (queue ++ cs) w' t next
          (All-append Ok queue cs oks.1 (rw same new))
          (rw more (All-append Ok w.paths (children p) paths new)) q'

  -- A search is refused, or its loop starts.
  pub bounded-cases :
      (is_refusal (bounded_graph_as_of graph request) ≡ true)
      ⊎ ((start : Entity) × (visible_entity graph request request.start_entity_id ≡ some start)
          × ((1 ≤ request.max_nodes) × (request.max_nodes ≤ 500))
          × (bounded_graph_as_of graph request
              ≡ walk graph request
                  (tree_size graph request request.max_depth)
                  0
                  (start_path start ∷ [])
                  (start_found start)))
  unfolding bounded_graph_as_of
  bounded-cases = elim (Bool-cases (depth_allowed graph request)) [
    | inr e ↦ inl (rw e refl)
    | inl e ↦ elim (Bool-cases (nodes_allowed graph request)) [
      | inr k ↦ inl (rw (e, k) refl)
      | inl k ↦ elim (Bool-cases (timeout_allowed graph request)) [
        | inr i ↦ inl (rw (e, k, i) refl)
        | inl i ↦ elim (Option-cases (visible_entity graph request request.start_entity_id)) [
          | inl v ↦ inl (rw (e, k, i, v) refl)
          | inr (start, v) ↦ inr (start, v, ground arith, rw (e, k, i, v) refl)
        ]
      ]
    ]
  ]

  -- The parts of a search that returns.
  pub bounded-eq-found :
      (t : Found)
      → bounded_graph_as_of graph request ≡ found t
      → (start : Entity) × (visible_entity graph request request.start_entity_id ≡ some start)
        × ((1 ≤ request.max_nodes) × (request.max_nodes ≤ 500))
        × (walk graph request
              (tree_size graph request request.max_depth)
              0
              (start_path start ∷ [])
              (start_found start)
            ≡ found t)
  bounded-eq-found t h = elim bounded-cases [
    | inl refused ↦ let bad : false ≡ true = (rw h at refused) in cc
    | inr (start, v, nodes, walks) ↦ (start, v, nodes, sym walks ∙ h)
  ]
