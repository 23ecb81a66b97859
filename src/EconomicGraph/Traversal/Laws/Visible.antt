-- ===== src/EconomicGraph/Traversal/Laws/Visible.antt =====
-- What `bounded_graph_as_of` returns was known at the requested time, and is bounded
-- (packages/economic_graph/traversal.py).
use market_intelligence_lab.Prelude.{
  ℕ, ◌+◌, ◌≤◌, ◌≡◌, sym, ap, inl, inr, Bool, true, false, not, ◌&&◌, ◌||◌, some, List, [], ◌∷◌,
  Memᴰ, ◌++◌, arith, leb, ◌==◌, All, All-append, Bool-cases, refl, length, length-append,
  exists_row, find-eq-some,
}
use mathlib.Core.Path.{subst}
use market_intelligence_lab.EconomicGraph.Rows.{
  Entity, Relationship, Graph, is_accepted, not_over, entity_visible,
}
use market_intelligence_lab.EconomicGraph.Traversal.{
  Trail, Found, found, Request, bounded_graph_as_of, visible_entity, start_path, start_found,
  put_entity, put_relationship, is_full, joined, step_to, other_end,
}
use market_intelligence_lab.EconomicGraph.Traversal.Laws.Rules.{
  IsEdgeOf, step_to-eq-some, walk_rule, bounded-eq-found,
}

-- No entity comes twice.
abbrev pub distinct : List ℕ → Bool
distinct [] = true
distinct (id ∷ ids) = not (exists_row (λ x. x == id) ids) && distinct ids

exists-append_one :
    (id next : ℕ) (ids : List ℕ)
    → exists_row (λ x. x == id) (ids ++ (next ∷ [])) ≡ exists_row (λ x. x == id) ids || next == id
exists-append_one id next [] = ground arith
exists-append_one id next (x ∷ xs) = ground (arith, exists-append_one id next xs)

distinct-append_one :
    (next : ℕ) (ids : List ℕ)
    → distinct ids ≡ true
    → exists_row (λ x. x == next) ids ≡ false
    → distinct (ids ++ (next ∷ [])) ≡ true
distinct-append_one next [] d h = refl
distinct-append_one next (x ∷ xs) d h =
    ground (arith, exists-append_one x next xs, distinct-append_one next xs)

module _ (graph : Graph) (request : Request) where
  -- An entity of the workspace that was accepted and eligible at the requested time.
  pub record IsKnownEntity (e : Entity) : Type 0 where
    pub in_workspace : e.workspace_id ≡ request.workspace_id
    pub eligible : e.simulation_eligible_time ≤ request.as_of
    pub started : e.valid_from ≤ request.as_of
    pub unexpired : not_over e.valid_to request.as_of ≡ true
    pub accepted : is_accepted e.status ≡ true

  pub record IsKnownRelationship (r : Relationship) : Type 0 where
    pub stored : Memᴰ r graph.relationships
    pub in_workspace : r.workspace_id ≡ request.workspace_id
    pub eligible : r.simulation_eligible_time ≤ request.as_of
    pub started : r.valid_from ≤ request.as_of
    pub unexpired : not_over r.valid_to request.as_of ≡ true
    pub accepted : is_accepted r.status ≡ true

  -- A path that comes to no entity twice.
  pub record IsSimple (p : Trail) : Type 0 where
    pub shallow : p.depth ≤ request.max_depth
    pub entity_count : length p.entity_path ≡ p.depth + 1
    pub relationship_count : length p.relationship_path ≡ p.depth
    pub simple : distinct p.entity_path ≡ true

  pub record IsBounded (w : Found) : Type 0 where
    pub nodes : length w.entities ≤ request.max_nodes
    pub known_entities : All IsKnownEntity w.entities
    pub known_relationships : All IsKnownRelationship w.relationships
    pub moved : All (λ p. 1 ≤ p.depth) w.paths

  visible_entity-IsKnown :
      (id : ℕ) (e : Entity) → visible_entity graph request id ≡ some e → IsKnownEntity e
  visible_entity-IsKnown id e h =
      let t =
        find-eq-some
          (λ e.
            e.id == id && e.workspace_id == request.workspace_id && entity_visible request.as_of e)
          graph.entities h in
      record {
        in_workspace = ground arith;
        eligible = ground arith;
        started = ground arith;
        unexpired = ground arith;
        accepted = ground arith;
      }

  IsEdgeOf-IsKnown :
      (p : Trail) (r : Relationship) → IsEdgeOf graph request p r → IsKnownRelationship r
  IsEdgeOf-IsKnown p r h =
      let edge = h.0 in
      record {
        stored = h.1;
        in_workspace = ground arith;
        eligible = ground arith;
        started = ground arith;
        unexpired = ground arith;
        accepted = ground arith;
      }

  IsSimple-step_to :
      (p : Trail) (r : Relationship) (e : Entity) (child : Trail)
      → leb request.max_depth p.depth ≡ false
      → IsSimple p
      → step_to graph request p r ≡ some (e, child)
      → IsSimple child
  IsSimple-step_to p r e child d s h =
      let (same, new, _) = step_to-eq-some graph request p r e child h in
      subst IsSimple (sym same) (record {
        shallow = ground (arith, s.shallow);
        entity_count =
            omega
              (arith, s.entity_count, length-append p.entity_path (other_end p.current_id r ∷ []));
        relationship_count =
            omega (arith, s.relationship_count, length-append p.relationship_path (r.id ∷ []));
        simple = distinct-append_one _ p.entity_path s.simple new;
      })

  All-put_entity :
      (e : Entity) (rows : List Entity)
      → IsKnownEntity e
      → All IsKnownEntity rows
      → All IsKnownEntity (put_entity e rows)
  All-put_entity e rows k h = elim (Bool-cases (exists_row (λ x. x.id == e.id) rows)) [
    | inl t ↦ rw t h
    | inr t ↦ rw t (All-append IsKnownEntity rows (e ∷ []) h (k, tt))
  ]

  All-put_relationship :
      (r : Relationship) (rows : List Relationship)
      → IsKnownRelationship r
      → All IsKnownRelationship rows
      → All IsKnownRelationship (put_relationship r rows)
  All-put_relationship r rows k h = elim (Bool-cases (exists_row (λ x. x.id == r.id) rows)) [
    | inl t ↦ rw t h
    | inr t ↦ rw t (All-append IsKnownRelationship rows (r ∷ []) h (k, tt))
  ]

  length-put_entity :
      (e : Entity) (w : Found)
      → is_full graph request e w ≡ false
      → length w.entities ≤ request.max_nodes
      → length (put_entity e w.entities) ≤ request.max_nodes
  length-put_entity e w k h = ground (arith, length-append w.entities (e ∷ []))

  IsBounded-joined :
      (p : Trail) (r : Relationship) (e : Entity) (child : Trail) (w : Found)
      → IsEdgeOf graph request p r
      → step_to graph request p r ≡ some (e, child)
      → is_full graph request e w ≡ false
      → IsBounded w
      → IsBounded (joined r e child w)
  IsBounded-joined p r e child w edge h k b =
      let (same, _, visible) = step_to-eq-some graph request p r e child h in
      let deeper = ap (λ c. c.depth) same in
      record {
        nodes = length-put_entity e w k b.nodes;
        known_entities =
            All-put_entity e w.entities (visible_entity-IsKnown _ e visible) b.known_entities;
        known_relationships =
            All-put_relationship r w.relationships (IsEdgeOf-IsKnown p r edge)
              b.known_relationships;
        moved =
            All-append (λ q. 1 ≤ q.depth) w.paths (child ∷ []) b.moved (omega (arith, deeper), tt);
      }

  -- What the traversal returns has no more nodes than asked for; every entity and relationship in it
  -- is of the workspace, was eligible and valid at the requested time, and is verified or
  -- disputed; and every path has from one edge to as many as asked for, and
  -- comes to no entity twice.
  pub bounded_graph_as_of-IsBounded :
      (t : Found) → bounded_graph_as_of graph request ≡ found t → IsBounded t × All IsSimple t.paths
  bounded_graph_as_of-IsBounded t h =
      let (start, visible, (some_node, _), walks) = bounded-eq-found graph request t h in
      let begun : IsBounded (start_found start) = record {
        nodes = omega arith;
        known_entities = (visible_entity-IsKnown _ start visible, tt);
        known_relationships = tt;
        moved = tt;
      } in
      let simple : IsSimple (start_path start) = record {
        shallow = omega arith;
        entity_count = omega arith;
        relationship_count = refl;
        simple = refl;
      } in
      let (paths, bounded) =
        walk_rule graph request IsSimple IsSimple-step_to IsBounded
          (λ p r e child w _. IsBounded-joined p r e child w) _ 0 _ _ t walks (simple, tt) tt
          begun in
      (bounded, paths)
