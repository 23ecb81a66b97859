-- ===== src/EconomicGraph/Traversal.antt =====
-- The bounded breadth-first traversal (packages/economic_graph/traversal.py,
-- `bounded_graph_as_of`). The nodes, relationships and paths are returned as they were found: the
-- order of the answer and its serialization are not modelled. The clock is a parameter.
pub mod Laws
use market_intelligence_lab.Prelude.{
  ℕ, zero, suc, ◌+◌, ◌*◌, ◌-◌, Bool, true, false, ◌&&◌, ◌||◌, not, Option, none, some, List, [],
  ◌∷◌, ◌++◌, ltb, leb, ◌==◌, if◌then◌else◌, find, exists_row, where_rows, sort_rows, length,
}
use market_intelligence_lab.Moments.{Instant}
use market_intelligence_lab.EconomicGraph.Rows.{
  Entity, Relationship, Graph, entity_visible, relationship_visible,
}

-- An item of the queue, and of the paths: the entity that was reached, at which depth, and by which
-- entities and relationships.
pub record Trail : Type 0 where
  pub current_id : ℕ
  pub depth : ℕ
  pub entity_path : List ℕ
  pub relationship_path : List ℕ

-- The three collections of the search; the dictionaries keep their first row for a key.
pub record Found : Type 0 where
  pub entities : List Entity
  pub relationships : List Relationship
  pub paths : List Trail

pub data Outcome : Type 0 where
  invalid_max_depth invalid_max_nodes invalid_timeout start_not_visible : Outcome
  exceeded_timeout exceeded_node_limit out_of_fuel : Outcome
  found : Found → Outcome

-- The arguments, and the milliseconds that have passed at the n-th look at the clock.
pub record Request : Type 0 where
  pub workspace_id : ℕ
  pub start_entity_id : ℕ
  pub as_of : Instant
  pub max_depth : ℕ
  pub max_nodes : ℕ
  pub timeout_ms : ℕ
  pub predicates : List ℕ
  pub elapsed_ms : ℕ → ℕ

-- `ORDER BY predicate, subject_entity_id, object_entity_id, id`
abbrev pub edge_before : Relationship → Relationship → Bool
edge_before a b =
    ltb a.predicate b.predicate
    || (a.predicate == b.predicate
        && (ltb a.subject_entity_id b.subject_entity_id
            || (a.subject_entity_id == b.subject_entity_id
                && (ltb a.object_entity_id b.object_entity_id
                    || (a.object_entity_id == b.object_entity_id && leb a.id b.id)))))

-- `if predicates:` an empty set does not filter.
abbrev pub wanted : List ℕ → ℕ → Bool
wanted [] predicate = true
wanted (p ∷ ps) predicate = p == predicate || exists_row (λ q. q == predicate) ps

abbrev pub other_end : ℕ → Relationship → ℕ
other_end id r = if r.subject_entity_id == id then r.object_entity_id else r.subject_entity_id

abbrev pub put_entity : Entity → List Entity → List Entity
put_entity e rows = if exists_row (λ x. x.id == e.id) rows then rows else rows ++ (e ∷ [])

abbrev pub put_relationship : Relationship → List Relationship → List Relationship
put_relationship r rows = if exists_row (λ x. x.id == r.id) rows then rows else rows ++ (r ∷ [])

-- What an edge that is followed adds to the collections.
abbrev pub joined : Relationship → Entity → Trail → Found → Found
joined r e child w = record {
  entities = put_entity e w.entities;
  relationships = put_relationship r w.relationships;
  paths = w.paths ++ (child ∷ []);
}

-- The children of a path so far, with what was found; `none` is the error on the node limit.
abbrev pub Visited : Type 0
Visited = Option (Found × List Trail)

abbrev pub and_visit : Visited → (Found → List Trail → Visited) → Visited
and_visit none next = none
and_visit (some (w, cs)) next = next w cs

abbrev pub and_walk : Visited → (Found → List Trail → Outcome) → Outcome
and_walk none next = exceeded_node_limit
and_walk (some (w, cs)) next = next w cs

abbrev pub start_path : Entity → Trail
start_path start = record {
  current_id = start.id;
  depth = 0;
  entity_path = start.id ∷ [];
  relationship_path = [];
}

abbrev pub start_found : Entity → Found
start_found start = record { entities = start ∷ []; relationships = []; paths = [] }

module _ (graph : Graph) (request : Request) where
  abbrev pub visible_entity : ℕ → Option Entity
  visible_entity id =
      find
        (λ e.
          e.id == id && e.workspace_id == request.workspace_id && entity_visible request.as_of e)
        graph.entities

  abbrev pub is_edge_of : ℕ → Relationship → Bool
  is_edge_of id r =
      r.workspace_id == request.workspace_id
      && (r.subject_entity_id == id || r.object_entity_id == id)
      && relationship_visible request.as_of r
      && wanted request.predicates r.predicate

  unfoldable pub edges_of : ℕ → List Relationship
  edges_of id = sort_rows edge_before (where_rows (is_edge_of id) graph.relationships)

  abbrev pub extended : Trail → Relationship → ℕ → Trail
  extended p r next_id = record {
    current_id = next_id;
    depth = p.depth + 1;
    entity_path = p.entity_path ++ (next_id ∷ []);
    relationship_path = p.relationship_path ++ (r.id ∷ []);
  }

  abbrev reached : Trail → Relationship → Option Entity → Option (Entity × Trail)
  reached p r none = none
  reached p r (some e) = some (e, extended p r (other_end p.current_id r))

  -- Where an edge leads a path: not back into it, and to a visible entity.
  unfoldable pub step_to : Trail → Relationship → Option (Entity × Trail)
  step_to p r =
      let next_id = other_end p.current_id r in
      if exists_row (λ id. id == next_id) p.entity_path
      then none
      else reached p r (visible_entity next_id)

  abbrev pub is_full : Entity → Found → Bool
  is_full e w =
      not (exists_row (λ x. x.id == e.id) w.entities) && leb request.max_nodes (length w.entities)

  abbrev offer : Relationship → Option (Entity × Trail) → Found → List Trail → Visited
  offer r none w cs = some (w, cs)
  offer r (some (e, child)) w cs =
      if is_full e w then none else some (joined r e child w, cs ++ (child ∷ []))

  unfoldable pub visit_edges : Trail → List Relationship → Found → List Trail → Visited
  visit_edges p [] w cs = some (w, cs)
  visit_edges p (r ∷ rs) w cs =
      and_visit (offer r (step_to p r) w cs) (λ w' cs'. visit_edges p rs w' cs')

  unfoldable pub expand : Trail → Found → Visited
  expand p w =
      if leb request.max_depth p.depth
      then some (w, [])
      else visit_edges p (edges_of p.current_id) w []

  -- The loop over the queue.
  unfoldable pub walk : ℕ → ℕ → List Trail → Found → Outcome
  walk fuel round [] w = found w
  walk zero round (p ∷ queue) w = out_of_fuel
  walk (suc fuel) round (p ∷ queue) w =
      if ltb request.timeout_ms (request.elapsed_ms round)
      then exceeded_timeout
      else and_walk (expand p w) (λ w' cs. walk fuel (round + 1) (queue ++ cs) w')

  -- How many paths a tree of the given height has, when no entity has more edges than the graph.
  unfoldable pub tree_size : ℕ → ℕ
  tree_size zero = 1
  tree_size (suc height) = 1 + length graph.relationships * tree_size height

  abbrev pub walk_from : Option Entity → Outcome
  walk_from none = start_not_visible
  walk_from (some start) =
      walk (tree_size request.max_depth) 0 (start_path start ∷ []) (start_found start)

  abbrev pub depth_allowed : Bool
  depth_allowed = leb 1 request.max_depth && leb request.max_depth 5

  abbrev pub nodes_allowed : Bool
  nodes_allowed = leb 1 request.max_nodes && leb request.max_nodes 500

  abbrev pub timeout_allowed : Bool
  timeout_allowed = leb 10 request.timeout_ms && leb request.timeout_ms 5000

  unfoldable pub bounded_graph_as_of : Outcome
  unfolding walk tree_size
  bounded_graph_as_of =
      if not depth_allowed
      then invalid_max_depth
      else if not nodes_allowed
      then invalid_max_nodes
      else if not timeout_allowed
      then invalid_timeout
      else walk_from (visible_entity request.start_entity_id)
