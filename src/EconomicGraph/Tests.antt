-- ===== src/EconomicGraph/Tests.antt =====
-- Witnesses on a small economic graph.
use market_intelligence_lab.Prelude.{
  ℕ, zero, suc, ◌*◌, ◌^◌, map, true, false, Memᴰ, ◌≡◌, ◌≢◌, Bool, none, some, List, [], ◌∷◌, refl,
  All,
}
use market_intelligence_lab.EconomicGraph.Rows.{
  relationship_visible, Entity, Relationship, Graph, verified, disputed,
}
use market_intelligence_lab.EconomicGraph.Traversal.{
  Trail, Found, found, Request, bounded_graph_as_of, out_of_fuel, edges_of, step_to, visit_edges,
  expand, walk, tree_size, start_path, visible_entity,
}
use market_intelligence_lab.EconomicGraph.Traversal.Laws.Reference.{
  count, descend, bounded_graph_as_of-descend,
}
use market_intelligence_lab.EconomicGraph.Traversal.Laws.Bounds.{bounded_graph_as_of_ends}
use market_intelligence_lab.EconomicGraph.Traversal.Laws.Visible.{
  IsBounded, IsSimple, bounded_graph_as_of-IsBounded,
}
use market_intelligence_lab.EconomicGraph.Evidence.{
  Evidence, Tables, Proposal, supporting, create_evidence, create_relationship, expire_relationship,
  new_relationship, add_relationship, expired_at, is_verified,
}
use market_intelligence_lab.EconomicGraph.Evidence.Confidence.{
  Name, Component, plus, names, aggregate_confidence,
}
use market_intelligence_lab.EconomicGraph.Evidence.Laws.{
  IsBacked, IsSound, Step, History, History-IsSound, expire_relationship_hides,
}
use market_intelligence_lab.EconomicGraph.Evidence.Answers.{bounded_graph_as_of-IsBacked}

abbrev entity : ℕ → ℕ → Entity
entity id eligible = record {
  id = id;
  workspace_id = 1;
  status = verified;
  valid_from = 0;
  valid_to = none;
  simulation_eligible_time = eligible;
}

abbrev edge : ℕ → ℕ → ℕ → Relationship
edge id subject object = record {
  id = id;
  workspace_id = 1;
  subject_entity_id = subject;
  predicate = 4;
  object_entity_id = object;
  status = disputed;
  confidence = 90000;
  valid_from = 3;
  valid_to = some 90;
  simulation_eligible_time = 5;
}

-- A triangle, and an entity that is known later.
abbrev triangle : Graph
triangle = record {
  entities = entity 1 2 ∷ entity 2 2 ∷ entity 3 2 ∷ entity 4 50 ∷ [];
  relationships = edge 11 1 2 ∷ edge 12 2 3 ∷ edge 13 3 1 ∷ edge 14 3 4 ∷ [];
}

abbrev request : Request
request = record {
  workspace_id = 1;
  start_entity_id = 1;
  as_of = 10;
  max_depth = 3;
  max_nodes = 3;
  timeout_ms = 500;
  predicates = [];
  elapsed_ms = λ n. n;
}

abbrev path : ℕ → ℕ → List ℕ → List ℕ → Trail
path id depth ids edges = record {
  current_id = id;
  depth = depth;
  entity_path = ids;
  relationship_path = edges;
}

abbrev answer : Found
answer = record {
  entities = entity 1 2 ∷ entity 2 2 ∷ entity 3 2 ∷ [];
  relationships = edge 11 1 2 ∷ edge 13 3 1 ∷ edge 12 2 3 ∷ [];
  paths =
      path 2 1 (1 ∷ 2 ∷ []) (11 ∷ [])
      ∷ path 3 1 (1 ∷ 3 ∷ []) (13 ∷ [])
      ∷ path 3 2 (1 ∷ 2 ∷ 3 ∷ []) (11 ∷ 12 ∷ [])
      ∷ path 2 2 (1 ∷ 3 ∷ 2 ∷ []) (13 ∷ 12 ∷ [])
      ∷ [];
}

answered : bounded_graph_as_of triangle request ≡ found answer
unfolding bounded_graph_as_of walk expand visit_edges step_to edges_of tree_size
answered = refl

bounded_graph_as_of-descend_example :
    (start : Entity) × (visible_entity triangle request 1 ≡ some start)
    × ((q : Trail → Bool)
        → count q answer.paths ≡ count q (descend triangle request 3 (start_path start)))
bounded_graph_as_of-descend_example = bounded_graph_as_of-descend triangle request answer answered

bounded_graph_as_of_ends_example : bounded_graph_as_of triangle request ≢ out_of_fuel
bounded_graph_as_of_ends_example = bounded_graph_as_of_ends triangle request

bounded_graph_as_of-IsBounded_example :
    IsBounded triangle request answer × All (IsSimple triangle request) answer.paths
bounded_graph_as_of-IsBounded_example =
    bounded_graph_as_of-IsBounded triangle request answer answered

abbrev repeat_text : ℕ → ℕ → List ℕ
repeat_text zero c = []
repeat_text (suc n) c = c ∷ repeat_text n c

abbrev filing : Evidence
filing = record {
  id = 71;
  workspace_id = 1;
  source_record_identifier = 8;
  checksum = repeat_text 64 97;
  publication_time = 4;
  simulation_eligible_time = 5;
}

abbrev component : Name → Component
component n = record { name = n; value = plus (9 * 10 ^ 19) }

abbrev supplies : Proposal
supplies = record {
  subject = entity 1 2;
  predicate = 16;
  object_entity = entity 2 2;
  valid_from = 3;
  simulation_eligible_time = 6;
  components = map component names;
  evidence = record { row = filing; direction = supporting } ∷ [];
  status = verified;
  valid_to = none;
}

abbrev before_calls : Tables
before_calls = record {
  graph = record { entities = entity 1 2 ∷ entity 2 2 ∷ []; relationships = [] };
  evidence = [];
  links = [];
}

abbrev with_filing : Tables
with_filing = record before_calls { evidence = filing ∷ [] }

abbrev supply : Relationship
supply = new_relationship 21 supplies 90000

abbrev with_supply : Tables
with_supply = add_relationship supply supplies.evidence with_filing

component_confidence : aggregate_confidence supplies.components ≡ some 90000
unfolding aggregate_confidence
component_confidence = refl

filed : create_evidence filing before_calls ≡ some (with_filing, filing, true)
unfolding create_evidence
filed = refl

supplied : create_relationship 21 supplies with_filing ≡ some (with_supply, supply, true)
unfolding create_relationship aggregate_confidence
supplied = refl

history : History with_supply
history =
    History.called
      (History.called (History.begun before_calls.graph.entities)
        (Step.evidence_created filing filing true filed))
      (Step.relationship_created 21 supplies supply true (Memᴰ.head refl, tt) supplied)

History-IsSound_example : IsSound with_supply
History-IsSound_example = History-IsSound history

abbrev supply_answer : Found
supply_answer = record {
  entities = entity 1 2 ∷ entity 2 2 ∷ [];
  relationships = supply ∷ [];
  paths = path 2 1 (1 ∷ 2 ∷ []) (21 ∷ []) ∷ [];
}

supply_answered : bounded_graph_as_of with_supply.graph request ≡ found supply_answer
unfolding bounded_graph_as_of walk expand visit_edges step_to edges_of tree_size
supply_answered = refl

bounded_graph_as_of-IsBacked_example :
    All
      (λ r. is_verified r.status ≡ true → IsBacked with_supply r.id 10)
      supply_answer.relationships
bounded_graph_as_of-IsBacked_example =
    bounded_graph_as_of-IsBacked with_supply request supply_answer history supply_answered

abbrev ended : Tables
ended = record with_supply {
  graph = record with_supply.graph { relationships = expired_at 9 supply ∷ [] };
}

after_expiry : expire_relationship supply 9 with_supply ≡ some ended
unfolding expire_relationship
after_expiry = refl

expire_relationship_hides_example :
    All (λ x. x.id ≡ 21 → relationship_visible 7 x ≡ false) ended.graph.relationships
expire_relationship_hides_example =
    expire_relationship_hides supply 9 7 with_supply ended after_expiry
