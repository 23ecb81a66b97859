-- ===== src/EconomicGraph/Evidence.antt =====
-- Evidence and the relationships that stand on it (packages/economic_graph/service.py,
-- `create_evidence`, `create_relationship`, `expire_relationship`, and
-- packages/economic_graph/confidence.py, `aggregate_confidence`). An error is `none`: the caller's
-- transaction leaves nothing of it. New identifiers are arguments. A source record identifier is a
-- number, a checksum the list of its characters. The columns that only describe a row, the weights
-- of links and the rows of confidence components are left out.
pub mod Confidence
pub mod Laws
pub mod Answers
use market_intelligence_lab.Prelude.{
  ℕ, ◌+◌, Bool, true, false, ◌&&◌, ◌||◌, not, Option, none, some, List, [], ◌∷◌, ◌++◌, map, max,
  ltb, leb, ◌==◌, if◌then◌else◌, find, same_text, every, where_rows, update_rows, length,
}
use market_intelligence_lab.Moments.{Instant}
use market_intelligence_lab.EconomicGraph.Rows.{
  Entity, Relationship, Graph, GraphStatus, candidate, verified, disputed, expired, rejected,
}
use market_intelligence_lab.EconomicGraph.Evidence.Confidence.{Component, aggregate_confidence}

pub record Evidence : Type 0 where
  pub id : ℕ
  pub workspace_id : ℕ
  pub source_record_identifier : ℕ
  pub checksum : List ℕ
  pub publication_time : Instant
  pub simulation_eligible_time : Instant

pub data Direction : Type 0 where
  supporting contradicting : Direction
  unsupported : ℕ → Direction

pub record Link : Type 0 where
  pub relationship_id : ℕ
  pub evidence_id : ℕ
  pub direction : Direction

-- The tables of the graph.
pub record Tables : Type 0 where
  pub graph : Graph
  pub evidence : List Evidence
  pub links : List Link

-- `[0-9a-f]`
abbrev is_hex : ℕ → Bool
is_hex c = (leb 48 c && leb c 57) || (leb 97 c && leb c 102)

abbrev pub is_sha256 : List ℕ → Bool
is_sha256 cs = every is_hex cs && length cs == 64

abbrev pub same_source : Evidence → Evidence → Bool
same_source e x =
    x.workspace_id == e.workspace_id
    && same_text x.checksum e.checksum
    && x.source_record_identifier == e.source_record_identifier

abbrev kept_evidence : Tables → Evidence → Option Evidence → Tables × Evidence × Bool
kept_evidence s e (some x) = (s, x, false)
kept_evidence s e none = (record s { evidence = s.evidence ++ (e ∷ []) }, e, true)

-- The row that is asked for comes with its new identifier.
unfoldable pub create_evidence : Evidence → Tables → Option (Tables × Evidence × Bool)
create_evidence e s =
    if not (is_sha256 e.checksum)
    then none
    else if ltb e.simulation_eligible_time e.publication_time
    then none
    else some (kept_evidence s e (find (same_source e) s.evidence))

-- An element of the argument `evidence`.
pub record Cited : Type 0 where
  pub row : Evidence
  pub direction : Direction

-- The arguments of `create_relationship`.
pub record Proposal : Type 0 where
  pub subject : Entity
  pub predicate : ℕ
  pub object_entity : Entity
  pub valid_from : Instant
  pub simulation_eligible_time : Instant
  pub components : List Component
  pub evidence : List Cited
  pub status : GraphStatus
  pub valid_to : Option Instant

abbrev pub is_supporting : Direction → Bool
is_supporting supporting = true
is_supporting _ = false

abbrev pub is_direction : Direction → Bool
is_direction (unsupported n) = false
is_direction _ = true

abbrev pub is_verified : GraphStatus → Bool
is_verified verified = true
is_verified _ = false

abbrev pub supporting_of : Proposal → List Cited
supporting_of p = where_rows (λ c. is_supporting c.direction) p.evidence

abbrev pub is_empty : List Cited → Bool
is_empty [] = true
is_empty (c ∷ cs) = false

-- `max(…)` over the times from which the cited rows were eligible, and its default.
abbrev pub latest : Instant → List Cited → Instant
latest t [] = t
latest t (c ∷ cs) = latest (max t c.row.simulation_eligible_time) cs

abbrev pub evidence_floor : Instant → List Cited → Instant
evidence_floor default [] = default
evidence_floor default (c ∷ cs) = latest c.row.simulation_eligible_time cs

-- The number of RELATIONSHIP_TYPES: a predicate is its rank among them.
abbrev relationship_types : ℕ
relationship_types = 19

abbrev pub same_relationship : Proposal → Relationship → Bool
same_relationship p r =
    r.workspace_id == p.subject.workspace_id
    && r.subject_entity_id == p.subject.id
    && r.predicate == p.predicate
    && r.object_entity_id == p.object_entity.id
    && r.valid_from == p.valid_from

abbrev pub new_relationship : ℕ → Proposal → ℕ → Relationship
new_relationship id p confidence = record {
  id = id;
  workspace_id = p.subject.workspace_id;
  subject_entity_id = p.subject.id;
  predicate = p.predicate;
  object_entity_id = p.object_entity.id;
  status = p.status;
  confidence = confidence;
  valid_from = p.valid_from;
  valid_to = p.valid_to;
  simulation_eligible_time = p.simulation_eligible_time;
}

abbrev pub link_to : ℕ → Cited → Link
link_to id c = record { relationship_id = id; evidence_id = c.row.id; direction = c.direction }

abbrev pub Related : Type 0
Related = Option (Tables × Relationship × Bool)

abbrev pub add_relationship : Relationship → List Cited → Tables → Tables
add_relationship r cited s = record {
  graph = record s.graph { relationships = s.graph.relationships ++ (r ∷ []) };
  evidence = s.evidence;
  links = s.links ++ map (link_to r.id) cited;
}

abbrev store_relationship : Relationship → Proposal → Tables → Option Relationship → Related
store_relationship r p s (some x) = some (s, x, false)
store_relationship r p s none =
    if every (λ c. is_direction c.direction) p.evidence
    then some (add_relationship r p.evidence s, r, true)
    else none

abbrev and_confidence : Option ℕ → (ℕ → Related) → Related
and_confidence none next = none
and_confidence (some confidence) next = next confidence

-- The tests before the confidence is computed.
abbrev pub is_refused : Proposal → Bool
is_refused p =
    not (p.subject.workspace_id == p.object_entity.workspace_id)
    || p.subject.id == p.object_entity.id
    || leb relationship_types p.predicate
    || (is_verified p.status && is_empty (supporting_of p))
    || ltb p.simulation_eligible_time (evidence_floor p.simulation_eligible_time (supporting_of p))

unfoldable pub create_relationship : ℕ → Proposal → Tables → Related
create_relationship id p s =
    if is_refused p
    then none
    else and_confidence (aggregate_confidence p.components) (λ confidence.
      store_relationship (new_relationship id p confidence) p s
        (find (same_relationship p) s.graph.relationships))

abbrev pub expired_at : Instant → Relationship → Relationship
expired_at t r = record r { valid_to = some t; status = expired }

-- The row of the relationship is written in the table.
unfoldable pub expire_relationship : Relationship → Instant → Tables → Option Tables
expire_relationship r t s =
    if leb t r.valid_from
    then none
    else some (record s {
      graph = record s.graph {
        relationships = update_rows (λ x. x.id == r.id) (expired_at t) s.graph.relationships;
      };
    })
