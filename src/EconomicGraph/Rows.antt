-- ===== src/EconomicGraph/Rows.antt =====
-- The nodes and edges of the graph and what of them is visible at a time
-- (packages/economic_graph/traversal.py, `_entity_visible`, `_relationship_visible`). A predicate is
-- its rank in alphabetical order.
use market_intelligence_lab.Prelude.{ℕ, Bool, true, false, ◌&&◌, Option, none, some, List, leb, ltb}
use market_intelligence_lab.Moments.{Instant}

pub data GraphStatus : Type 0 where
  candidate verified disputed expired rejected : GraphStatus

pub record Entity : Type 0 where
  pub id : ℕ
  pub workspace_id : ℕ
  pub status : GraphStatus
  pub valid_from : Instant
  pub valid_to : Option Instant
  pub simulation_eligible_time : Instant

pub record Relationship : Type 0 where
  pub id : ℕ
  pub workspace_id : ℕ
  pub subject_entity_id : ℕ
  pub predicate : ℕ
  pub object_entity_id : ℕ
  pub status : GraphStatus
  -- in units of 10^-5
  pub confidence : ℕ
  pub valid_from : Instant
  pub valid_to : Option Instant
  pub simulation_eligible_time : Instant

pub record Graph : Type 0 where
  pub entities : List Entity
  pub relationships : List Relationship

-- `status IN ('verified', 'disputed')`
abbrev pub is_accepted : GraphStatus → Bool
is_accepted verified = true
is_accepted disputed = true
is_accepted _ = false

-- `valid_to IS NULL OR valid_to > as_of`
abbrev pub not_over : Option Instant → Instant → Bool
not_over none as_of = true
not_over (some t) as_of = ltb as_of t

abbrev pub entity_visible : Instant → Entity → Bool
entity_visible as_of e =
    leb e.simulation_eligible_time as_of
    && leb e.valid_from as_of
    && not_over e.valid_to as_of
    && is_accepted e.status

abbrev pub relationship_visible : Instant → Relationship → Bool
relationship_visible as_of r =
    leb r.simulation_eligible_time as_of
    && leb r.valid_from as_of
    && not_over r.valid_to as_of
    && is_accepted r.status
