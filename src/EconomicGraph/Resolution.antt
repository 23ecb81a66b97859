-- ===== src/EconomicGraph/Resolution.antt =====
-- Which entity an identifier belongs to (packages/economic_graph/service.py, `attach_identifier`,
-- `create_resolution_candidate`, `decide_resolution`). An error is `none`. New identifiers of rows
-- are arguments; the columns that only describe a row are left out.
pub mod Laws
pub mod Uniqueness
pub mod History
mod Tests
use market_intelligence_lab.Prelude.{
  ℕ, ◌+◌, Bool, true, false, ◌&&◌, not, Option, none, some, List, [], ◌∷◌, ◌++◌, ◌==◌,
  if◌then◌else◌, find, update_rows, same_text,
}
use market_intelligence_lab.Moments.{Instant}
use market_intelligence_lab.EconomicGraph.Rows.{Entity}
use market_intelligence_lab.EconomicGraph.Identifiers.{PythonText, Namespace, normalize_identifier}

-- `EntityIdentifier`; a namespace is its rank among the namespaces.
pub record Identifier : Type 0 where
  pub workspace_id : ℕ
  pub entity_id : ℕ
  pub namespace : Namespace
  pub normalized_value : List ℕ
  pub valid_from : Instant
  pub simulation_eligible_time : Instant

pub data Verdict : Type 0 where
  confirmed refused : Verdict
  unsupported_verdict : ℕ → Verdict

-- 'candidate', 'ambiguous', and the decisions.
pub data CandidateStatus : Type 0 where
  proposed ambiguous : CandidateStatus
  decided : Verdict → CandidateStatus

pub record Candidate : Type 0 where
  pub id : ℕ
  pub workspace_id : ℕ
  pub namespace : Namespace
  pub normalized_value : List ℕ
  pub candidate_entity_id : ℕ
  pub status : CandidateStatus
  pub valid_from : Instant
  pub simulation_eligible_time : Instant

pub record Decision : Type 0 where
  pub candidate_id : ℕ
  pub decision : Verdict

-- `GraphQualityIssue` of the type 'ambiguous_identifier'.
pub record Ambiguity : Type 0 where
  pub workspace_id : ℕ
  pub entity_id : ℕ
  pub namespace : Namespace
  pub normalized_value : List ℕ

pub record Registry : Type 0 where
  pub identifiers : List Identifier
  pub candidates : List Candidate
  pub decisions : List Decision
  pub issues : List Ambiguity

-- The arguments that the two functions share.
pub record Mapping : Type 0 where
  pub entity : Entity
  pub namespace : Namespace
  pub value : List ℕ
  pub valid_from : Instant
  pub simulation_eligible_time : Instant

pub data Attached : Type 0 where
  mapped : Identifier → Attached
  conflicting : Candidate → Attached

abbrev pub namespace_rank : Namespace → ℕ
namespace_rank Namespace.asset_id = 0
namespace_rank Namespace.ticker = 1
namespace_rank Namespace.exchange = 2
namespace_rank Namespace.cik = 3
namespace_rank Namespace.lei = 4
namespace_rank Namespace.figi = 5
namespace_rank Namespace.iso_country = 6
namespace_rank Namespace.region = 7
namespace_rank Namespace.fips = 8
namespace_rank Namespace.provider_series = 9
namespace_rank Namespace.facility_source_id = 10
namespace_rank (Namespace.unsupported_namespace n) = 11 + n

abbrev pub same_namespace : Namespace → Namespace → Bool
same_namespace a b = namespace_rank a == namespace_rank b

-- The unique keys of the tables.
abbrev pub same_identifier : Identifier → Identifier → Bool
same_identifier x i =
    x.workspace_id == i.workspace_id
    && same_namespace x.namespace i.namespace
    && same_text x.normalized_value i.normalized_value

abbrev pub same_candidate : Candidate → Candidate → Bool
same_candidate x c =
    x.workspace_id == c.workspace_id
    && same_namespace x.namespace c.namespace
    && same_text x.normalized_value c.normalized_value
    && x.candidate_entity_id == c.candidate_entity_id

abbrev pub identifier_of : Mapping → List ℕ → Identifier
identifier_of m normalized = record {
  workspace_id = m.entity.workspace_id;
  entity_id = m.entity.id;
  namespace = m.namespace;
  normalized_value = normalized;
  valid_from = m.valid_from;
  simulation_eligible_time = m.simulation_eligible_time;
}

abbrev pub candidate_of : ℕ → Mapping → List ℕ → CandidateStatus → Candidate
candidate_of id m normalized status = record {
  id = id;
  workspace_id = m.entity.workspace_id;
  namespace = m.namespace;
  normalized_value = normalized;
  candidate_entity_id = m.entity.id;
  status = status;
  valid_from = m.valid_from;
  simulation_eligible_time = m.simulation_eligible_time;
}

abbrev pub keep_candidate : Candidate → Registry → Option Candidate → Registry × Candidate
keep_candidate c s (some x) = (s, x)
keep_candidate c s none = (record s { candidates = s.candidates ++ (c ∷ []) }, c)

abbrev pub put_candidate : Candidate → Registry → Registry × Candidate
put_candidate c s = keep_candidate c s (find (λ x. same_candidate x c) s.candidates)

abbrev ambiguity_of : Mapping → List ℕ → Ambiguity
ambiguity_of m normalized = record {
  workspace_id = m.entity.workspace_id;
  entity_id = m.entity.id;
  namespace = m.namespace;
  normalized_value = normalized;
}

-- The identifier belongs to another entity: a candidate and an issue are kept.
abbrev pub conflict_of : ℕ → Mapping → List ℕ → Registry → Registry × Attached
conflict_of id m normalized s =
    let kept = put_candidate (candidate_of id m normalized ambiguous) s in
    (
      record kept.0 { issues = kept.0.issues ++ (ambiguity_of m normalized ∷ []) },
      conflicting kept.1,
    )

abbrev pub attach_to : ℕ → Mapping → List ℕ → Registry → Option Identifier → Registry × Attached
attach_to id m normalized s (some x) =
    if x.entity_id == m.entity.id then (s, mapped x) else conflict_of id m normalized s
attach_to id m normalized s none =
    let i = identifier_of m normalized in
    (record s { identifiers = s.identifiers ++ (i ∷ []) }, mapped i)

abbrev attach_normalized : ℕ → Mapping → Registry → Option (List ℕ) → Option (Registry × Attached)
attach_normalized id m s none = none
attach_normalized id m s (some normalized) = some (
    attach_to id m normalized s
      (find (λ x. same_identifier x (identifier_of m normalized)) s.identifiers))

abbrev create_normalized :
    ℕ → Mapping → CandidateStatus → Registry → Option (List ℕ) → Option (Registry × Candidate)
create_normalized id m status s none = none
create_normalized id m status s (some normalized) =
    some (put_candidate (candidate_of id m normalized status) s)

module _ (text : PythonText) where
  unfoldable pub attach_identifier : ℕ → Mapping → Registry → Option (Registry × Attached)
  attach_identifier id m s =
      attach_normalized id m s (normalize_identifier text m.namespace m.value)

  unfoldable pub create_resolution_candidate :
      ℕ → Mapping → CandidateStatus → Registry → Option (Registry × Candidate)
  create_resolution_candidate id m status s =
      create_normalized id m status s (normalize_identifier text m.namespace m.value)

abbrev pub is_supported : Verdict → Bool
is_supported (unsupported_verdict n) = false
is_supported _ = true

abbrev pub same_verdict : Verdict → Verdict → Bool
same_verdict confirmed confirmed = true
same_verdict refused refused = true
same_verdict (unsupported_verdict a) (unsupported_verdict b) = a == b
same_verdict _ _ = false

abbrev pub is_final : CandidateStatus → Bool
is_final (decided v) = is_supported v
is_final _ = false

-- The final decision that there is, if it is the same.
abbrev pub repeat_decision : Verdict → Registry → Option Decision → Option (Registry × Decision)
repeat_decision v s none = none
repeat_decision v s (some d) = if same_verdict d.decision v then some (s, d) else none

abbrev pub identifier_from : Candidate → Identifier
identifier_from c = record {
  workspace_id = c.workspace_id;
  entity_id = c.candidate_entity_id;
  namespace = c.namespace;
  normalized_value = c.normalized_value;
  valid_from = c.valid_from;
  simulation_eligible_time = c.simulation_eligible_time;
}

-- The identifiers after a confirmation, or `none` while another entity has this one.
abbrev pub confirm_against :
    Candidate → List Identifier → Option Identifier → Option (List Identifier)
confirm_against c rows (some x) = if x.entity_id == c.candidate_entity_id then some rows else none
confirm_against c rows none = some (rows ++ (identifier_from c ∷ []))

abbrev pub identifiers_after : Verdict → Candidate → List Identifier → Option (List Identifier)
identifiers_after confirmed c rows =
    confirm_against c rows (find (λ x. same_identifier x (identifier_from c)) rows)
identifiers_after _ c rows = some rows

abbrev pub recorded : Candidate → Verdict → Registry → List Identifier → Registry
recorded c v s rows = record {
  identifiers = rows;
  candidates = update_rows (λ x. x.id == c.id) (λ x. record x { status = decided v }) s.candidates;
  decisions = s.decisions ++ (record { candidate_id = c.id; decision = v } ∷ []);
  issues = s.issues;
}

abbrev pub record_decision :
    Candidate → Verdict → Registry → Option (List Identifier) → Option (Registry × Decision)
record_decision c v s none = none
record_decision c v s (some rows) =
    some (recorded c v s rows, record { candidate_id = c.id; decision = v })

abbrev pub decide_row : Candidate → Verdict → Registry → Option (Registry × Decision)
decide_row c v s =
    if is_final c.status
    then repeat_decision v s (find (λ d. d.candidate_id == c.id) s.decisions)
    else record_decision c v s (identifiers_after v c s.identifiers)

abbrev decide_found : Verdict → Registry → Option Candidate → Option (Registry × Decision)
decide_found v s none = none
decide_found v s (some c) = decide_row c v s

-- The candidate is the row with the given identifier.
unfoldable pub decide_resolution : ℕ → Verdict → Registry → Option (Registry × Decision)
decide_resolution id v s =
    if is_supported v then decide_found v s (find (λ c. c.id == id) s.candidates) else none
