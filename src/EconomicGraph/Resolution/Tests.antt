-- ===== src/EconomicGraph/Resolution/Tests.antt =====
-- Witnesses on a small registry of identifiers.
use market_intelligence_lab.Prelude.{
  ℕ, ◌≡◌, ◌==◌, ◌&&◌, ◌||◌, leb, true, false, refl, none, some, List, [], ◌∷◌, arith, length, every,
}
use market_intelligence_lab.EconomicGraph.Rows.{verified}
use market_intelligence_lab.EconomicGraph.Identifiers.{PythonText, cik, normalize_identifier}
use market_intelligence_lab.EconomicGraph.Identifiers.Laws.{IsDigitTest, normalize_identifier-cik}
use market_intelligence_lab.EconomicGraph.Resolution.{
  Verdict, confirmed, refused, Registry, Mapping, Candidate, Decision, CandidateStatus, Attached,
  mapped, attach_identifier, decide_resolution, identifier_of, conflict_of, recorded, candidate_of,
  same_verdict,
}
use market_intelligence_lab.EconomicGraph.Resolution.Uniqueness.{Call, IsUnique}
use market_intelligence_lab.EconomicGraph.Resolution.Laws.{IsSettled, decide_resolution_final}
use market_intelligence_lab.EconomicGraph.Resolution.History.{History, History-IsConsistent}

-- The characters of ASCII.
abbrev ascii : PythonText
ascii = record {
  is_space = λ c. c == 32 || (leb 9 c && leb c 13);
  is_digit = λ c. leb 48 c && leb c 57;
  upper = λ t. t;
  casefold = λ t. t;
}

ascii_digits : IsDigitTest ascii
ascii_digits = record {
  zero_digit = refl;
  not_space = λ c h. ground arith;
  not_dash = refl;
  not_letter = refl;
}

-- " CIK320-193" and its normal form "0000320193"
abbrev cik_text : List ℕ
cik_text = 32 ∷ 67 ∷ 73 ∷ 75 ∷ 51 ∷ 50 ∷ 48 ∷ 45 ∷ 49 ∷ 57 ∷ 51 ∷ []

abbrev cik_normal : List ℕ
cik_normal = 48 ∷ 48 ∷ 48 ∷ 48 ∷ 51 ∷ 50 ∷ 48 ∷ 49 ∷ 57 ∷ 51 ∷ []

normalized : normalize_identifier ascii cik cik_text ≡ some cik_normal
unfolding normalize_identifier
normalized = refl

normalize_identifier-cik_example :
    (length cik_normal ≡ 10)
    × (every ascii.is_digit cik_normal ≡ true)
    × (normalize_identifier ascii cik cik_normal ≡ some cik_normal)
normalize_identifier-cik_example =
    normalize_identifier-cik ascii ascii_digits cik_text cik_normal normalized

abbrev mapping : ℕ → Mapping
mapping entity_id = record {
  entity = record {
    id = entity_id;
    workspace_id = 1;
    status = verified;
    valid_from = 0;
    valid_to = none;
    simulation_eligible_time = 2;
  };
  namespace = cik;
  value = cik_text;
  valid_from = 3;
  simulation_eligible_time = 4;
}

abbrev nothing : Registry
nothing = record { identifiers = []; candidates = []; decisions = []; issues = [] }

abbrev one_mapped : Registry
one_mapped = record nothing { identifiers = identifier_of (mapping 5) cik_normal ∷ [] }

abbrev in_conflict : Registry × Attached
in_conflict = conflict_of 31 (mapping 6) cik_normal one_mapped

abbrev disputed_row : Candidate
disputed_row = candidate_of 31 (mapping 6) cik_normal CandidateStatus.ambiguous

abbrev settled : Registry
settled = recorded disputed_row refused in_conflict.0 one_mapped.identifiers

abbrev refusal : Decision
refusal = record { candidate_id = 31; decision = refused }

first_mapped :
    attach_identifier ascii 30 (mapping 5) nothing
    ≡ some (one_mapped, mapped (identifier_of (mapping 5) cik_normal))
unfolding attach_identifier normalize_identifier
first_mapped = refl

second_conflicts : attach_identifier ascii 31 (mapping 6) one_mapped ≡ some in_conflict
unfolding attach_identifier normalize_identifier
second_conflicts = refl

then_refused : decide_resolution 31 refused in_conflict.0 ≡ some (settled, refusal)
unfolding decide_resolution
then_refused = refl

-- The identifier is still another entity's.
not_confirmed : decide_resolution 31 confirmed in_conflict.0 ≡ none
unfolding decide_resolution
not_confirmed = refl

history : History ascii settled
history =
    History.called
      (History.called
        (History.called History.empty (Call.attached 30 (mapping 5) _ refl first_mapped))
        (Call.attached 31 (mapping 6) _ refl second_conflicts))
      (Call.resolution_decided 31 refused refusal then_refused)

History-IsConsistent_example : IsUnique settled.identifiers × IsSettled settled
History-IsConsistent_example = History-IsConsistent ascii history

decide_resolution_final_example :
    (decide_resolution 31 refused settled ≡ some (settled, refusal))
    × ((u : Verdict) → same_verdict refused u ≡ false → decide_resolution 31 u settled ≡ none)
decide_resolution_final_example =
    decide_resolution_final 31 refused in_conflict.0 settled refusal (refl, tt) then_refused
