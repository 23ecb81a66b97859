-- ===== src/EconomicGraph/Evidence/Answers.antt =====
-- The traversal over the tables that the service has made (packages/economic_graph/service.py,
-- packages/economic_graph/traversal.py).
use market_intelligence_lab.Prelude.{ℕ, ◌≡◌, ◌≤◌, true, All, All-map, All-at, arith}
use market_intelligence_lab.EconomicGraph.Traversal.{Found, found, Request, bounded_graph_as_of}
use market_intelligence_lab.EconomicGraph.Traversal.Laws.Visible.{
  IsKnownRelationship, bounded_graph_as_of-IsBounded,
}
use market_intelligence_lab.EconomicGraph.Evidence.{Tables, is_verified}
use market_intelligence_lab.EconomicGraph.Evidence.Laws.{IsBacked, History, History-IsSound}

later : (s : Tables) (id : ℕ) (t u : ℕ) → t ≤ u → IsBacked s id t → IsBacked s id u
later s id t u h b = record {
  link = b.link;
  row = b.row;
  stored_link = b.stored_link;
  stored_row = b.stored_row;
  of_relationship = b.of_relationship;
  of_evidence = b.of_evidence;
  supports = b.supports;
  eligible = omega (arith, b.eligible);
  published = omega (arith, b.published);
}

-- Every verified relationship that the traversal returns, over tables that the service's calls
-- have made, has a supporting link to stored evidence that was published and eligible no later
-- than the requested time.
pub bounded_graph_as_of-IsBacked :
    (s : Tables) (request : Request) (t : Found)
    → History s
    → bounded_graph_as_of s.graph request ≡ found t
    → All (λ r. is_verified r.status ≡ true → IsBacked s r.id request.as_of) t.relationships
bounded_graph_as_of-IsBacked s request t made h =
    let (bounded, _) = bounded_graph_as_of-IsBounded s.graph request t h in
    All-map (IsKnownRelationship s.graph request) _
      (λ r known v.
        later s r.id _ _ known.eligible
          (All-at _ s.graph.relationships (History-IsSound made).backed known.stored v))
      t.relationships bounded.known_relationships
