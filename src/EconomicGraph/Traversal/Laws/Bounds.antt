-- ===== src/EconomicGraph/Traversal/Laws/Bounds.antt =====
-- The loop of `bounded_graph_as_of` ends (packages/economic_graph/traversal.py).
use market_intelligence_lab.Prelude.{
  ℕ, zero, suc, ◌+◌, ◌*◌, ◌-◌, ◌≤◌, ◌≡◌, ◌≢◌, ◌∙◌, sym, ap, inl, inr, Bool, true, false, List, [],
  ◌∷◌, ◌++◌, arith, ltb, leb, if◌then◌else◌, All, Bool-cases, Option-cases, refl, length,
  where_rows, sort_rows, length-where_rows, insert_sorted,
}
use native.Mathlib.Nat.{suc-mul, mul-le-mul_right}
use market_intelligence_lab.EconomicGraph.Rows.{Relationship, Graph}
use market_intelligence_lab.EconomicGraph.Traversal.{
  Trail, Found, Request, expand, walk, bounded_graph_as_of, start_path, edges_of, is_edge_of,
  edge_before, tree_size, step_to, out_of_fuel, exceeded_timeout, exceeded_node_limit,
}
use market_intelligence_lab.EconomicGraph.Traversal.Laws.Rules.{
  children, collect, expand_rule, bounded-cases,
}
use market_intelligence_lab.EconomicGraph.Traversal.Laws.Reference.{height_of, height_of-children}

module _ {ℓ} {A : Type ℓ} (before : A → A → Bool) where
  length-insert_sorted :
      (x : A) (xs : List A) → length (insert_sorted before x xs) ≡ suc (length xs)
  length-insert_sorted x [] = refl
  length-insert_sorted x (y ∷ ys) = ground (arith, length-insert_sorted x ys)

  length-sort_rows : (xs : List A) → length (sort_rows before xs) ≡ length xs
  length-sort_rows [] = refl
  length-sort_rows (x ∷ xs) =
      length-insert_sorted x (sort_rows before xs) ∙ ap suc (length-sort_rows xs)

module _ (graph : Graph) (request : Request) where
  length-collect :
      (p : Trail) (rs : List Relationship) → length (collect graph request p rs) ≤ length rs
  length-collect p [] = omega arith
  length-collect p (r ∷ rs) = elim (Option-cases (step_to graph request p r)) [
    | inl e ↦ rw e (omega (arith, length-collect p rs))
    | inr (_, e) ↦ rw e (omega (arith, length-collect p rs))
  ]

  length-edges_of : (id : ℕ) → length (edges_of graph request id) ≤ length graph.relationships
  unfolding edges_of
  length-edges_of id = omega (
    arith,
    length-sort_rows edge_before (where_rows (is_edge_of graph request id) graph.relationships),
    length-where_rows (is_edge_of graph request id) graph.relationships,
  )

  -- The rounds that are left for a path, and for a queue.
  abbrev rounds_of : Trail → ℕ
  rounds_of p = tree_size graph request (height_of graph request p)

  abbrev rounds : List Trail → ℕ
  rounds [] = 0
  rounds (p ∷ ps) = rounds_of p + rounds ps

  rounds-append : (ps rs : List Trail) → rounds (ps ++ rs) ≡ rounds ps + rounds rs
  rounds-append [] rs = omega arith
  rounds-append (p ∷ ps) rs = omega (arith, rounds-append ps rs)

  rounds-level :
      (height : ℕ) (ps : List Trail)
      → All (λ c. suc height ≡ suc (height_of graph request c)) ps
      → rounds ps ≡ length ps * tree_size graph request height
  rounds-level height [] h = omega arith
  rounds-level height (p ∷ ps) h =
      let same : height_of graph request p ≡ height = omega (arith, h.0) in
      omega (
        arith,
        suc-mul (length ps) (tree_size graph request height),
        rounds-level height ps h.1,
        ap (tree_size graph request) same,
      )

  rounds-children : (p : Trail) → suc (rounds (children graph request p)) ≤ rounds_of p
  unfolding tree_size
  rounds-children p = elim (Bool-cases (leb request.max_depth p.depth)) [
    | inl e ↦
        let none_left : height_of graph request p ≡ 0 = ground arith in
        rw (none_left, e) (omega arith)
    | inr e ↦
        let height = request.max_depth - (p.depth + 1) in
        let more : height_of graph request p ≡ suc height = ground arith in
        let few : length (collect graph request p (edges_of graph request p.current_id))
            ≤ length graph.relationships =
          omega (
            arith,
            length-collect p (edges_of graph request p.current_id),
            length-edges_of p.current_id,
          ) in
        let level =
          rounds-level height (children graph request p)
            (rw more at (height_of-children graph request p e)) in
        rw more (
          omega (
            arith,
            level,
            mul-le-mul_right (tree_size graph request height) few,
            ap
                (λ b.
                  rounds (
                    if b
                    then []
                    else collect graph request p (edges_of graph request p.current_id)))
                e,
            ap
                (λ b.
                  length (
                    if b then [] else collect graph request p (edges_of graph request p.current_id))
                  * tree_size graph request height)
                e,
          ))
  ]

  walk_ends :
      (fuel round : ℕ) (queue : List Trail) (w : Found)
      → rounds queue ≤ fuel
      → walk graph request fuel round queue w ≢ out_of_fuel
  unfolding walk
  walk_ends fuel round [] w h bad = cc
  walk_ends zero round (p ∷ queue) w h bad = omega (arith, rounds-children p)
  walk_ends (suc fuel) round (p ∷ queue) w h bad =
      elim (Bool-cases (ltb request.timeout_ms (request.elapsed_ms round))) [
        | inl e ↦ let no : exceeded_timeout ≡ out_of_fuel = (rw e at bad) in cc
        | inr e ↦ elim (Option-cases (expand graph request p w)) [
          | inl k ↦ let no : exceeded_node_limit ≡ out_of_fuel = (rw (e, k) at bad) in cc
          | inr ((w', cs), k) ↦
              let (_, more, same) =
                expand_rule {0} graph request p (λ _. Unit) (λ _ _ _ _ _ _ _ _. tt) w w' cs k tt in
              walk_ends fuel (round + 1) (queue ++ cs) w'
                (omega (arith, rounds-append queue cs, rounds-children p, ap rounds same))
                (rw (e, k) at bad)
        ]
      ]

  -- The fuel is enough: whatever the graph, the request and the clock, the search is never out of it.
  pub bounded_graph_as_of_ends : bounded_graph_as_of graph request ≢ out_of_fuel
  bounded_graph_as_of_ends bad = elim (bounded-cases graph request) [
    | inl refused ↦ let no : false ≡ true = (rw bad at refused) in cc
    | inr (start, _, _, walks) ↦
        let height : request.max_depth - 0 ≡ request.max_depth = omega arith in
        walk_ends _ 0 (start_path start ∷ []) _ (rw height (omega arith)) (sym walks ∙ bad)
  ]
