-- ===== src/EconomicGraph/Traversal/Laws/Reference.antt =====
-- The loop of `bounded_graph_as_of` against a recursive search by depth
-- (packages/economic_graph/traversal.py).
use market_intelligence_lab.Prelude.{
  ℕ, zero, suc, ◌+◌, ◌-◌, ◌<◌, ◌≡◌, ap, inl, inr, Bool, false, some, List, [], ◌∷◌, ◌++◌, arith,
  leb, if◌then◌else◌, All, Bool-cases, refl,
}
use market_intelligence_lab.EconomicGraph.Rows.{Entity, Graph}
use market_intelligence_lab.EconomicGraph.Traversal.{
  Trail, Found, found, Request, walk, bounded_graph_as_of, visible_entity, start_path,
}
use market_intelligence_lab.EconomicGraph.Traversal.Laws.Rules.{
  children, All-children, step_to-eq-some, walk_round, expand_rule, found-injective,
  bounded-eq-found,
}

leb-eq-false : (a b : ℕ) → leb a b ≡ false → b < a
leb-eq-false a b h = ground arith

-- How many of the paths pass a test.
abbrev pub count : (Trail → Bool) → List Trail → ℕ
count q [] = 0
count q (p ∷ ps) = (if q p then 1 else 0) + count q ps

pub count-append :
    (q : Trail → Bool) (ps rs : List Trail) → count q (ps ++ rs) ≡ count q ps + count q rs
count-append q [] rs = omega arith
count-append q (p ∷ ps) rs = omega (arith, count-append q ps rs)

-- Each path, followed by what a search finds below it.
abbrev pub flat : (Trail → List Trail) → List Trail → List Trail
flat below [] = []
flat below (p ∷ ps) = p ∷ below p ++ flat below ps

module _ (graph : Graph) (request : Request) where
  -- The paths below a path, at most so many edges longer, depth first.
  abbrev pub descend : ℕ → Trail → List Trail
  descend zero p = []
  descend (suc height) p = flat (descend height) (children graph request p)

  -- The edges that a path may still have.
  abbrev pub height_of : Trail → ℕ
  height_of p = request.max_depth - p.depth

  abbrev total : (Trail → Bool) → List Trail → ℕ
  total q [] = 0
  total q (p ∷ ps) = count q (descend (height_of p) p) + total q ps

  total-append :
      (q : Trail → Bool) (ps rs : List Trail) → total q (ps ++ rs) ≡ total q ps + total q rs
  total-append q [] rs = omega arith
  total-append q (p ∷ ps) rs = omega (arith, total-append q ps rs)

  pub height_of-children :
      (p : Trail)
      → leb request.max_depth p.depth ≡ false
      → All (λ c. height_of p ≡ suc (height_of c)) (children graph request p)
  height_of-children p d = All-children graph request _ p (λ _ r e child h.
      let deeper = ap (λ c. c.depth) (step_to-eq-some graph request p r e child h).0 in
      omega (arith, deeper, leb-eq-false request.max_depth p.depth d))

  count-flat :
      (q : Trail → Bool) (height : ℕ) (ps : List Trail)
      → All (λ c. suc height ≡ suc (height_of c)) ps
      → count q (flat (descend height) ps) ≡ count q ps + total q ps
  count-flat q height [] h = refl
  count-flat q height (p ∷ ps) h =
      let same : height ≡ height_of p = omega (arith, h.0) in
      omega (
        arith,
        count-append q (descend height p) (flat (descend height) ps),
        count-flat q height ps h.1,
        ap (λ n. count q (descend n p)) same,
      )

  -- The paths below a path are its children and those below them.
  count-descend :
      (q : Trail → Bool) (p : Trail)
      → count q (descend (height_of p) p)
        ≡ count q (children graph request p) + total q (children graph request p)
  count-descend q p = elim (Bool-cases (leb request.max_depth p.depth)) [
    | inl e ↦ let none_left : height_of p ≡ 0 = ground arith in rw (none_left, e) refl
    | inr e ↦
        let more : height_of p ≡ suc (request.max_depth - (p.depth + 1)) =
          omega (arith, leb-eq-false request.max_depth p.depth e) in
        rw more (
          count-flat q (request.max_depth - (p.depth + 1)) (children graph request p)
            (rw more at (height_of-children p e)))
  ]

  walk-count :
      (q : Trail → Bool) (fuel round : ℕ) (queue : List Trail) (w t : Found)
      → walk graph request fuel round queue w ≡ found t
      → count q t.paths ≡ count q w.paths + total q queue
  unfolding walk
  walk-count q fuel round [] w t h =
      let same = ap (λ v. count q v.paths) (found-injective w t h) in omega (arith, same)
  walk-count q zero round (p ∷ queue) w t h = cc
  walk-count q (suc fuel) round (p ∷ queue) w t h =
      let (w', cs, e, next) = walk_round graph request fuel round p queue w t h in
      let (_, more, same) =
        expand_rule {0} graph request p (λ _. Unit) (λ _ _ _ _ _ _ _ _. tt) w w' cs e tt in
      omega (
        arith,
        walk-count q fuel (round + 1) (queue ++ cs) w' t next,
        ap (count q) more,
        count-append q w.paths (children graph request p),
        ap (λ l. total q (queue ++ l)) same,
        total-append q queue (children graph request p),
        count-descend q p,
      )

  -- What the traversal returns has the paths that the recursive search by depth finds below the
  -- start, each as often: every test on paths counts the same on both.
  pub bounded_graph_as_of-descend :
      (t : Found)
      → bounded_graph_as_of graph request ≡ found t
      → (start : Entity) × (visible_entity graph request request.start_entity_id ≡ some start)
        × ((q : Trail → Bool)
            → count q t.paths ≡ count q (descend request.max_depth (start_path start)))
  bounded_graph_as_of-descend t h =
      let (start, visible, _, walks) = bounded-eq-found graph request t h in
      let height : request.max_depth - 0 ≡ request.max_depth = omega arith in
      (
        start,
        visible,
        λ q. omega (
          arith,
          walk-count q _ 0 _ _ t walks,
          ap (λ n. count q (descend n (start_path start))) height,
        ),
      )
