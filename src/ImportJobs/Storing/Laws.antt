-- ===== src/ImportJobs/Storing/Laws.antt =====
-- A batch accounts for every record, never overwrites a bar, and is imported again without effect.
use mathlib.Core.Path.{subst}
use mathlib.Core.Option.{some-injective}
use text.Mathlib.TextPositions.{eq_refl}
use text.Mathlib.TextEquality.{eq_iff}
use market_intelligence_lab.Prelude.{
  ◌+◌, ◌≡◌, refl, ◌∙◌, sym, ap, inl, inr, Bool, true, false, ◌||◌, not, none, some, List, [], ◌∷◌,
  ◌++◌, arith, exists_row, find, is_some, length, All, Bool-cases, Option-cases, if◌then◌else◌,
}
use market_intelligence_lab.ImportJobs.Storing.{
  Bar, same_key, Batch, store_one, store_records, empty_batch, is_unique, flush_bars,
}

-- Each record is inserted or skipped, and the inserted ones are the added bars.
store_records_counts :
    (dry_run : Bool) (bars rs : List Bar) (b : Batch)
    → let b' = store_records dry_run bars rs b in
      (b'.inserted + b'.skipped ≡ b.inserted + b.skipped + length rs)
      × (length b'.added + b.inserted ≡ length b.added + b'.inserted)
unfolding store_records
store_records_counts dry_run bars [] b = omega arith
store_records_counts dry_run bars (r ∷ rs) b =
    let next = store_one dry_run r (find (same_key r) bars) b in
    let (sums, adds) = store_records_counts dry_run bars rs next in ground (arith, sums, adds)

exists_append :
    (q : Bar → Bool) (xs ys : List Bar)
    → exists_row q (xs ++ ys) ≡ (exists_row q xs || exists_row q ys)
exists_append q [] ys = refl
exists_append q (x ∷ xs) ys = rw (exists_append q xs ys) (ground arith)

is_some-find-eq-exists : (q : Bar → Bool) (xs : List Bar) → is_some (find q xs) ≡ exists_row q xs
is_some-find-eq-exists q [] = refl
is_some-find-eq-exists q (x ∷ xs) = elim (Bool-cases (q x)) [
  | inl e ↦ rw e
  | inr e ↦ rw e (is_some-find-eq-exists q xs)
]

same_key_refl : (a : Bar) → same_key a a ≡ true
same_key_refl a = rw (eq_refl a.interval) (ground arith)

same_key_trans : (k a b : Bar) → same_key k a ≡ true → same_key k b ≡ true → same_key a b ≡ true
same_key_trans k a b h l = ground (
  arith,
  eq_iff k.interval a.interval,
  eq_iff k.interval b.interval,
  eq_iff a.interval b.interval,
)

-- What was added stays added.
store_records_keeps :
    (q : Bar → Bool) (dry_run : Bool) (bars rs : List Bar) (b : Batch)
    → exists_row q b.added ≡ true
    → exists_row q (store_records dry_run bars rs b).added ≡ true
unfolding store_records
store_records_keeps q dry_run bars [] b h = h
store_records_keeps q dry_run bars (r ∷ rs) b h =
    store_records_keeps q dry_run bars rs (store_one dry_run r (find (same_key r) bars) b)
      (ground arith)

-- One record: stored already, it adds nothing; else a real import adds its bar.
store_one_known :
    (dry_run : Bool) (r : Bar) (bars : List Bar) (b : Batch)
    → exists_row (same_key r) bars ≡ true
    → ((store_one dry_run r (find (same_key r) bars) b).added ≡ b.added)
      × ((store_one dry_run r (find (same_key r) bars) b).inserted ≡ b.inserted)
unfolding store_one
store_one_known dry_run r bars b h = elim (Option-cases (find (same_key r) bars)) [
  | inr (old, found) ↦ rw found (refl, refl)
  | inl missing ↦
      let none_there : is_some (find (same_key r) bars) ≡ false = rw missing in
      let e = is_some-find-eq-exists (same_key r) bars in cc
]

store_one_covers :
    (r : Bar) (bars : List Bar) (b : Batch)
    → exists_row (same_key r) bars ≡ false
    → exists_row (same_key r) (store_one false r (find (same_key r) bars) b).added ≡ true
unfolding store_one
store_one_covers r bars b h = elim (Option-cases (find (same_key r) bars)) [
  | inl missing ↦ rw missing (rw (same_key_refl r))
  | inr (old, found) ↦
      let one_there : is_some (find (same_key r) bars) ≡ true = rw found in
      let e = is_some-find-eq-exists (same_key r) bars in cc
]

-- After a real import every record's key is stored.
store_records_covers :
    (bars rs : List Bar) (b : Batch)
    → All (λ r. exists_row (same_key r) ((store_records false bars rs b).added ++ bars) ≡ true) rs
unfolding store_records
store_records_covers bars [] b = tt
store_records_covers bars (r ∷ rs) b =
    let next = store_one false r (find (same_key r) bars) b in
    let last = (store_records false bars rs next).added in
    let split = exists_append (same_key r) last bars in
    (
      elim (Bool-cases (exists_row (same_key r) bars)) [
        | inl stored ↦ split ∙ rw stored (ground arith)
        | inr new ↦
            split
            ∙ rw (
                store_records_keeps (same_key r) false bars rs next (store_one_covers r bars b new))
      ],
      store_records_covers bars rs next,
    )

-- Records that are all stored already change nothing.
store_records_known :
    (dry_run : Bool) (bars rs : List Bar) (b : Batch)
    → All (λ r. exists_row (same_key r) bars ≡ true) rs
    → ((store_records dry_run bars rs b).added ≡ b.added)
      × ((store_records dry_run bars rs b).inserted ≡ b.inserted)
unfolding store_records
store_records_known dry_run bars [] b h = (refl, refl)
store_records_known dry_run bars (r ∷ rs) b h =
    let (a, i) = store_one_known dry_run r bars b h.0 in
    let (a', i') =
      store_records_known dry_run bars rs (store_one dry_run r (find (same_key r) bars) b) h.1 in
    (a' ∙ a, i' ∙ i)

store_records_dry :
    (bars rs : List Bar) (b : Batch) → (store_records true bars rs b).added ≡ b.added
unfolding store_records
store_records_dry bars [] b = refl
store_records_dry bars (r ∷ rs) b =
    store_records_dry bars rs (store_one true r (find (same_key r) bars) b) ∙ store_one_dry
  where
    store_one_dry : (store_one true r (find (same_key r) bars) b).added ≡ b.added
    store_one_dry = ground arith

-- A flush that succeeds found unique keys and leaves the new bars before the old ones.
is_flushed :
    (bars bars' : List Bar) (b : Batch)
    → flush_bars bars b ≡ some bars'
    → (is_unique (b.added ++ bars) ≡ true) × (b.added ++ bars ≡ bars')
unfolding flush_bars
is_flushed bars bars' b h = elim (Bool-cases (is_unique (b.added ++ bars))) [
  | inl unique ↦ (
    unique,
    some-injective _ _
        (subst (λ t. (if t then some (b.added ++ bars) else none) ≡ some bars') unique h),
  )
  | inr taken ↦
      let refused : none ≡ some bars' =
        subst (λ t. (if t then some (b.added ++ bars) else none) ≡ some bars') taken h in
      cc
]

-- A bar with the key of another is found wherever the other is.
exists_same :
    (k x : Bar) (ys : List Bar)
    → same_key k x ≡ true
    → exists_row (same_key k) ys ≡ true
    → exists_row (same_key x) ys ≡ true
exists_same k x [] e h = h
exists_same k x (y ∷ ys) e h = elim (Bool-cases (same_key k y)) [
  | inl same ↦ rw (same_key_trans k x y e same)
  | inr other ↦
      let later = subst (λ t. (t || exists_row (same_key k) ys) ≡ true) other h in
      let rest = exists_same k x ys e later in ground arith
]

find_append :
    (k : Bar) (xs ys : List Bar) {old : Bar}
    → is_unique (xs ++ ys) ≡ true
    → find (same_key k) ys ≡ some old
    → find (same_key k) (xs ++ ys) ≡ some old
find_append k [] ys u found = found
find_append k (x ∷ xs) ys u found =
    let u' : is_unique (xs ++ ys) ≡ true = ground arith in
    let rest = find_append k xs ys u' found in
    elim (Bool-cases (same_key k x)) [
      | inr other ↦ rw other rest
      | inl same ↦
          let there = sym (is_some-find-eq-exists (same_key k) (xs ++ ys)) ∙ ap is_some rest in
          let again = exists_same k x (xs ++ ys) same there in
          let alone : not (exists_row (same_key x) (xs ++ ys)) ≡ true = ground arith in
          let no : not true ≡ true = subst (λ t. not t ≡ true) again alone in cc
    ]

-- Every record of a batch is either inserted or skipped; a dry run inserts none.
pub store_records_lem :
    (dry_run : Bool) (bars rs : List Bar)
    → let b = store_records dry_run bars rs empty_batch in
      (b.inserted + b.skipped ≡ length rs)
      × (length b.added ≡ b.inserted)
      × (dry_run ≡ true → b.inserted ≡ 0)
store_records_lem dry_run bars rs =
    let (sums, adds) = store_records_counts dry_run bars rs empty_batch in
    (omega (arith, sums), omega (arith, adds), λ dry. dry_inserts dry)
  where
    dry_inserts : dry_run ≡ true → (store_records dry_run bars rs empty_batch).inserted ≡ 0
    dry_inserts dry =
        let adds = (store_records_counts dry_run bars rs empty_batch).1 in
        let nothing : (store_records dry_run bars rs empty_batch).added ≡ [] =
          subst (λ d. (store_records d bars rs empty_batch).added ≡ []) (sym dry)
            (store_records_dry bars rs empty_batch) in
        let count = ap length nothing in omega (arith, adds, count)

-- Importing the same records again into the table that a real import left inserts nothing.
pub reimport_inserts_nothing :
    (bars bars' rs : List Bar) (dry_run : Bool)
    → flush_bars bars (store_records false bars rs empty_batch) ≡ some bars'
    → let again = store_records dry_run bars' rs empty_batch in
      (again.added ≡ []) × (again.inserted ≡ 0) × (again.skipped ≡ length rs)
reimport_inserts_nothing bars bars' rs dry_run h =
    let stored = is_flushed bars bars' (store_records false bars rs empty_batch) h in
    let covered = store_records_covers bars rs empty_batch in
    let known = subst (λ t. All (λ r. exists_row (same_key r) t ≡ true) rs) stored.1 covered in
    let (adds, inserts) = store_records_known dry_run bars' rs empty_batch known in
    let sums = (store_records_counts dry_run bars' rs empty_batch).0 in
    (adds, inserts, omega (arith, sums, inserts))

-- A bar that was stored before a batch is found unchanged after a flush of it that succeeds.
pub flush_bars_preserves :
    (bars bars' : List Bar) (b : Batch) (k : Bar) {old : Bar}
    → flush_bars bars b ≡ some bars'
    → find (same_key k) bars ≡ some old
    → find (same_key k) bars' ≡ some old
flush_bars_preserves bars bars' b k {old} h found =
    let (unique, stored) = is_flushed bars bars' b h in
    subst (λ t. find (same_key k) t ≡ some old) stored (find_append k b.added bars unique found)
