-- ===== src/ImportJobs/Storing.antt =====
-- Storing a batch of provider records (packages/market_data/ingestion.py, the record loop of
-- `run_import_job`), for one asset and data source. The session does not flush inside the loop, so a
-- record is compared with the bars stored before the batch; the flush at its end enforces the
-- table's unique key.
pub mod Laws
use Prim.Native.String.{String}
use text.Mathlib.Text.{◌==◌ as str_eq}
use market_intelligence_lab.Prelude.{
  ℕ, ◌+◌, Bool, true, false, ◌&&◌, ◌||◌, not, Option, none, some, List, [], ◌∷◌, ◌++◌, ◌==◌,
  exists_row, find, if◌then◌else◌, length,
}
use market_intelligence_lab.Moments.{Instant}

pub record Bar : Type 0 where
  pub interval : String
  pub event_time : Instant
  pub checksum : String
  pub close : ℕ

-- The bar that a record would be stored as, its checksum computed.
abbrev pub same_key : Bar → Bar → Bool
same_key a b = str_eq a.interval b.interval && a.event_time == b.event_time

abbrev is_empty : String → Bool
is_empty String.[] = true
is_empty (String.◌∷◌ c s) = false

-- `duplicate.checksum and duplicate.checksum != checksum`
abbrev pub in_conflict : Bar → Bar → Bool
in_conflict old new = not (is_empty old.checksum) && not (str_eq old.checksum new.checksum)

pub record Batch : Type 0 where
  pub added : List Bar
  pub inserted : ℕ
  pub skipped : ℕ
  pub conflicts : ℕ

skip : Bool → Batch → Batch
skip conflict b = record b {
  skipped = b.skipped + 1;
  conflicts = if conflict then b.conflicts + 1 else b.conflicts;
}

insert_bar : Bar → Batch → Batch
insert_bar r b = record b { added = r ∷ b.added; inserted = b.inserted + 1 }

store_one : Bool → Bar → Option Bar → Batch → Batch
unfolding skip insert_bar
store_one dry_run r (some old) b = skip (in_conflict old r) b
store_one dry_run r none b = if dry_run then skip false b else insert_bar r b

unfoldable pub store_records : Bool → List Bar → List Bar → Batch → Batch
unfolding store_one
store_records dry_run bars [] b = b
store_records dry_run bars (r ∷ rs) b =
    store_records dry_run bars rs (store_one dry_run r (find (same_key r) bars) b)

abbrev pub empty_batch : Batch
empty_batch = record { added = []; inserted = 0; skipped = 0; conflicts = 0 }

-- The unique key of the table.
abbrev pub is_unique : List Bar → Bool
is_unique [] = true
is_unique (b ∷ bs) = not (exists_row (same_key b) bs) && is_unique bs

-- The flush: the table with the new bars, or `none` for the IntegrityError.
unfoldable pub flush_bars : List Bar → Batch → Option (List Bar)
flush_bars bars b = let all = b.added ++ bars in if is_unique all then some all else none
