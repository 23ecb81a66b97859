-- ===== src/Paper/Prices.antt =====
-- The price at which a bar fills an order (packages/paper_trading/engine.py, `_eligible_price`,
-- `_limit_price`, `_apply_friction`).
pub mod Laws
use market_intelligence_lab.Prelude.{
  ℕ, Bool, true, false, ◌||◌, ◌&&◌, Option, none, some, List, [], ◌∷◌, if◌then◌else◌, or_else,
}
use market_intelligence_lab.Moments.{Instant}
use market_intelligence_lab.Paper.Decimals.{Decimals, lesser, greater, is_zero}

pub data Side : Type 0 where
  buy sell : Side

pub data OrderType : Type 0 where
  market limit stop stop_limit : OrderType

pub data Outcome : Type 0 where
  would_fill would_wait would_trigger : Outcome

pub record Bar (D : Type 0) : Type 0 where
  pub id : ℕ
  pub open_price : D
  pub high : D
  pub low : D
  pub event_time : Instant

pub record Assumptions (D : Type 0) : Type 0 where
  pub commission : D
  pub spread_bps : D
  pub slippage_bps : D

-- A base price, if there is one, the outcome, and whether the stop was triggered.
abbrev pub Eligible : Type 0 → Type 0
Eligible D = Option D × Outcome × Bool

abbrev pub with_trigger : {D : Type 0} → Bool → Option (Option D × Outcome) → Option (Eligible D)
with_trigger t none = none
with_trigger t (some (base, outcome)) = some (base, outcome, t)

-- A triggered stop-limit order without a price stays triggered.
abbrev pub stay_triggered : {D : Type 0} → Option (Option D × Outcome) → Option (Eligible D)
stay_triggered none = none
stay_triggered (some (some base, outcome)) = some (some base, outcome, true)
stay_triggered (some (none, outcome)) = some (none, would_trigger, true)

module _ {D : Type 0} (dec : Decimals D) where
  abbrev limit_buy : Bar D → D → Option D × Outcome
  limit_buy bar l =
      if dec.at_most bar.open_price l
      then (some bar.open_price, would_fill)
      else if dec.at_most bar.low l
      then (some l, would_fill)
      else (none, would_wait)

  abbrev limit_sell : Bar D → D → Option D × Outcome
  limit_sell bar l =
      if dec.at_most l bar.open_price
      then (some bar.open_price, would_fill)
      else if dec.at_most l bar.high
      then (some l, would_fill)
      else (none, would_wait)

  -- `none` is the ValueError for a missing limit.
  unfoldable pub limit_at : Side → Bar D → Option D → Option (Option D × Outcome)
  limit_at side bar none = none
  limit_at buy bar (some l) = some (limit_buy bar l)
  limit_at sell bar (some l) = some (limit_sell bar l)

  abbrev pub stop_reached : Side → Bar D → D → Bool
  stop_reached buy bar s = dec.at_most s bar.high
  stop_reached sell bar s = dec.at_most bar.low s

  abbrev pub stop_base : Side → Bar D → D → D
  stop_base buy bar s = greater dec bar.open_price s
  stop_base sell bar s = lesser dec bar.open_price s

  abbrev stop_fill : Bool → Side → Bar D → D → Option (Eligible D)
  stop_fill true side bar s = some (some (stop_base side bar s), would_fill, true)
  stop_fill false side bar s = some (none, would_wait, false)

  abbrev stop_limit_fill : Bool → Side → Bar D → Option D → Option (Eligible D)
  stop_limit_fill true side bar l = stay_triggered (limit_at side bar l)
  stop_limit_fill false side bar l = some (none, would_wait, false)

  unfoldable pub eligible_price :
      OrderType → Side → Option D → Option D → Bar D → Bool → Option (Eligible D)
  unfolding limit_at
  eligible_price market side l s bar already = some (some bar.open_price, would_fill, false)
  eligible_price limit side l s bar already = with_trigger false (limit_at side bar l)
  eligible_price stop side l none bar already = none
  eligible_price stop side l (some s) bar already =
      stop_fill (already || stop_reached side bar s) side bar s
  eligible_price stop_limit side l none bar already = none
  eligible_price stop_limit side l (some s) bar already =
      stop_limit_fill (already || stop_reached side bar s) side bar l

  friction : Assumptions D → D
  friction a = dec.div (dec.add (dec.div a.spread_bps dec.two_d) a.slippage_bps) dec.ten_thousand

  adjusted : Assumptions D → D → Side → D
  unfolding friction
  adjusted a base buy = dec.mul base (dec.add dec.one_d (friction a))
  adjusted a base sell = dec.mul base (dec.sub dec.one_d (friction a))

  abbrev within_limit : Side → Option D → D → D
  within_limit side none p = p
  within_limit buy (some l) p = lesser dec p l
  within_limit sell (some l) p = greater dec p l

  unfoldable pub apply_friction : Assumptions D → D → Side → Option D → D
  unfolding adjusted
  apply_friction a base side l = dec.to_price (within_limit side l (adjusted a base side))
