-- ===== src/Paper/Orders.antt =====
-- Orders of the paper trading engine (packages/paper_trading/engine.py): what becomes of an order and
-- of the books when a bar is processed. The portfolio snapshot that a fill writes is not
-- modelled, nor are the checks of a new order.
pub mod Laws
use market_intelligence_lab.Prelude.{
  ℕ, Bool, true, false, ◌||◌, ◌&&◌, not, is_some, Option, none, some, List, [], ◌∷◌, if◌then◌else◌,
  or_else,
}
use market_intelligence_lab.Moments.{Instant}
use market_intelligence_lab.Paper.Decimals.{Decimals, lesser, greater, is_zero}
use market_intelligence_lab.Paper.Prices.{
  Side, buy, sell, OrderType, market, limit, stop, stop_limit, Outcome, would_fill, Bar,
  Assumptions, Eligible, eligible_price, apply_friction,
}

pub data OrderStatus : Type 0 where
  pending triggered filled cancelled rejected : OrderStatus

pub record Order (D : Type 0) : Type 0 where
  pub id : ℕ
  pub asset_id : ℕ
  pub side : Side
  pub order_type : OrderType
  pub quantity : D
  pub limit_price : Option D
  pub stop_price : Option D
  pub status : OrderStatus
  pub is_triggered : Bool
  pub source_price_bar_id : Option ℕ
  pub cancelled_at : Option Instant

pub record Position (D : Type 0) : Type 0 where
  pub held : D
  pub average_cost : D
  pub position_pnl : D

pub record Portfolio (D : Type 0) : Type 0 where
  pub cash_balance : D
  pub realized_pnl : D

pub record Fill (D : Type 0) : Type 0 where
  pub order_id : ℕ
  pub bar_id : ℕ
  pub fill_side : Side
  pub fill_quantity : D
  pub price : D
  pub gross_value : D
  pub fees : D
  pub filled_at : Instant

-- The session's rows that a fill reads and writes: the portfolio, the position in the order's asset
-- if there is one, and the fills.
pub record Book (D : Type 0) : Type 0 where
  pub portfolio : Portfolio D
  pub position : Option (Position D)
  pub fills : List (Fill D)

-- An open order may still be filled or cancelled.
abbrev pub is_open_status : OrderStatus → Bool
is_open_status pending = true
is_open_status triggered = true
is_open_status _ = false

-- `none` is the ValueError.
unfoldable pub cancel : {D : Type 0} → Instant → Order D → Option (Order D)
cancel now o =
    if is_open_status o.status
    then some (record o { status = cancelled; cancelled_at = some now })
    else none

abbrev pub waiting_status : Bool → Outcome → OrderStatus
waiting_status true would_fill = pending
waiting_status true _ = triggered
waiting_status false outcome = pending

-- How a bar leaves an order: with a ValueError of the request or of a missing price, with the
-- IntegrityError of a position below zero, with the ArithmeticError of an average over a position of
-- zero, or with the order and the books. With an exception the caller's transaction is not committed.
pub data Processed (D : Type 0) : Type 0 where
  invalid_request : Processed D
  integrity_error : Processed D
  division_error : Processed D
  processed : Order D → Book D → Processed D

-- `validate_order_prices`
abbrev pub are_prices_fit : {D : Type 0} → OrderType → Option D → Option D → Bool
are_prices_fit market l s = not (is_some l) && not (is_some s)
are_prices_fit limit l s = is_some l
are_prices_fit stop l s = is_some s
are_prices_fit stop_limit l s = is_some l && is_some s

module _ {D : Type 0} (dec : Decimals D) where
  -- `gt=0`
  abbrev is_positive : D → Bool
  is_positive a = not (dec.at_most a dec.zero_d)

  abbrev is_positive_if_given : Option D → Bool
  is_positive_if_given none = true
  is_positive_if_given (some a) = is_positive a

  -- The checks of OrderRequest. The argument tells whether the identifier and the symbol match their
  -- patterns and the numbers have no more digits than they may.
  unfoldable pub is_valid_request : Bool → Order D → Bool
  is_valid_request are_texts_fit o =
      are_texts_fit
      && is_positive o.quantity
      && is_positive_if_given o.limit_price
      && is_positive_if_given o.stop_price
      && are_prices_fit o.order_type o.limit_price o.stop_price

  abbrev pub opened_position : Position D
  opened_position = record {
    held = dec.zero_d;
    average_cost = dec.zero_d;
    position_pnl = dec.zero_d;
  }

  -- `gross` and `fee` against the cash and the position; `none` is a division by zero.
  unfoldable pub fill_position :
      Side → D → D → D → D → Portfolio D → Position D → Option (Portfolio D × Position D)
  fill_position buy price quantity gross fee f p =
      let held' = dec.add p.held quantity in
      if is_zero dec held'
      then none
      else some (
        record f { cash_balance = dec.sub f.cash_balance (dec.add gross fee) },
        record p {
          held = held';
          average_cost =
              dec.to_price
                (dec.div (dec.add (dec.add (dec.mul p.held p.average_cost) gross) fee) held');
        },
      )
  fill_position sell price quantity gross fee f p =
      let realized = dec.sub (dec.mul (dec.sub price p.average_cost) quantity) fee in
      let held' = dec.sub p.held quantity in
      some (
        record f {
          cash_balance = dec.add f.cash_balance (dec.sub gross fee);
          realized_pnl = dec.add f.realized_pnl realized;
        },
        record p {
          held = held';
          average_cost = if is_zero dec held' then dec.zero_d else p.average_cost;
          position_pnl = dec.add p.position_pnl realized;
        },
      )

  -- The flush holds the position against its constraint `quantity >= 0`.
  abbrev pub store_fill :
      Assumptions D
      → Order D
      → Bar D
      → D
      → D
      → Book D
      → Option (Portfolio D × Position D)
      → Processed D
  store_fill a o bar price gross b none = division_error
  store_fill a o bar price gross b (some (f, p)) =
      if dec.at_most dec.zero_d p.held
      then processed (record o { status = filled; source_price_bar_id = some bar.id })
          (record {
            portfolio = f;
            position = some p;
            fills =
                record {
                  order_id = o.id;
                  bar_id = bar.id;
                  fill_side = o.side;
                  fill_quantity = o.quantity;
                  price = price;
                  gross_value = gross;
                  fees = a.commission;
                  filled_at = bar.event_time;
                }
                ∷ b.fills;
          })
      else integrity_error

  unfoldable pub fill : Assumptions D → Order D → Bar D → D → Book D → Processed D
  unfolding fill_position
  fill a o bar price b =
      let gross = dec.to_money (dec.mul price o.quantity) in
      store_fill a o bar price gross b (
        fill_position o.side price o.quantity gross a.commission b.portfolio
          (or_else b.position opened_position))

  abbrev pub settle_order :
      Assumptions D → Order D → Bar D → Book D → Option (Eligible D) → Processed D
  settle_order a o bar b none = invalid_request
  settle_order a o bar b (some (none, outcome, t)) =
      processed (record o { is_triggered = t; status = waiting_status t outcome }) b
  settle_order a o bar b (some (some base, would_fill, t)) =
      fill a (record o { is_triggered = t; status = waiting_status t would_fill }) bar
        (apply_friction dec a base o.side o.limit_price) b
  settle_order a o bar b (some (some base, outcome, t)) =
      processed (record o { is_triggered = t; status = waiting_status t outcome }) b

  -- One bar for one order.
  unfoldable pub process_order : Bool → Assumptions D → Order D → Bar D → Book D → Processed D
  unfolding eligible_price apply_friction fill is_valid_request
  process_order are_texts_fit a o bar b =
      if is_open_status o.status
      then (if is_valid_request are_texts_fit o
          then settle_order a o bar b
              (eligible_price dec o.order_type o.side o.limit_price o.stop_price bar o.is_triggered)
          else invalid_request)
      else processed o b
