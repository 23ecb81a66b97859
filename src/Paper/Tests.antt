-- ===== src/Paper/Tests.antt =====
-- Sample orders, with prices that are whole numbers of their unit.
use market_intelligence_lab.Prelude.{
  ℕ, ◌+◌, ◌-◌, ◌*◌, ◌/◌, ◌≡◌, refl, ◌⊎◌, true, false, none, some, [], arith, leb,
}
use market_intelligence_lab.Paper.Decimals.{Decimals, IsOrdered}
use market_intelligence_lab.Paper.Prices.{buy, limit, market, Bar, Assumptions}
use market_intelligence_lab.Paper.Prices.Laws.{keeps_limit}
use market_intelligence_lab.Paper.Orders.{
  pending, Order, Book, processed, invalid_request, is_open_status, is_valid_request, process_order,
}
use market_intelligence_lab.Paper.Orders.Laws.{IsFilled, process_order_lem}

abbrev whole : Decimals ℕ
whole = record {
  zero_d = 0;
  one_d = 1;
  two_d = 2;
  ten_thousand = 10000;
  add = λ a b. a + b;
  sub = λ a b. a - b;
  mul = λ a b. a * b;
  div = λ a b. a / b;
  at_most = leb;
  to_price = λ a. a;
  to_money = λ a. a;
}

whole-IsOrdered : IsOrdered whole
whole-IsOrdered = record {
  total = λ a b. ground arith;
  trans = λ a b c h k. ground arith;
  rounds = λ a b h. h;
}

abbrev bar : Bar ℕ
bar = record { id = 1; open_price = 102; high = 110; low = 95; event_time = 5 }

abbrev assumptions : Assumptions ℕ
assumptions = record { commission = 1; spread_bps = 2; slippage_bps = 1 }

abbrev order : Order ℕ
order = record {
  id = 4;
  asset_id = 9;
  side = buy;
  order_type = limit;
  quantity = 3;
  limit_price = some 100;
  stop_price = none;
  status = pending;
  is_triggered = false;
  source_price_bar_id = none;
  cancelled_at = none;
}

abbrev book : Book ℕ
book = record {
  portfolio = record { cash_balance = 1000; realized_pnl = 0 };
  position = none;
  fills = [];
}

process_order_lem_example :
    let result = process_order whole true assumptions order bar book in
    (is_open_status pending ≡ false → result ≡ processed order book)
    × (is_open_status pending ≡ true
        → is_valid_request whole true order ≡ false
        → result ≡ invalid_request)
    × (is_open_status pending ≡ true
        → is_valid_request whole true order ≡ true
        → ((o' : Order ℕ) × (result ≡ processed o' book) × (is_open_status o'.status ≡ true))
          ⊎ ((price : ℕ) × IsFilled whole assumptions order book price result
              × ((l : ℕ) → some 100 ≡ some l → l ≡ l → keeps_limit whole buy price l ≡ true)))
process_order_lem_example = process_order_lem whole true assumptions order bar book whole-IsOrdered

-- A market order that has a limit is refused.
market_with_limit :
    process_order whole true assumptions (record order { order_type = market }) bar book
    ≡ invalid_request
unfolding process_order
market_with_limit = refl
