-- ===== src/Reconcile/Rows.antt =====
-- What backend/reconciliation/engine.py compares: rows of the database, by the queries of
-- backend/storage/repositories/trades.py, and what the exchange answers.
use Prim.Native.Nat.{Ordering}
use Prim.Native.String.{compare}
use k.Base.{
  leb, ℕ, zero, suc, ℤ, Bool, ◌&&◌, Option, none, some, List, [], ◌∷◌, String, str_eq, Result,
  if◌then◌else◌,
}
use k.Decision.{DecisionType}
use k.Exchange.Orders.{PositionState, OrderResult}
use k.Position.Stops.{OrderSide, buy, sell}

pub record DbPosition : Type 0 where
  pub bot_run_id : String
  pub symbol : String
  pub direction : String
  pub quantity : ℤ
  pub entry_price : ℤ
  pub status : String

pub record DbOrder : Type 0 where
  pub bot_run_id : String
  pub client_order_id : String
  pub symbol : String
  pub status : String
  pub created_at : ℕ

unfoldable pub side_value : OrderSide → String
side_value buy = "BUY"
side_value sell = "SELL"

-- The calls that the engine makes of an adapter, in one reconciliation.
pub record Answers (E : Type 0) : Type 0 where
  pub get_account_state : Result E (Unit {0})
  pub get_position : String → Result E (Option PositionState)
  pub get_open_orders : String → Result E (List OrderResult)

abbrev pub filter {ℓ} : {A : Type ℓ} → (A → Bool) → List A → List A
filter p [] = []
filter p (x ∷ xs) = let rest = filter p xs in if p x then x ∷ rest else rest

abbrev pub take {ℓ} : {A : Type ℓ} → ℕ → List A → List A
take zero xs = []
take (suc n) [] = []
take (suc n) (x ∷ xs) = x ∷ take n xs

-- `PositionRepository.list_open`
unfoldable pub list_open : String → List DbPosition → List DbPosition
list_open bot_run_id = filter λ p. str_eq p.bot_run_id bot_run_id && str_eq p.status "OPEN"

-- `order_by(Order.created_at.desc())`. Rows of one time, whose order the database does not promise,
-- are in the order of the table.
abbrev pub insert_newest : DbOrder → List DbOrder → List DbOrder
insert_newest o [] = o ∷ []
insert_newest o (x ∷ xs) =
    let later = insert_newest o xs in
    if leb x.created_at o.created_at then o ∷ x ∷ xs else x ∷ later

unfoldable pub newest_first : List DbOrder → List DbOrder
newest_first [] = []
newest_first (o ∷ rows) = insert_newest o (newest_first rows)

abbrev pub has_status : String → String → DbOrder → Bool
has_status bot_run_id status o = str_eq o.bot_run_id bot_run_id && str_eq o.status status

-- `OrderRepository.list_by_status`
unfoldable pub list_by_status : String → String → ℕ → List DbOrder → List DbOrder
unfolding newest_first
list_by_status bot_run_id status limit rows =
    take limit (newest_first (filter (has_status bot_run_id status) rows))

-- `{p.symbol: p for p in rows}.get(symbol)`: the last of the rows with a symbol.
unfoldable pub position_of : String → List DbPosition → Option DbPosition
position_of symbol [] = none
position_of symbol (p ∷ rows) =
    let later = position_of symbol rows in
    elim later [ some found ↦ some found | none ↦ if str_eq p.symbol symbol then some p else none ]

-- `{o.client_order_id: o for o in list_by_client_order_ids(…)}.get(id)`, for an id that was asked for.
unfoldable pub order_of : String → List DbOrder → Option DbOrder
order_of id [] = none
order_of id (o ∷ rows) =
    let later = order_of id rows in
    elim later [
      | some found ↦ some found
      | none ↦ if str_eq o.client_order_id id then some o else none
    ]

-- A symbol in a sorted list without repetitions.
unfoldable pub insert_sorted : String → List String → List String
insert_sorted s [] = s ∷ []
insert_sorted s (x ∷ xs) =
    let rest = insert_sorted s xs in
    elim (compare s x) [ Ordering.lt ↦ s ∷ x ∷ xs | Ordering.eq ↦ x ∷ xs | Ordering.gt ↦ x ∷ rest ]

-- `sorted(set(a) | set(b))`
unfoldable pub sorted_union : List String → List String → List String
unfolding insert_sorted
sorted_union [] [] = []
sorted_union [] (s ∷ b) = insert_sorted s (sorted_union [] b)
sorted_union (s ∷ a) b = insert_sorted s (sorted_union a b)

-- `decision.decision.value`
unfoldable pub decision_value : DecisionType → String
decision_value DecisionType.long = "LONG"
decision_value DecisionType.short = "SHORT"
decision_value DecisionType.no_operar = "NO_OPERAR"

-- The row that backend/execution/engine.py writes for a position that it has opened.
unfoldable pub persist_position : String → DecisionType → String → ℤ → ℤ → DbPosition
unfolding decision_value
persist_position bot_run_id decision symbol quantity_filled fill_price = record {
  bot_run_id = bot_run_id;
  symbol = symbol;
  direction = decision_value decision;
  quantity = quantity_filled;
  entry_price = fill_price;
  status = "OPEN";
}
