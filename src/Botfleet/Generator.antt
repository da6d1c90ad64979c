-- ===== src/Botfleet/Generator.antt =====
-- OrderGenerator of backend/services/botfleet/order_gen.go: NewOrderGenerator, Generate and
-- updatePrice. What the random source gives for an order is a record of draws; the functions of
-- Go's package math are an interface.
use distributed_benchmark_pl.Base.{ℕ, zero, suc, String, List, [], ◌∷◌, map, str_eq, if◌then◌else◌}
use distributed_benchmark_pl.Base.Float.{Float64, float, ◌+F◌, ◌-F◌, ◌*F◌, ◌/F◌}
use distributed_benchmark_pl.Botfleet.Order.{Order, order_type, side_of, spread, clamp_quantity}

-- `to_int` is the conversion int of a positive float.
pub record MathFunctions (F : Type 0) : Type 0 where
  pub log : F → F
  pub exp : F → F
  pub sqrt : F → F
  pub round : F → F
  pub neg : F → F
  pub to_int : F → ℕ

pub record SymbolPrice (F : Type 0) : Type 0 where
  pub symbol : String
  pub price : F

-- The maps of prices as lists of their entries.
pub record OrderGenerator (F : Type 0) : Type 0 where
  pub symbols : List String
  pub prices : List (SymbolPrice F)
  pub base_prices : List (SymbolPrice F)
  pub theta : F
  pub sigma : F

pub record Draws (F : Type 0) : Type 0 where
  pub symbol : ℕ
  pub walk : F
  pub kind : F
  pub side : F
  pub spread : F
  pub quantity : F
  pub id : String
  pub now : ℕ

-- g.symbols[i]; Go panics out of range, which Intn never draws.
unfoldable pub symbol_at : List String → ℕ → String
symbol_at [] i = ""
symbol_at (s ∷ l) zero = s
symbol_at (s ∷ l) (suc i) = symbol_at l i

abbrev pub symbol_names : List String
symbol_names = "AAPL" ∷ "MSFT" ∷ "GOOG" ∷ "AMZN" ∷ []

module _ {F : Type 0} where
  -- The value of a key, and `absent` for one that is not there.
  unfoldable pub price_of : F → String → List (SymbolPrice F) → F
  price_of absent s [] = absent
  price_of absent s (p ∷ ps) =
      let rest = price_of absent s ps in if str_eq p.symbol s then p.price else rest

  unfoldable pub put_price : String → F → List (SymbolPrice F) → List (SymbolPrice F)
  put_price s x [] = record { symbol = s; price = x } ∷ []
  put_price s x (p ∷ ps) =
      let rest = put_price s x ps in
      if str_eq p.symbol s then record p { price = x } ∷ ps else p ∷ rest

  abbrev pub keys : List (SymbolPrice F) → List String
  keys = map (λ (p : SymbolPrice F). p.symbol)

module _ {F : Type 0} ⦃fl : Float64 F⦄ (math : MathFunctions F) where
  abbrev start_prices : List (SymbolPrice F)
  start_prices =
      record { symbol = "AAPL"; price = float 175 }
      ∷ record { symbol = "MSFT"; price = float 420 }
      ∷ record { symbol = "GOOG"; price = float 165 }
      ∷ record { symbol = "AMZN"; price = float 185 }
      ∷ []

  unfoldable pub new_order_generator : OrderGenerator F
  new_order_generator = record {
    symbols = symbol_names;
    prices = start_prices;
    base_prices = start_prices;
    theta = float 15 /F float 100;
    sigma = float 5 /F float 10;
  }

  unfoldable pub update_price : F → String → OrderGenerator F → OrderGenerator F
  update_price draw symbol g =
      let current = price_of (float 0) symbol g.prices in
      let base = price_of (float 0) symbol g.base_prices in
      let dt = float 1 /F float 1000 in
      let drift = math.neg g.theta *F (math.log current -F math.log base) *F dt in
      let diffusion = g.sigma *F math.sqrt dt *F draw in
      record g { prices = put_price symbol (current *F math.exp (drift +F diffusion)) g.prices }

  unfoldable pub generate : Draws F → OrderGenerator F → Order F × OrderGenerator F
  generate d g =
      let symbol = symbol_at g.symbols d.symbol in
      let next = update_price d.walk symbol g in
      let side = side_of d.side in
      let price = spread side (price_of (float 0) symbol next.prices) d.spread in
      (
        record {
          id = d.id;
          type = order_type d.kind;
          side = side;
          symbol = symbol;
          price = math.round (price *F float 100) /F float 100;
          quantity = clamp_quantity (
              math.to_int (math.exp (d.quantity *F (float 5 /F float 10) +F math.log (float 100))));
          timestamp = d.now;
        },
        next,
      )

  -- The orders of a worker, one after the other.
  abbrev pub orders : List (Draws F) → OrderGenerator F → List (Order F) × OrderGenerator F
  orders [] g = ([], g)
  orders (d ∷ ds) g =
      let first = generate d g in let rest = orders ds first.1 in (first.0 ∷ rest.0, rest.1)
