-- ===== src/Botfleet/Order.antt =====
-- The order types of backend/services/botfleet/order_gen.go and the acknowledgment of protocol.go,
-- and the choices that `Generate` makes from its random draws.
use distributed_benchmark_pl.Base.{ℕ, String, ltb, if◌then◌else◌}
use distributed_benchmark_pl.Base.Float.{Float64, float, ◌+F◌, ◌-F◌, ◌*F◌, ◌/F◌, ◌<F◌}

pub data OrderType : Type 0 where
  limit market cancel : OrderType

pub data Side : Type 0 where
  buy sell : Side

pub record Order (F : Type 0) : Type 0 where
  pub id : String
  pub type : OrderType
  pub side : Side
  pub symbol : String
  pub price : F
  pub quantity : ℕ
  pub timestamp : ℕ

pub record Ack (F : Type 0) : Type 0 where
  pub order_id : String
  pub status : String
  pub fill_price : F
  pub fill_qty : ℕ

abbrev pub order_type_text : OrderType → String
order_type_text limit = "limit"
order_type_text market = "market"
order_type_text cancel = "cancel"

-- qty = int(math.Exp(...)) clamped to 1..10000; the exponential is positive.
unfoldable pub clamp_quantity : ℕ → ℕ
clamp_quantity qty = let q = if ltb qty 1 then 1 else qty in if ltb 10000 q then 10000 else q

module _ {F : Type 0} ⦃fl : Float64 F⦄ where
  -- switch r < 0.6, r < 0.9
  unfoldable pub order_type : F → OrderType
  order_type r =
      if r <F float 6 /F float 10
      then limit
      else if r <F float 9 /F float 10
      then market
      else cancel

  unfoldable pub side_of : F → Side
  side_of r = if r <F float 5 /F float 10 then sell else buy

  -- Buyers bid lower and sellers ask higher than the price, by 0.2% at most.
  unfoldable pub spread : Side → F → F → F
  spread buy price draw = price *F (float 1 -F draw *F (float 2 /F float 1000))
  spread sell price draw = price *F (float 1 +F draw *F (float 2 /F float 1000))
