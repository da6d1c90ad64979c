-- ===== src/Botfleet/Orders.antt =====
-- The orders that OrderGenerator produces (backend/services/botfleet/order_gen.go).
use distributed_benchmark_pl.Base.{
  ℕ, zero, suc, ◌<◌, ◌≤◌, String, true, false, List, [], ◌∷◌, ◌⊎◌, str_eq, eq_iff, length, ◌≡◌,
  refl, ap, sym, ◌∙◌, arith, All, Bool-cases, inl, inr,
}
use distributed_benchmark_pl.Base.Float.{Float64}
use distributed_benchmark_pl.Botfleet.Order.{Order, clamp_quantity}
use distributed_benchmark_pl.Botfleet.Generator.{
  MathFunctions, SymbolPrice, OrderGenerator, Draws, symbol_at, symbol_names, put_price, keys,
  new_order_generator, update_price, generate, orders,
}

abbrev pub Listed : String → List String → Type 0
Listed s [] = ⊥
Listed s (x ∷ l) = (s ≡ x) ⊎ Listed s l

symbol_at-Listed : (l : List String) (i : ℕ) → i < length l → Listed (symbol_at l i) l
unfolding symbol_at
symbol_at-Listed [] i h = absurd (omega (arith, h))
symbol_at-Listed (s ∷ l) zero h = inl refl
symbol_at-Listed (s ∷ l) (suc i) h = inr (symbol_at-Listed l i (omega (arith, h)))

clamp_quantity-range : (q : ℕ) → (1 ≤ clamp_quantity q) × (clamp_quantity q ≤ 10000)
unfolding clamp_quantity
clamp_quantity-range q = ground arith

module _ {F : Type 0} where
  put_price-keys :
      (s : String) (x : F) (l : List (SymbolPrice F))
      → Listed s (keys l)
      → keys (put_price s x l) ≡ keys l
  unfolding put_price
  put_price-keys s x [] there = absurd there
  put_price-keys s x (p ∷ l) there = elim (Bool-cases (str_eq p.symbol s)) [
    | inl here ↦ rw here refl
    | inr other ↦ elim there [
      | inl same ↦ let wrong : false ≡ true = sym other ∙ (eq_iff p.symbol s).1 (sym same) in cc
      | inr later ↦ rw other (ap (◌∷◌ p.symbol) (put_price-keys s x l later))
    ]
  ]

  -- An order for a known symbol of 1 to 10000 units.
  abbrev pub WellFormed : Order F → Type 0
  WellFormed o = Listed o.symbol symbol_names × (1 ≤ o.quantity) × (o.quantity ≤ 10000)

  -- The generator has a price for each symbol, in their order.
  abbrev pub Priced : OrderGenerator F → Type 0
  Priced g = (g.symbols ≡ symbol_names) × (keys g.prices ≡ symbol_names)

  abbrev pub InRange : Draws F → Type 0
  InRange d = d.symbol < 4

  module _ ⦃fl : Float64 F⦄ (math : MathFunctions F) where
    generate-WellFormed :
        (d : Draws F) (g : OrderGenerator F)
        → InRange d
        → Priced g
        → WellFormed (generate math d g).0 × Priced (generate math d g).1
    unfolding generate update_price
    generate-WellFormed d g h (symbols, prices) =
        let listed : Listed (symbol_at g.symbols d.symbol) symbol_names =
          rw symbols (symbol_at-Listed symbol_names d.symbol h) in
        let there : Listed (symbol_at g.symbols d.symbol) (keys g.prices) = rw prices listed in
        let range = clamp_quantity-range _ in
        ((listed, range.0, range.1), (symbols, put_price-keys _ _ g.prices there ∙ prices))

    orders-Priced :
        (ds : List (Draws F)) (g : OrderGenerator F)
        → All InRange ds
        → Priced g
        → All WellFormed (orders math ds g).0 × Priced (orders math ds g).1
    orders-Priced [] g h p = (tt, p)
    orders-Priced (d ∷ ds) g h p =
        let first = generate-WellFormed d g h.0 p in
        let rest = orders-Priced ds (generate math d g).1 h.1 first.1 in ((first.0, rest.0), rest.1)

    -- Whatever the random draws are, as long as Intn(4) draws less than 4, each order of a new
    -- generator names one of the four symbols and a quantity of 1 to 10000, and the generator still
    -- has a price for exactly these symbols.
    pub orders-WellFormed :
        (ds : List (Draws F))
        → All InRange ds
        → let r = orders math ds (new_order_generator math) in
          All WellFormed r.0 × (keys r.1.prices ≡ symbol_names)
    unfolding new_order_generator
    orders-WellFormed ds h =
        let r = orders-Priced ds (new_order_generator math) h (refl, refl) in (r.0, r.1.1)
