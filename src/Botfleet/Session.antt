-- ===== src/Botfleet/Session.antt =====
-- A bot from its Connect to its Close: the adapters of backend/services/botfleet/protocol.go,
-- Worker.Run of worker.go over the events that its select chose, and the goroutine of spawnWorker
-- in fleet.go. What the network does is a parameter.
pub mod Balance
use Prim.Native.String.{◌++◌ as concat}
use distributed_benchmark_pl.Base.{
  ℕ, String, Bool, true, false, Option, none, some, List, [], ◌∷◌, if◌then◌else◌,
}
use distributed_benchmark_pl.Base.Float.{Float64}
use distributed_benchmark_pl.Botfleet.Order.{Order, Ack}
use distributed_benchmark_pl.Botfleet.Protocol.{
  ProtocolAdapter, rest, web_socket, HttpReply, WsReply, rest_send_order, ws_send_order,
}
use distributed_benchmark_pl.Botfleet.Fleet.{Fleet, send_begin, send_end, worker_exits}

-- An adapter with its fields: where it sends, and whether it has a client or a connection. `closed`
-- says that Close has closed that.
pub record Adapter : Type 0 where
  pub protocol : ProtocolAdapter
  pub endpoint : String
  pub connected : Bool
  pub closed : Bool

unfoldable pub fresh_adapter : ProtocolAdapter → Adapter
fresh_adapter p = record { protocol = p; endpoint = ""; connected = false; closed = false }

-- RESTAdapter.Connect only makes its client.
unfoldable pub connect_rest : String → Adapter → Adapter × Bool
connect_rest target a = (record a { endpoint = concat "http://" target; connected = true }, true)

unfoldable pub connect_web_socket : Bool → String → Adapter → Adapter × Bool
connect_web_socket dial_fails target a =
    let dialling : Adapter = record a { endpoint = concat "ws://" (concat target "/ws") } in
    if dial_fails then (dialling, false) else (record dialling { connected = true }, true)

-- Connect, and whether it returns nil.
unfoldable pub connect : Bool → String → Adapter → Adapter × Bool
connect dial_fails target a = elim a.protocol [
  | rest ↦ connect_rest target a
  | web_socket ↦ connect_web_socket dial_fails target a
]

-- Close of either adapter does nothing before a Connect that worked.
unfoldable pub close_rest : Adapter → Adapter
close_rest a = if a.connected then record a { closed = true } else a

unfoldable pub close_web_socket : Adapter → Adapter
close_web_socket a = if a.connected then record a { closed = true } else a

unfoldable pub close_adapter : Adapter → Adapter
close_adapter a = elim a.protocol [ rest ↦ close_rest a | web_socket ↦ close_web_socket a ]

-- What the network does with an order, by protocol.
pub record Answer (F : Type 0) : Type 0 where
  pub http : HttpReply F
  pub ws : WsReply F

-- What the select of the loop chose: the done context, or a tick, with the order that the generator
-- makes and its fate.
pub data WorkerEvent (F : Type 0) : Type 0 where
  done : WorkerEvent F
  tick : Order F → Answer F → ℕ → ℕ → WorkerEvent F

pub record Worker : Type 0 where
  pub id : ℕ
  pub target : String
  pub adapter : Adapter

-- The worker's end: its adapter, whether `Run` has returned, and the fleet.
pub record Left (F : Type 0) : Type 0 where
  pub adapter : Adapter
  pub returned : Bool
  pub fleet : Fleet F

module _ {F : Type 0} ⦃fl : Float64 F⦄ where
  unfoldable pub adapter_send : Adapter → Answer F → Option (Ack F)
  adapter_send a r = elim a.protocol [
    | rest ↦ rest_send_order r.http
    | web_socket ↦ ws_send_order a.connected r.ws
  ]

  -- sendOrder with nothing of the other workers between its halves.
  unfoldable pub send_order : ℕ → Adapter → Order F → Answer F → ℕ → ℕ → Fleet F → Fleet F
  send_order id a o r latency sent_at f =
      send_end id o (adapter_send a r) latency sent_at (send_begin id o f)

  -- The loop of Run: whether it has returned, and the fleet. A panic in sendOrder ends the process.
  unfoldable pub worker_loop : ℕ → Adapter → List (WorkerEvent F) → Fleet F → Bool × Fleet F
  worker_loop id a [] f = (false, f)
  worker_loop id a (done ∷ es) f = (true, f)
  worker_loop id a (tick o r latency sent_at ∷ es) f =
      let sent = send_order id a o r latency sent_at f in
      let next = worker_loop id a es sent in if sent.panicked then (false, sent) else next

  unfoldable pub after_connect : Worker → List (WorkerEvent F) → Adapter × Bool → Fleet F → Left F
  after_connect w es (a, false) f = record { adapter = a; returned = true; fleet = f }
  after_connect w es (a, true) f =
      let end = worker_loop w.id a es f in
      record { adapter = if end.0 then close_adapter a else a; returned = end.0; fleet = end.1 }

  unfoldable pub run_worker : Worker → Bool → List (WorkerEvent F) → Fleet F → Left F
  run_worker w dial_fails es f = after_connect w es (connect dial_fails w.target w.adapter) f

  -- The deferred call of the goroutine that spawnWorker starts.
  unfoldable pub leave : Left F → Left F
  leave left = if left.returned then record left { fleet = worker_exits left.fleet } else left

  unfoldable pub worker_goroutine : Worker → Bool → List (WorkerEvent F) → Fleet F → Left F
  worker_goroutine w dial_fails es f = leave (run_worker w dial_fails es f)
