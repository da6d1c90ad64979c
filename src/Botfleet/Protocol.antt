-- ===== src/Botfleet/Protocol.antt =====
-- `NewAdapter` and the checks of `SendOrder` of backend/services/botfleet/protocol.go. The network is
-- a parameter: what each call of it returned.
use distributed_benchmark_pl.Base.{ℕ, String, Bool, ◌||◌, Option, none, some, leb, if◌then◌else◌}
use distributed_benchmark_pl.Base.Text.{codes, text_eq, to_lower}
use distributed_benchmark_pl.Botfleet.Order.{Ack}

pub data ProtocolAdapter : Type 0 where
  rest web_socket : ProtocolAdapter

-- `none` is the error "unsupported protocol".
unfoldable pub new_adapter : String → Option ProtocolAdapter
new_adapter protocol =
    let p = to_lower (codes protocol) in
    if text_eq p (codes "rest") || text_eq p (codes "http")
    then some rest
    else if text_eq p (codes "websocket") || text_eq p (codes "ws")
    then some web_socket
    else if text_eq p (codes "fix")
    then some rest
    else none

-- What the HTTP client returned for the POST, and the decoded body.
pub record HttpReply (F : Type 0) : Type 0 where
  pub request_ok : Bool
  pub status_code : ℕ
  pub decoded : Option (Ack F)

-- What the connection did.
pub record WsReply (F : Type 0) : Type 0 where
  pub write_ok : Bool
  pub read_ok : Bool
  pub decoded : Option (Ack F)

module _ {F : Type 0} where
  -- RESTAdapter.SendOrder: `none` is an error.
  unfoldable pub rest_send_order : HttpReply F → Option (Ack F)
  rest_send_order r =
      if r.request_ok then (if leb 400 r.status_code then none else r.decoded) else none

  -- WebSocketAdapter.SendOrder; the flag says whether the adapter is connected.
  unfoldable pub ws_send_order : Bool → WsReply F → Option (Ack F)
  ws_send_order connected r =
      if connected
      then (if r.write_ok then (if r.read_ok then r.decoded else none) else none)
      else none
