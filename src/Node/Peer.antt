-- ===== src/Node/Peer.antt =====
-- The calls of a neighbor: cpp/src/PeerClient.cpp. A stub of gRPC is an argument: the answer of a call
-- with a deadline in milliseconds, `none` where its status is not ok.
use Prim.Native.String.{◌++◌ as ◌+++◌}
use mini2_aaa.Base.{ℕ, ◌*◌, String, Bool, Option}
use mini2_aaa.Config.{NodeEntry}
use mini2_aaa.Node.{
  ForwardQueryRequest, ForwardQueryAck, PushChunkRequest, PushChunkAck, AbortRequest,
}
use mini2_aaa.Node.Portal.{PingResponse}

-- `host:port`.
unfoldable pub address : (show : ℕ → String) → NodeEntry → String
address show e = ◌+++◌ e.host (◌+++◌ ":" (show e.port))

-- `PeerClient`: its entry, and the address that its channel is made for.
pub record PeerClient : Type 0 where
  pub entry : NodeEntry
  pub target : String

unfoldable pub new_peer : (show : ℕ → String) → NodeEntry → PeerClient
unfolding address
new_peer show e = record { entry = e; target = address show e }

-- `kCallTimeoutMs`.
abbrev pub call_timeout_ms : ℕ
call_timeout_ms = 5000

abbrev pub Stub : Type 0 → Type 0 → Type 0
Stub Req Rsp = (deadline_ms : ℕ) → Req → Option Rsp

-- `AbortAck` and `PingRequest`.
pub record AbortAck : Type 0 where
  pub ok : Bool

pub record PingRequest : Type 0 where
  pub from_node : String

-- The four methods; `none` is that they return false.
unfoldable pub call_forward_query :
    {D : Type 0}
    → Stub (ForwardQueryRequest D) ForwardQueryAck
    → ForwardQueryRequest D
    → Option ForwardQueryAck
call_forward_query stub req = stub call_timeout_ms req

unfoldable pub call_push_chunk :
    {D : Type 0} → Stub (PushChunkRequest D) PushChunkAck → PushChunkRequest D → Option PushChunkAck
call_push_chunk stub req = stub (call_timeout_ms * 2) req

unfoldable pub call_abort : Stub AbortRequest AbortAck → AbortRequest → Option AbortAck
call_abort stub req = stub call_timeout_ms req

unfoldable pub call_ping : Stub PingRequest PingResponse → PingRequest → Option PingResponse
call_ping stub req = stub 1000 req
