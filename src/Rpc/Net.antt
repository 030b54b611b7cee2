-- ===== src/Rpc/Net.antt =====
-- pkg/rpc/core/net.go, without the chunks of the genesis, and pkg/rpc/core/abci.go.
use go_execution_abci.Prelude.{ℕ, String, Bool, true, length, Option, none, some, List, [], ◌∷◌}
use go_execution_abci.Prelude.Int.{ℤ}
use go_execution_abci.Prelude.Exec.{Outcome, ok, panic, then_ok}
use go_execution_abci.Compat.Types.{Bytes}

-- A peer, as the client of the network and as CometBFT describes it.
pub record PeerInfo : Type 0 where
  pub node_id : String
  pub listen_addr : String
  pub network : String
  pub is_outbound : Bool
  pub remote_ip : String

pub record Peer : Type 0 where
  pub default_node_id : String
  pub listen_addr : String
  pub network : String
  pub is_outbound : Bool
  pub remote_ip : String

pub record P2pClient : Type 0 where
  pub addrs : List String
  pub peers : List PeerInfo

-- The peers are a slice, which may be nil.
pub record ResultNetInfo : Type 0 where
  pub listening : Bool
  pub listeners : List String
  pub n_peers : ℕ
  pub peers : Option (List Peer)

unfoldable pub converted_peers : List PeerInfo → List Peer
converted_peers [] = []
converted_peers (p ∷ rest) =
    record {
      default_node_id = p.node_id;
      listen_addr = p.listen_addr;
      network = p.network;
      is_outbound = p.is_outbound;
      remote_ip = p.remote_ip;
    }
    ∷ converted_peers rest

-- A nil slice to which peers are appended.
abbrev appended : List Peer → Option (List Peer)
appended [] = none
appended (p ∷ rest) = some (p ∷ rest)

unfoldable pub net_info : Option P2pClient → ResultNetInfo
unfolding converted_peers
net_info none = record { listening = true; listeners = []; n_peers = 0; peers = some [] }
net_info (some client) = record {
  listening = true;
  listeners = client.addrs;
  n_peers = length client.peers;
  peers = appended (converted_peers client.peers);
}

pub record RequestQuery : Type 0 where
  pub data' : Bytes
  pub path : String
  pub height : ℤ
  pub prove : Bool

-- The application's answers, of types R and I; none is a nil pointer, whose read panics.
pub record App (E R I : Type 0) : Type 0 where
  pub query : RequestQuery → Outcome E (Option R)
  pub info : Outcome E (Option I)

abbrev deref : {E A : Type 0} → Option A → Outcome E A
deref none = panic
deref (some a) = ok a

module _ {E R I : Type 0} (app : App E R I) where
  unfoldable pub abci_query : String → Bytes → ℤ → Bool → Outcome E R
  abci_query path data' height prove =
      then_ok (app.query record { data' = data'; path = path; height = height; prove = prove })
        λ response. deref response

  unfoldable pub abci_info : Outcome E I
  abci_info = then_ok app.info λ response. deref response
