-- ===== src/Network.antt =====
-- go/internal/network/network_manager.go and its records in go/internal/types/types.go. Networks and
-- statistics are reached through pointers, which a goroutine may hold after the maps have changed: the
-- objects stand in lists, and a pointer is a place in one. Connections are numbered, and so are
-- handlers. The messages that goroutines have been started to send, and the connections that have been
-- accepted, are part of the state. A dial, a line that is read and
-- the answer of the listener are arguments. Counters of type int64 are their 64 bits.
pub mod Peers
pub mod Sharing
pub mod Messages
pub mod Steps
pub mod Sends
pub mod Ends
use Prim.Native.Char.{code}
use Prim.Native.String.{◌++◌ as append}
use knirvbase.Base.{
  ℕ, zero, suc, ◌+◌, ◌%◌, ◌^◌, String, Bool, true, false, not, ◌&&◌, Option, none, some, List, [],
  ◌∷◌, ◌++◌, map, if◌then◌else◌, ◌==◌, eqb, length,
}
use knirvbase.Base.Int.{ℤ}
use knirvbase.GoMap.{lookup, insert, remove}
use knirvbase.GoStrings.{split, trim_space}
use knirvbase.Result.{Result, ok, err, ◌>>=◌}
use knirvbase.Floats.{Floats}
use knirvbase.Value.{Value, str, obj, field, no_fields}

-- the fields of NetworkConfig that no code reads are settings
pub record NetworkSettings : Type 0 where
  pub bootstrap_peers : List String
  pub default_posting_network : String
  pub auto_post_classifications : List String
  pub private_by_default : Bool
  pub encryption_enabled : Bool
  pub shared_secret : String
  pub replication_factor : ℤ
  pub replication_strategy : String
  pub mdns : Bool
  pub bootstrap : Bool

pub record NetworkConfig : Type 0 where
  pub network_id : String
  pub name : String
  pub collections : List (String × Bool)
  pub settings : NetworkSettings

pub record PeerInfo : Type 0 where
  pub peer_id : String
  pub addrs : List String
  pub last_seen : ℤ

pub record NetworkStats : Type 0 where
  pub network_id : String
  pub connected_peers : ℕ
  pub total_peers : ℕ
  pub collections_shared : ℕ
  pub operations_sent : ℕ
  pub operations_received : ℕ
  pub bytes_transferred : ℕ

pub record ProtocolMessage (V : Type 0) : Type 0 where
  pub message_type : String
  pub network_id : String
  pub sender_id : String
  pub timestamp : ℤ
  pub payload : V

-- what a goroutine of BroadcastMessage sends to a connection, with the statistics to count it
pub record Send (Byte : Type 0) : Type 0 where
  pub connection : ℕ
  pub bytes : List Byte
  pub counted : Option ℕ

pub record NetworkManager (Byte : Type 0) : Type 0 where
  pub own_id : String
  pub networks : List (String × ℕ)
  pub configs : List NetworkConfig
  pub peers : List (String × PeerInfo)
  pub connections : List (String × ℕ)
  pub stats : List (String × ℕ)
  pub counters : List NetworkStats
  pub handlers : List (String × List ℕ)
  pub initialized : Bool
  pub listening : Bool
  pub cancelled : Bool
  pub accepted : List (ℕ × String)
  pub sends : List (Send Byte)

-- the object that a pointer points to, and a write through a pointer
abbrev pub at_pointer : {A : Type 0} → ℕ → List A → Option A
at_pointer i [] = none
at_pointer zero (x ∷ xs) = some x
at_pointer (suc i) (x ∷ xs) = at_pointer i xs

abbrev pub write_pointer : {A : Type 0} → ℕ → (A → A) → List A → List A
write_pointer i f [] = []
write_pointer zero f (x ∷ xs) = f x ∷ xs
write_pointer (suc i) f (x ∷ xs) = x ∷ write_pointer i f xs

unfoldable pub empty_stats : String → NetworkStats
empty_stats network_id = record {
  network_id = network_id;
  connected_peers = 0;
  total_peers = 0;
  collections_shared = 0;
  operations_sent = 0;
  operations_received = 0;
  bytes_transferred = 0;
}

unfoldable pub no_settings : NetworkSettings
no_settings = record {
  bootstrap_peers = [];
  default_posting_network = "";
  auto_post_classifications = [];
  private_by_default = false;
  encryption_enabled = false;
  shared_secret = "";
  replication_factor = ℤ.pos 0;
  replication_strategy = "";
  mdns = false;
  bootstrap = false;
}

-- the configuration of a network that is joined without being known
unfoldable pub joined_config : String → NetworkConfig
unfolding no_settings
joined_config network_id = record {
  network_id = network_id;
  name = append "Network " network_id;
  collections = [];
  settings = no_settings;
}

module _ {Byte : Type 0} where
  -- NewNetworkManager, given the peer's identifier
  unfoldable pub new_network_manager : String → NetworkManager Byte
  new_network_manager own_id = record {
    own_id = own_id;
    networks = [];
    configs = [];
    peers = [];
    connections = [];
    stats = [];
    counters = [];
    handlers = [];
    initialized = false;
    listening = false;
    cancelled = false;
    accepted = [];
    sends = [];
  }

  -- Initialize; the error of net.Listen, if there is one
  unfoldable pub initialize :
      Option String → NetworkManager Byte → NetworkManager Byte × Option String
  initialize failed n = if n.initialized then (n, none) else elim failed [
    | some e ↦ (n, some (append "failed to start listener: " e))
    | none ↦ (record n { initialized = true; listening = true }, none)
  ]

  -- a new network with its statistics
  unfoldable pub add_network : NetworkConfig → NetworkManager Byte → NetworkManager Byte
  unfolding empty_stats
  add_network cfg n = record n {
    networks = insert cfg.network_id (length n.configs) n.networks;
    configs = n.configs ++ (cfg ∷ []);
    stats = insert cfg.network_id (length n.counters) n.stats;
    counters = n.counters ++ (empty_stats cfg.network_id ∷ []);
  }

  unfoldable pub add_if_new : NetworkConfig → NetworkManager Byte → NetworkManager Byte
  unfolding add_network
  add_if_new cfg n = elim (lookup cfg.network_id n.networks) [
    | some _ ↦ n
    | none ↦ add_network (record cfg { collections = [] }) n
  ]

  unfoldable pub create_network :
      Option String → NetworkManager Byte → NetworkConfig → NetworkManager Byte × Result String
  unfolding initialize add_if_new
  create_network failed n cfg =
      let (n', e) = initialize failed n in
      elim e [ some text ↦ (n', err text) | none ↦ (add_if_new cfg n', ok cfg.network_id) ]

  -- JoinNetwork; the addresses that it starts to dial are those of the peers, if there is no error
  unfoldable pub join_network :
      Option String
      → NetworkManager Byte
      → String
      → List String
      → NetworkManager Byte × Result (List String)
  unfolding initialize add_if_new joined_config
  join_network failed n network_id bootstrap_peers =
      let (n', e) = initialize failed n in
      elim e [
        | some text ↦ (n', err text)
        | none ↦ (add_if_new (joined_config network_id) n', ok bootstrap_peers)
      ]

  unfoldable pub leave_network : NetworkManager Byte → String → NetworkManager Byte
  leave_network n network_id = elim (lookup network_id n.networks) [
    | none ↦ n
    | some _ ↦ record n {
      networks = remove network_id n.networks;
      stats = remove network_id n.stats;
    }
  ]
