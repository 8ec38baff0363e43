-- ===== src/Network/Peers.antt =====
-- go/internal/network/network_manager.go: connections that are accepted or dialled, and their handshakes.
use knirvbase.Base.{
  ℕ, String, not, ◌&&◌, Option, none, some, List, [], ◌∷◌, if◌then◌else◌, ◌==◌, eqb,
}
use knirvbase.Base.Int.{ℤ}
use knirvbase.GoMap.{insert}
use knirvbase.GoStrings.{split, trim_space}
use knirvbase.Network.{NetworkManager}

-- conn.RemoteAddr() of an accepted connection
unfoldable pub remote_address : ℕ → List (ℕ × String) → Option String
remote_address connection [] = none
remote_address connection ((i, address) ∷ accepted) =
    if eqb i connection then some address else remote_address connection accepted

-- the peer that a handshake names
unfoldable pub parse_handshake : String → Option String
unfolding split trim_space
parse_handshake line = elim (split b':' (trim_space line)) [
  | protocol ∷ peer ∷ [] ↦ if protocol == "KNIRV" then some peer else none
  | _ ↦ none
]

module _ {Byte : Type 0} where
  -- a peer whose handshake has been read, from either side
  unfoldable pub register_peer : ℤ → String → String → ℕ → NetworkManager Byte → NetworkManager Byte
  register_peer now peer address connection n = record n {
    connections = insert peer connection n.connections;
    peers = insert peer (record { peer_id = peer; addrs = address ∷ []; last_seen = now }) n.peers;
  }

  -- the first line of a connection: one that is no handshake ends it
  unfoldable pub read_handshake :
      ℤ → String → ℕ → String → NetworkManager Byte → NetworkManager Byte
  unfolding register_peer parse_handshake
  read_handshake now address connection line n = elim (parse_handshake line) [
    | none ↦ n
    | some peer ↦ register_peer now peer address connection n
  ]

  -- acceptConnections: the goroutine ends when the manager is cancelled
  unfoldable pub accept_connection : String → ℕ → NetworkManager Byte → NetworkManager Byte
  accept_connection address connection n =
      if n.listening && not n.cancelled
      then record n { accepted = (connection, address) ∷ n.accepted }
      else n

  -- handleConnection up to the messages, given the line that an accepted connection sends first
  unfoldable pub handle_connection :
      ℤ → ℕ → Option String → NetworkManager Byte → NetworkManager Byte
  unfolding read_handshake
  handle_connection now connection line n = elim (remote_address connection n.accepted) [
    | none ↦ n
    | some address ↦ elim line [
      | none ↦ n
      | some handshake ↦ read_handshake now address connection handshake n
    ]
  ]

  -- connectToPeer up to the messages, given the connection of net.Dial and the line that is answered
  unfoldable pub connect_to_peer :
      ℤ → String → Option ℕ → Option String → NetworkManager Byte → NetworkManager Byte
  unfolding read_handshake
  connect_to_peer now address dialled line n = elim dialled [
    | none ↦ n
    | some connection ↦ elim line [
      | none ↦ n
      | some response ↦ read_handshake now address connection response n
    ]
  ]
