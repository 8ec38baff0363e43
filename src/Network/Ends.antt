-- ===== src/Network/Ends.antt =====
-- go/internal/network/network_manager.go: how long connections are kept, and what is left after a
-- Shutdown.
use knirvbase.Base.{
  arith, ℕ, ◌≡◌, refl, ◌⊎◌, inl, inr, String, true, Option, none, some, List, [], Option-cases,
  is_some,
}
use knirvbase.Base.Int.{ℤ}
use knirvbase.GoMap.{lookup}
use knirvbase.GoMap.Laws.{lookup-insert}
use knirvbase.Result.{Result}
use knirvbase.Network.{
  ProtocolMessage, NetworkManager, initialize, add_network, add_if_new, create_network,
  join_network, leave_network,
}
use knirvbase.Network.Peers.{
  accept_connection, handle_connection, connect_to_peer, register_peer, parse_handshake,
  read_handshake, remote_address,
}
use knirvbase.Network.Sharing.{share_collection, count_collections, remove_collection_from_network}
use knirvbase.Network.Messages.{
  count_send, finish_send, broadcast_message, send_to_peer, on_message, get_network_stats, shutdown,
}
use knirvbase.Network.Steps.{
  Step, initialize_step, create_step, join_step, enter_step, leave_step, accept_step,
  handshake_step, connect_step, share_step, unshare_step, broadcast_step, sent_step, send_step,
  handler_step, stats_step, shutdown_step,
}

module _ {Byte V : Type 0} (marshal : ProtocolMessage V → Result (List Byte)) where
  -- what a manager can become from here on
  pub data Later (n : NetworkManager Byte) : NetworkManager Byte → Type 0 where
    at_once : Later n n
    later : {m m' : NetworkManager Byte} → Later n m → Step marshal m m' → Later n m'

  Step-cancelled :
      (n n' : NetworkManager Byte) → Step marshal n n' → n.cancelled ≡ true → n'.cancelled ≡ true
  unfolding initialize create_network join_network add_if_new add_network leave_network
      accept_connection handle_connection connect_to_peer read_handshake register_peer
      share_collection count_collections remove_collection_from_network broadcast_message
      finish_send count_send send_to_peer on_message get_network_stats shutdown
  Step-cancelled n n' (initialize_step failed) h = ground arith
  Step-cancelled n n' (create_step failed cfg) h = ground arith
  Step-cancelled n n' (join_step failed id addresses) h = ground arith
  Step-cancelled n n' (enter_step cfg) h = ground arith
  Step-cancelled n n' (leave_step id) h = ground arith
  Step-cancelled n n' (accept_step address connection) h = ground arith
  Step-cancelled n n' (handshake_step now connection line) h = ground arith
  Step-cancelled n n' (connect_step now address dialled line) h = ground arith
  Step-cancelled n n' (share_step id collection pointer) h = ground arith
  Step-cancelled n n' (unshare_step id collection) h = ground arith
  Step-cancelled n n' (broadcast_step id msg) h = ground arith
  Step-cancelled n n' (sent_step written s) h = ground arith
  Step-cancelled n n' (send_step failed peer id msg) h = ground arith
  Step-cancelled n n' (handler_step message_type handler) h = h
  Step-cancelled n n' (stats_step id) h = ground arith
  Step-cancelled n n' shutdown_step h = refl

  Later-cancelled :
      (n m : NetworkManager Byte) → Later n m → n.cancelled ≡ true → m.cancelled ≡ true
  Later-cancelled n m at_once h = h
  Later-cancelled n m (later {m = k} l s) h = Step-cancelled k m s (Later-cancelled n k l h)

  -- A manager that has been shut down accepts no connection any more, whatever is done with it
  -- afterwards: the Initialize of a later call starts a listener, but nobody accepts from it.
  pub shutdown_deaf :
      (n m : NetworkManager Byte)
      → Later (shutdown n) m
      → (address : String) (connection : ℕ) → accept_connection address connection m ≡ m
  unfolding accept_connection shutdown
  shutdown_deaf n m l address connection =
      let c = Later-cancelled (shutdown n) m l refl in ground arith

  register_peer-connections :
      (now : ℤ) (peer address id : String) (connection : ℕ) (n : NetworkManager Byte)
      → is_some (lookup id n.connections) ≡ true
      → is_some (lookup id (register_peer now peer address connection n).connections) ≡ true
  unfolding register_peer
  register_peer-connections now peer address id connection n h =
      ground (arith, lookup-insert peer id connection n.connections)

  read_handshake-connections :
      (now : ℤ) (address line id : String) (connection : ℕ) (n : NetworkManager Byte)
      → is_some (lookup id n.connections) ≡ true
      → is_some (lookup id (read_handshake now address connection line n).connections) ≡ true
  unfolding read_handshake
  read_handshake-connections now address line id connection n h =
      elim (Option-cases (parse_handshake line)) [
        | inl e ↦ rw (e, read_handshake) h
        | inr (peer, e) ↦
            rw (e, read_handshake) (register_peer-connections now peer address id connection n h)
      ]

  handle_connection-connections :
      (now : ℤ) (id : String) (connection : ℕ) (line : Option String) (n : NetworkManager Byte)
      → is_some (lookup id n.connections) ≡ true
      → is_some (lookup id (handle_connection now connection line n).connections) ≡ true
  unfolding handle_connection
  handle_connection-connections now id connection none n h = ground arith
  handle_connection-connections now id connection (some line) n h =
      elim (Option-cases (remote_address connection n.accepted)) [
        | inl e ↦ rw (e, handle_connection) h
        | inr (address, e) ↦
            rw (e, handle_connection)
              (read_handshake-connections now address line id connection n h)
      ]

  connect_to_peer-connections :
      (now : ℤ) (address id : String) (dialled : Option ℕ) (line : Option String)
      (n : NetworkManager Byte)
      → is_some (lookup id n.connections) ≡ true
      → is_some (lookup id (connect_to_peer now address dialled line n).connections) ≡ true
  unfolding connect_to_peer
  connect_to_peer-connections now address id none line n h = h
  connect_to_peer-connections now address id (some c) none n h = h
  connect_to_peer-connections now address id (some c) (some line) n h =
      read_handshake-connections now address line id c n h

  -- No step but Shutdown takes a connection out of the map, also when the peer has gone: a peer that
  -- has a connection has one after the step, or there is none left.
  pub connections_kept :
      (n n' : NetworkManager Byte)
      → Step marshal n n'
      → (id : String) → is_some (lookup id n.connections) ≡ true
      → (is_some (lookup id n'.connections) ≡ true) ⊎ (n'.connections ≡ [])
  unfolding accept_connection initialize create_network join_network add_if_new add_network
      leave_network share_collection count_collections remove_collection_from_network
      broadcast_message finish_send count_send send_to_peer on_message get_network_stats shutdown
  connections_kept n n' (initialize_step failed) id h = inl (ground arith)
  connections_kept n n' (create_step failed cfg) id h = inl (ground arith)
  connections_kept n n' (join_step failed j addresses) id h = inl (ground arith)
  connections_kept n n' (enter_step cfg) id h = inl (ground arith)
  connections_kept n n' (leave_step j) id h = inl (ground arith)
  connections_kept n n' (accept_step address connection) id h = inl (ground arith)
  connections_kept n n' (handshake_step now connection line) id h =
      inl (handle_connection-connections now id connection line n h)
  connections_kept n n' (connect_step now address dialled line) id h =
      inl (connect_to_peer-connections now address id dialled line n h)
  connections_kept n n' (share_step j collection pointer) id h = inl (ground arith)
  connections_kept n n' (unshare_step j collection) id h = inl (ground arith)
  connections_kept n n' (broadcast_step j msg) id h = inl (ground arith)
  connections_kept n n' (sent_step written s) id h = inl (ground arith)
  connections_kept n n' (send_step failed peer j msg) id h = inl (ground arith)
  connections_kept n n' (handler_step message_type handler) id h = inl h
  connections_kept n n' (stats_step j) id h = inl (ground arith)
  connections_kept n n' shutdown_step id h = inr refl
