-- ===== src/Tests/NetworkTests.antt =====
-- Runs of go/internal/network/network_manager.go with numbers for bytes.
use knirvbase.Base.{arith, ℕ, String, ◌≡◌, refl, none, some, List, [], ◌∷◌, ◌++◌, Option, length}
use knirvbase.Base.Int.{pos}
use knirvbase.GoMap.{lookup, insert}
use knirvbase.GoStrings.{trim_space, is_space}
use knirvbase.Result.{Result, ok}
use knirvbase.Network.{
  ProtocolMessage, Send, NetworkManager, NetworkStats, new_network_manager, initialize, at_pointer,
  leave_network, join_network,
}
use knirvbase.Network.Peers.{accept_connection, connect_to_peer, parse_handshake}
use knirvbase.Network.Messages.{broadcast_message, shutdown}
use knirvbase.Network.Steps.{
  start, after, join_step, leave_step, connect_step, initialize_step, Linked, reachable-Linked,
}
use knirvbase.Network.Sends.{broadcast_counts, finish_sends, after_sends}
use knirvbase.Network.Ends.{at_once, later, shutdown_deaf}

handshakes :
    ◌≡◌ {A = Option String} (parse_handshake " KNIRV:abc ") (some "abc")
    × ◌≡◌ {A = Option String} (parse_handshake "KNIRV:a:b") none
    × ◌≡◌ {A = Option String} (parse_handshake "HTTP:abc") none
unfolding parse_handshake trim_space is_space
handshakes = (refl, refl, refl)

abbrev marshal : ProtocolMessage String → Result (List ℕ)
marshal msg = ok (7 ∷ 8 ∷ [])

abbrev hello : ProtocolMessage String
hello = record {
  message_type = "heartbeat";
  network_id = "net";
  sender_id = "me";
  timestamp = pos 1;
  payload = "hi";
}

abbrev new_manager : NetworkManager ℕ
new_manager = new_network_manager "me"

abbrev joined : NetworkManager ℕ
joined = (join_network none new_manager "net" ("a" ∷ [])).0

abbrev connected : NetworkManager ℕ
connected = connect_to_peer (pos 2) "a" (some 0) (some "KNIRV:abc") joined

abbrev full : NetworkManager ℕ
full = connect_to_peer (pos 3) "b" (some 1) (some "KNIRV:def") connected

reachable-Linked_example : Linked marshal (leave_network full "net")
reachable-Linked_example = reachable-Linked marshal "me" (leave_network full "net") (
    after
      (after
        (after (after start (join_step none "net" ("a" ∷ [])))
          (connect_step (pos 2) "a" (some 0) (some "KNIRV:abc")))
        (connect_step (pos 3) "b" (some 1) (some "KNIRV:def")))
      (leave_step "net"))

abbrev fresh : NetworkStats
fresh = record {
  network_id = "net";
  connected_peers = 0;
  total_peers = 0;
  collections_shared = 0;
  operations_sent = 0;
  operations_received = 0;
  bytes_transferred = 0;
}

abbrev sent : NetworkManager ℕ
sent = (broadcast_message marshal full "net" hello).0

broadcast_counts_example :
    (data_bytes : List ℕ) × (marshal hello ≡ ok data_bytes)
    × (ss : List (Send ℕ)) × (sent.sends ≡ full.sends ++ ss)
    × (length ss ≡ length full.connections)
    × (at_pointer 0 (finish_sends marshal ss sent).counters
        ≡ some (after_sends marshal (length full.connections) (length data_bytes) fresh))
unfolding broadcast_message connect_to_peer join_network trim_space is_space lookup insert
    new_network_manager
broadcast_counts_example =
    broadcast_counts marshal full sent "net" hello 0 fresh refl refl refl (omega arith)
      (omega arith)

abbrev restarted : NetworkManager ℕ
restarted = (initialize none (shutdown full)).0

shutdown_deaf_example : accept_connection "c" 4 restarted ≡ restarted
shutdown_deaf_example =
    shutdown_deaf marshal full restarted (later at_once (initialize_step none)) "c" 4
