-- ===== src/Network/Messages.antt =====
-- go/internal/network/network_manager.go: messages that go out and come in, and the end of a manager.
use knirvbase.Base.{
  ℕ, ◌+◌, ◌%◌, ◌^◌, String, Bool, true, false, Option, none, some, List, [], ◌∷◌, ◌++◌, map,
  if◌then◌else◌, ◌==◌, length,
}
use knirvbase.Base.Int.{ℤ}
use knirvbase.GoMap.{lookup, insert}
use knirvbase.GoStrings.{trim_space}
use knirvbase.Result.{Result, ok, err}
use knirvbase.Network.{
  NetworkConfig, NetworkStats, ProtocolMessage, Send, NetworkManager, at_pointer, write_pointer,
}
use knirvbase.Network.Sharing.{share_collection}

module _ {Byte : Type 0} where
  -- the goroutines that BroadcastMessage starts, one for each connection
  unfoldable pub sends_to : List (String × ℕ) → List Byte → Option ℕ → List (Send Byte)
  sends_to [] data_bytes counted = []
  sends_to ((peer, c) ∷ cs) data_bytes counted =
      record { connection = c; bytes = data_bytes; counted = counted }
      ∷ sends_to cs data_bytes counted

  -- st.OperationsSent++ and st.BytesTransferred += int64(len(data))
  unfoldable pub count_send : Option ℕ → ℕ → NetworkManager Byte → NetworkManager Byte
  count_send none size n = n
  count_send (some s) size n = record n {
    counters =
        write_pointer s
          (λ st. record st {
            operations_sent = (st.operations_sent + 1) % 2 ^ 64;
            bytes_transferred = (st.bytes_transferred + size) % 2 ^ 64;
          })
          n.counters;
  }

  -- A goroutine of BroadcastMessage writes to its connection, or fails to.
  unfoldable pub finish_send : Bool → Send Byte → NetworkManager Byte → NetworkManager Byte
  unfolding count_send
  finish_send written s n = if written then count_send s.counted (length s.bytes) n else n

  module _ {V : Type 0} (marshal : ProtocolMessage V → Result (List Byte)) where
    unfoldable pub broadcast_message :
        NetworkManager Byte → String → ProtocolMessage V → NetworkManager Byte × Option String
    unfolding sends_to
    broadcast_message n network_id msg =
        if n.initialized
        then elim (marshal msg) [
          | err e ↦ (n, some e)
          | ok data_bytes ↦ (
            record n {
              sends = n.sends ++ sends_to n.connections data_bytes (lookup network_id n.stats);
            },
            none,
          )
        ]
        else (n, some "not initialized")

    -- AddCollectionToNetwork, when nothing comes between its critical sections
    unfoldable pub add_collection_to_network :
        (String → V)
        → ℤ
        → NetworkManager Byte
        → String
        → String
        → NetworkManager Byte × Option String
    unfolding share_collection broadcast_message
    add_collection_to_network announcement now n network_id collection =
        elim (lookup network_id n.networks) [
          | none ↦ (n, some "network not found")
          | some pointer ↦
              broadcast_message (share_collection network_id collection pointer n) network_id
                (record {
                  message_type = "collection_announce";
                  network_id = network_id;
                  sender_id = n.own_id;
                  timestamp = now;
                  payload = announcement collection;
                })
        ]

    -- SendToPeer, given the error of the write
    unfoldable pub send_to_peer :
        Option String
        → NetworkManager Byte
        → String
        → String
        → ProtocolMessage V
        → NetworkManager Byte × Option String
    unfolding count_send
    send_to_peer failed n peer network_id msg =
        if n.initialized
        then elim (marshal msg) [
          | err e ↦ (n, some e)
          | ok data_bytes ↦ elim (lookup peer n.connections) [
            | none ↦ (n, some "peer not connected")
            | some connection ↦ elim failed [
              | some e ↦ (n, some e)
              | none ↦ (count_send (lookup network_id n.stats) (length data_bytes) n, none)
            ]
          ]
        ]
        else (n, some "not initialized")

    -- handleMessage: the handlers that are started, in their order
    unfoldable pub handle_message : NetworkManager Byte → ProtocolMessage V → List ℕ
    handle_message n msg = elim (lookup msg.message_type n.handlers) [ none ↦ [] | some hs ↦ hs ]

    -- a line of a connection: an empty one and one that cannot be decoded are passed over
    unfoldable pub receive_line :
        (String → Result (ProtocolMessage V)) → NetworkManager Byte → String → List ℕ
    unfolding handle_message trim_space
    receive_line unmarshal n line =
        if trim_space line == ""
        then []
        else elim (unmarshal (trim_space line)) [ err e ↦ [] | ok msg ↦ handle_message n msg ]

    -- the loop over the lines of a connection, while the handlers stay as they are
    unfoldable pub receive_lines :
        (String → Result (ProtocolMessage V)) → NetworkManager Byte → List String → List ℕ
    unfolding receive_line
    receive_lines unmarshal n [] = []
    receive_lines unmarshal n (line ∷ lines) =
        receive_line unmarshal n line ++ receive_lines unmarshal n lines

  unfoldable pub on_message : NetworkManager Byte → String → ℕ → NetworkManager Byte
  on_message n message_type handler = record n {
    handlers =
        insert message_type
          ((elim (lookup message_type n.handlers) [ none ↦ [] | some hs ↦ hs ]) ++ (handler ∷ []))
          n.handlers;
  }

  -- GetNetworkStats writes the number of connections to the object that it returns
  unfoldable pub get_network_stats :
      NetworkManager Byte → String → NetworkManager Byte × Option NetworkStats
  get_network_stats n network_id = elim (lookup network_id n.stats) [
    | none ↦ (n, none)
    | some s ↦
        let counters =
          write_pointer s (λ st. record st { connected_peers = length n.connections }) n.counters in
        (record n { counters = counters }, at_pointer s counters)
  ]

  unfoldable pub get_networks : NetworkManager Byte → List (Option NetworkConfig)
  get_networks n = map (λ e. at_pointer (e.1) n.configs) n.networks

  unfoldable pub shutdown : NetworkManager Byte → NetworkManager Byte
  shutdown n = record n {
    connections = [];
    initialized = false;
    listening = false;
    cancelled = true;
  }
