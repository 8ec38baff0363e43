-- ===== src/Network/Steps.antt =====
-- go/internal/network/network_manager.go: the steps of a manager, in any order, and what they keep.
-- Each critical section is a step, so the two of AddCollectionToNetwork may have others between them,
-- and those of CreateNetwork and JoinNetwork, Initialize and the entry of the network. The last two
-- calls are also steps as a whole.
use knirvbase.Base.{
  arith, ℕ, ◌≡◌, refl, inl, inr, String, Bool, Option, List, eq_iff, Option-cases, is_some, length,
}
use knirvbase.Base.Int.{ℤ}
use knirvbase.GoMap.{lookup, Distinct}
use knirvbase.GoMap.Laws.{lookup-insert, insert-Distinct, lookup-remove, remove-Distinct}
use knirvbase.Result.{Result}
use knirvbase.Network.{
  NetworkConfig, ProtocolMessage, Send, NetworkManager, new_network_manager, initialize,
  add_network, add_if_new, joined_config, create_network, join_network, leave_network,
}
use knirvbase.Network.Peers.{
  accept_connection, handle_connection, connect_to_peer, register_peer, read_handshake,
}
use knirvbase.Network.Sharing.{share_collection, count_collections, remove_collection_from_network}
use knirvbase.Network.Messages.{
  count_send, finish_send, broadcast_message, send_to_peer, on_message, get_network_stats, shutdown,
}

module _ {Byte V : Type 0} (marshal : ProtocolMessage V → Result (List Byte)) where
  abbrev pub Manager : Type 0
  Manager = NetworkManager Byte

  -- one critical section of one operation, or a whole CreateNetwork or JoinNetwork
  pub data Step (n : Manager) : Manager → Type 0 where
    initialize_step : (failed : Option String) → Step n ((initialize failed n).0)
    create_step :
        (failed : Option String) (cfg : NetworkConfig) → Step n ((create_network failed n cfg).0)
    join_step :
        (failed : Option String) (id : String) (addresses : List String)
        → Step n ((join_network failed n id addresses).0)
    enter_step : (cfg : NetworkConfig) → Step n (add_if_new cfg n)
    leave_step : (id : String) → Step n (leave_network n id)
    accept_step :
        (address : String) (connection : ℕ) → Step n (accept_connection address connection n)
    handshake_step :
        (now : ℤ) (connection : ℕ) (line : Option String)
        → Step n (handle_connection now connection line n)
    connect_step :
        (now : ℤ) (address : String) (dialled : Option ℕ) (line : Option String)
        → Step n (connect_to_peer now address dialled line n)
    share_step :
        (id collection : String) (pointer : ℕ) → Step n (share_collection id collection pointer n)
    unshare_step :
        (id collection : String) → Step n (remove_collection_from_network n id collection)
    broadcast_step :
        (id : String) (msg : ProtocolMessage V) → Step n ((broadcast_message marshal n id msg).0)
    sent_step : (written : Bool) (s : Send Byte) → Step n (finish_send written s n)
    send_step :
        (failed : Option String) (peer id : String) (msg : ProtocolMessage V)
        → Step n ((send_to_peer marshal failed n peer id msg).0)
    handler_step :
        (message_type : String) (handler : ℕ) → Step n (on_message n message_type handler)
    stats_step : (id : String) → Step n ((get_network_stats n id).0)
    shutdown_step : Step n (shutdown n)

  -- what a manager can become, from the one that NewNetworkManager returns
  pub data Reachable (own_id : String) : Manager → Type 0 where
    start : Reachable own_id (new_network_manager own_id)
    after : {n n' : Manager} → Reachable own_id n → Step n n' → Reachable own_id n'

  -- Every network has its statistics and the other way round, and each map has a key once.
  pub record Linked (n : Manager) : Type 0 where
    pub same_keys : (id : String) → is_some (lookup id n.networks) ≡ is_some (lookup id n.stats)
    pub networks_distinct : Distinct n.networks
    pub stats_distinct : Distinct n.stats

  -- a step that leaves the two maps alone
  same_maps :
      (n n' : Manager) → n'.networks ≡ n.networks → n'.stats ≡ n.stats → Linked n → Linked n'
  same_maps n n' e f l = record {
    same_keys = λ id. rw (e, f) (l.same_keys id);
    networks_distinct = rw e l.networks_distinct;
    stats_distinct = rw f l.stats_distinct;
  }

  initialize-Linked :
      (failed : Option String) (n : Manager) → Linked n → Linked ((initialize failed n).0)
  unfolding initialize
  initialize-Linked failed n l = same_maps n _ (ground arith) (ground arith) l

  add_if_new-Linked : (cfg : NetworkConfig) (n : Manager) → Linked n → Linked (add_if_new cfg n)
  unfolding add_if_new add_network
  add_if_new-Linked cfg n l = elim (Option-cases (lookup cfg.network_id n.networks)) [
    | inr (i, h) ↦ rw (h, add_if_new) l
    | inl h ↦
        rw (h, add_if_new)
          (record {
            same_keys = λ id. ground (
              arith,
              eq_iff cfg.network_id id,
              lookup-insert cfg.network_id id (length n.configs) n.networks,
              lookup-insert cfg.network_id id (length n.counters) n.stats,
              l.same_keys id,
            );
            networks_distinct = insert-Distinct _ _ n.networks l.networks_distinct;
            stats_distinct = insert-Distinct _ _ n.stats l.stats_distinct;
          })
  ]

  leave_network-Linked : (n : Manager) (id : String) → Linked n → Linked (leave_network n id)
  unfolding leave_network
  leave_network-Linked n id l = elim (Option-cases (lookup id n.networks)) [
    | inl h ↦ rw (h, leave_network) l
    | inr (i, h) ↦
        rw (h, leave_network)
          (record {
            same_keys = λ j. ground (
              arith,
              eq_iff id j,
              lookup-remove id j n.networks l.networks_distinct,
              lookup-remove id j n.stats l.stats_distinct,
              l.same_keys j,
            );
            networks_distinct = remove-Distinct id n.networks l.networks_distinct;
            stats_distinct = remove-Distinct id n.stats l.stats_distinct;
          })
  ]

  create_network-Linked :
      (failed : Option String) (n : Manager) (cfg : NetworkConfig)
      → Linked n
      → Linked ((create_network failed n cfg).0)
  unfolding create_network
  create_network-Linked failed n cfg l =
      let k = initialize-Linked failed n l in
      elim (Option-cases ((initialize failed n).1)) [
        | inr (e, h) ↦ rw (h, create_network) k
        | inl h ↦ rw (h, create_network) (add_if_new-Linked cfg ((initialize failed n).0) k)
      ]

  join_network-Linked :
      (failed : Option String) (n : Manager) (id : String) (addresses : List String)
      → Linked n
      → Linked ((join_network failed n id addresses).0)
  unfolding join_network
  join_network-Linked failed n id addresses l =
      let k = initialize-Linked failed n l in
      elim (Option-cases ((initialize failed n).1)) [
        | inr (e, h) ↦ rw (h, join_network) k
        | inl h ↦
            rw (h, join_network) (add_if_new-Linked (joined_config id) ((initialize failed n).0) k)
      ]

  -- Every step of a manager keeps its networks and its statistics together.
  Step-Linked : (n n' : Manager) → Step n n' → Linked n → Linked n'
  unfolding accept_connection handle_connection connect_to_peer read_handshake register_peer
      share_collection count_collections remove_collection_from_network broadcast_message
      finish_send count_send send_to_peer on_message get_network_stats shutdown
  Step-Linked n n' (initialize_step failed) l = initialize-Linked failed n l
  Step-Linked n n' (create_step failed cfg) l = create_network-Linked failed n cfg l
  Step-Linked n n' (join_step failed id addresses) l = join_network-Linked failed n id addresses l
  Step-Linked n n' (enter_step cfg) l = add_if_new-Linked cfg n l
  Step-Linked n n' (leave_step id) l = leave_network-Linked n id l
  Step-Linked n n' (accept_step address connection) l =
      same_maps n _ (ground arith) (ground arith) l
  Step-Linked n n' (handshake_step now connection line) l =
      same_maps n _ (ground arith) (ground arith) l
  Step-Linked n n' (connect_step now address dialled line) l =
      same_maps n _ (ground arith) (ground arith) l
  Step-Linked n n' (share_step id collection pointer) l =
      same_maps n _ (ground arith) (ground arith) l
  Step-Linked n n' (unshare_step id collection) l = same_maps n _ (ground arith) (ground arith) l
  Step-Linked n n' (broadcast_step id msg) l = same_maps n _ (ground arith) (ground arith) l
  Step-Linked n n' (sent_step written s) l = same_maps n _ (ground arith) (ground arith) l
  Step-Linked n n' (send_step failed peer id msg) l = same_maps n _ (ground arith) (ground arith) l
  Step-Linked n n' (handler_step message_type handler) l = same_maps n _ refl refl l
  Step-Linked n n' (stats_step id) l = same_maps n _ (ground arith) (ground arith) l
  Step-Linked n n' shutdown_step l = same_maps n _ refl refl l

  -- Whatever a manager has done, in any interleaving: it has statistics for exactly the networks that
  -- it is in, and each of the two maps has a key once.
  pub reachable-Linked : (own_id : String) (n : Manager) → Reachable own_id n → Linked n
  unfolding new_network_manager lookup
  reachable-Linked own_id n start = record {
    same_keys = λ id. refl;
    networks_distinct = tt;
    stats_distinct = tt;
  }
  reachable-Linked own_id n (after {n = m} r s) = Step-Linked m n s (reachable-Linked own_id m r)
