-- ===== src/Network/Sends.antt =====
-- go/internal/network/network_manager.go: what becomes of the messages that are sent, and of the
-- connections.
use knirvbase.Base.{
  arith, ℕ, zero, suc, ◌+◌, ◌*◌, ◌%◌, ◌^◌, ◌<◌, ◌≡◌, refl, sym, ap, ◌∙◌, inl, inr, String, true,
  Option, none, some, List, [], ◌∷◌, ◌++◌, Bool-cases, length,
}
use knirvbase.GoMap.{lookup}
use knirvbase.Result.{Result, ok, Result-cases}
use knirvbase.Network.{
  NetworkStats, ProtocolMessage, Send, NetworkManager, at_pointer, write_pointer,
}
use knirvbase.Network.Messages.{sends_to, count_send, finish_send, broadcast_message}

pub at_pointer-write_pointer :
    {A : Type 0} (i : ℕ) (f : A → A) (xs : List A) {x : A}
    → at_pointer i xs ≡ some x
    → at_pointer i (write_pointer i f xs) ≡ some (f x)
at_pointer-write_pointer i f [] h = cc
at_pointer-write_pointer zero f (x ∷ xs) h = cc
at_pointer-write_pointer (suc i) f (x ∷ xs) h = at_pointer-write_pointer i f xs h

-- Sums wrap around the same, at once or bit by bit.
sum_wraps : (a k size : ℕ) → ((a + size) % 2 ^ 64 + k * size) % 2 ^ 64 ≡ (a + suc k * size) % 2 ^ 64
sum_wraps a k size = omega arith

module _ {Byte V : Type 0} (marshal : ProtocolMessage V → Result (List Byte)) where
  -- the statistics after k messages of so many bytes
  abbrev pub after_sends : ℕ → ℕ → NetworkStats → NetworkStats
  after_sends k size st = record st {
    operations_sent = (st.operations_sent + k) % 2 ^ 64;
    bytes_transferred = (st.bytes_transferred + k * size) % 2 ^ 64;
  }

  abbrev pub after_send : ℕ → NetworkStats → NetworkStats
  after_send size st = record st {
    operations_sent = (st.operations_sent + 1) % 2 ^ 64;
    bytes_transferred = (st.bytes_transferred + size) % 2 ^ 64;
  }

  -- all these goroutines, one after the other, each of which writes its message
  unfoldable pub finish_sends : List (Send Byte) → NetworkManager Byte → NetworkManager Byte
  unfolding finish_send
  finish_sends [] n = n
  finish_sends (s ∷ ss) n = finish_sends ss (finish_send true s n)

  length-sends_to :
      (cs : List (String × ℕ)) (data_bytes : List Byte) (counted : Option ℕ)
      → length (sends_to cs data_bytes counted) ≡ length cs
  unfolding sends_to
  length-sends_to [] data_bytes counted = refl
  length-sends_to ((peer, c) ∷ cs) data_bytes counted =
      ap suc (length-sends_to cs data_bytes counted)

  finish_sends-counters :
      (cs : List (String × ℕ)) (data_bytes : List Byte) (s : ℕ) (n : NetworkManager Byte)
      (st : NetworkStats)
      → at_pointer s n.counters ≡ some st
      → st.operations_sent < 2 ^ 64
      → st.bytes_transferred < 2 ^ 64
      → at_pointer s (finish_sends (sends_to cs data_bytes (some s)) n).counters
        ≡ some (after_sends (length cs) (length data_bytes) st)
  unfolding finish_sends finish_send count_send sends_to
  finish_sends-counters [] data_bytes s n st h a b = h ∙ ap some (ground arith)
  finish_sends-counters ((peer, c) ∷ cs) data_bytes s n st h a b =
      finish_sends-counters cs data_bytes s _ (after_send (length data_bytes) st)
        (at_pointer-write_pointer s _ n.counters h) (omega arith) (omega arith)
      ∙ ap some (
          ground (
            arith,
            sum_wraps st.operations_sent (length cs) 1,
            sum_wraps st.bytes_transferred (length cs) (length data_bytes),
          ))

  -- A Broadcast that returns no error starts one message for each connection; when all of them have
  -- been written, the statistics of the network have counted each of them with its bytes, up to the
  -- wrap of the 64 bits.
  pub broadcast_counts :
      (n n' : NetworkManager Byte) (id : String) (msg : ProtocolMessage V) (s : ℕ)
      (st : NetworkStats)
      → broadcast_message marshal n id msg ≡ (n', none)
      → lookup id n.stats ≡ some s
      → at_pointer s n.counters ≡ some st
      → st.operations_sent < 2 ^ 64
      → st.bytes_transferred < 2 ^ 64
      → (data_bytes : List Byte) × (marshal msg ≡ ok data_bytes)
        × (ss : List (Send Byte)) × (n'.sends ≡ n.sends ++ ss)
        × (length ss ≡ length n.connections)
        × (at_pointer s (finish_sends ss n').counters
            ≡ some (after_sends (length n.connections) (length data_bytes) st))
  unfolding broadcast_message
  broadcast_counts n n' id msg s st h f g a b = elim (Bool-cases n.initialized) [
    | inr off ↦ elim (failed (rw (off, broadcast_message) at h)) [ ]
    | inl on ↦ elim (Result-cases (marshal msg)) [
      | inr (e, m) ↦ elim (failed (rw (on, broadcast_message, m, broadcast_message) at h)) [ ]
      | inl (data_bytes, m) ↦
          let k = rw (on, broadcast_message, m, broadcast_message, f) at h in
          let same = sym (ap (λ r. r.0) k) in
          (
            data_bytes,
            m,
            sends_to n.connections data_bytes (some s),
            rw same refl,
            length-sends_to n.connections data_bytes (some s),
            rw same (finish_sends-counters n.connections data_bytes s _ st g a b),
          )
    ]
  ]
    where
      failed :
          {m m' : NetworkManager Byte} {e : String}
          → ◌≡◌ {A = NetworkManager Byte × Option String} (m, some e) (m', none)
          → ⊥
      failed h = cc
