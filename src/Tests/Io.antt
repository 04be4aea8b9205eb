-- ===== src/Tests/Io.antt =====
-- Datagrams of network/io/socket.rs and the debounced stream of network/change/.
use uip.Base.{ℕ, ◌≡◌, ◌≢◌, refl, List, [], ◌∷◌, Option, none, some, true, false, All, arith}
use uip.Base.Map
use uip.Change.Debounce.{Poll, ready, pending, Stream, Debounce, poll_next}
use uip.Change.Debounce.Polls.{yields, Spaced, yields-Spaced, poll_next_ended}
use uip.Data.Address.{v6, socket_addr_key}
use uip.Io.Socket.{Driver, read_task, datagram}
use uip.Io.Socket.Demux.{Call, connects, receives}
use uip.Io.Socket.Registration.{read_task_dead}
use uip.Tests.Fixtures.{address, other_address, host_address}

abbrev calls : List Call
calls =
    connects (v6 address)
    ∷ receives (1 ∷ []) (v6 other_address)
    ∷ receives (2 ∷ []) (v6 address)
    ∷ []

abbrev fresh : Driver
fresh = record {
  socket = record { connections = []; address = host_address; upd_address = v6 address };
  fresh = 0;
  queued = [];
}

abbrev known : Driver
known = record {
  socket = record {
    connections = (v6 other_address, 4) ∷ [];
    address = host_address;
    upd_address = v6 address;
  };
  fresh = 5;
  queued = [];
}

is_known : Map.get (v6 other_address) known.socket.connections ≡ some 4
unfolding Map.get
is_known = ground arith

read_task_dead_example :
    All
      (λ conn. conn.remote_addr ≢ v6 other_address)
      (read_task (λ c q. false) (λ c q. true) (datagram (1 ∷ []) (v6 other_address) ∷ []) known).1
    × (Map.get
          (v6 other_address)
          (read_task
            (λ c q. false)
            (λ c q. true)
            (datagram (1 ∷ []) (v6 other_address) ∷ [])
            known).2.socket.connections
        ≡ some 4)
read_task_dead_example =
    read_task_dead (λ c q. false) (λ c q. true) (v6 other_address) 4 (λ q. refl)
      (datagram (1 ∷ []) (v6 other_address) ∷ []) known is_known

-- Two items, and nothing from then on.
abbrev poll_list : List ℕ → Poll (Option ℕ) × List ℕ
poll_list [] = (pending, [])
poll_list (x ∷ xs) = (ready (some x), xs)

abbrev items : Stream ℕ
items = record { State = List ℕ; poll = poll_list }

-- A stream that has ended.
abbrev ended : Stream ℕ
ended = record { State = Unit {0}; poll = λ s. (ready none, s) }

abbrev debounced : Debounce items
debounced = record { window = 50; last_timestamp = 100; inner = 7 ∷ 8 ∷ [] }

yields-Spaced_example :
    Spaced items 50 100 (yields items 5 ((160, 160) ∷ (170, 170) ∷ (220, 221) ∷ []) debounced)
yields-Spaced_example =
    yields-Spaced items 5 ((160, 160) ∷ (170, 170) ∷ (220, 221) ∷ []) debounced
      (omega arith, (omega arith, (omega arith, tt)))

poll_next_ended_example :
    poll_next ended 5 120 120 (record { window = 50; last_timestamp = 100; inner = tt }) ≡ none
poll_next_ended_example =
    poll_next_ended ended 5 120 120 (record { window = 50; last_timestamp = 100; inner = tt })
      (omega arith) refl
