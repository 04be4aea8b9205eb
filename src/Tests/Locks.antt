-- ===== src/Tests/Locks.antt =====
-- Tasks of the network half on the lock of its state.
use uip.Base.{◌<◌, ◌≡◌, List, [], ◌∷◌, ◌++◌, map, some, false, true, All}
use uip.Network.Guards.{
  external_addresses, my_peer_information, deliver_frame, my_peer_information-blocked,
}
use uip.Shared.{Op, read, drop_read, task, new, run, task_at}
use uip.Shared.Orderly.{IsFlat, ended, reads, writes}

-- Three tasks: one computes the peer's information, one delivers a frame, one delivers two.
my_peer_information-blocked_example :
    let (l, ts) = run true (0 ∷ 1 ∷ 2 ∷ 0 ∷ 1 ∷ []) new (
      map task (
        (my_peer_information ++ [])
        ∷ (deliver_frame ++ [])
        ∷ (deliver_frame ++ deliver_frame)
        ∷ [])) in
    (task_at 0 ts
      ≡ some (record {
        reads = 1;
        writes = false;
        waits = false;
        rest = external_addresses ++ read ∷ drop_read ∷ drop_read ∷ [];
      }))
    × (0 < l.waiting)
my_peer_information-blocked_example =
    my_peer_information-blocked [] [] ((deliver_frame ++ deliver_frame) ∷ []) (2 ∷ 0 ∷ 1 ∷ [])

abbrev programs : List (List Op)
programs =
    (external_addresses ++ external_addresses)
    ∷ deliver_frame
    ∷ (deliver_frame ++ external_addresses)
    ∷ []

programs-IsFlat : All IsFlat programs
unfolding external_addresses deliver_frame
programs-IsFlat = (reads (reads ended), (writes ended, (writes (reads ended), tt)))
