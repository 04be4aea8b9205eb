-- ===== src/Network/Guards.antt =====
-- network/state.rs: the guards on the lock of `Shared<NetworkState>` that its handlers take and drop, in
-- order. A guard that is a temporary is dropped at the end of the statement.
use uip.Base.{ℕ, ◌<◌, ◌≡◌, refl, List, [], ◌∷◌, ◌++◌, map, some, true, false, arith}
use uip.Shared.{
  Op, read, write, drop_read, drop_write, task, new, move, step, run, task_at, perform,
}
use uip.Shared.Nested.{guards, run-blocked}

-- `self.read()`, of which a copy or a clone is kept.
unfoldable pub external_addresses : List Op
external_addresses = read ∷ drop_read ∷ []

-- The guard of `self.read().id.identifier` is there until `Peer::new` has returned.
unfoldable pub my_peer_information : List Op
unfolding external_addresses
my_peer_information = read ∷ external_addresses ++ read ∷ drop_read ∷ drop_read ∷ []

-- `self.write().upstream.clone()`
unfoldable pub deliver_frame : List Op
deliver_frame = write ∷ drop_write ∷ []

guards-fresh : (programs : List (List Op)) → guards (map task programs) ≡ 0
unfolding guards
guards-fresh [] = refl
guards-fresh (p ∷ ps) = omega (arith, guards-fresh ps)

-- Where a waiting writer keeps others from reading: if a task stands in `my_peer_information` and has the
-- first guard when another delivers a frame, then the first task never gets its second guard and a writer
-- waits forever, whatever else these tasks and others do, in whatever order.
pub my_peer_information-blocked :
    (more more' : List Op) (others : List (List Op)) (is : List ℕ)
    → let (l, ts) =
        run true
          (0 ∷ 1 ∷ is)
          new
          (map task ((my_peer_information ++ more) ∷ (deliver_frame ++ more') ∷ others)) in
      (task_at 0 ts
        ≡ some (record {
          reads = 1;
          writes = false;
          waits = false;
          rest = external_addresses ++ read ∷ drop_read ∷ drop_read ∷ more;
        }))
      × (0 < l.waiting)
unfolding run step move perform new my_peer_information deliver_frame guards
my_peer_information-blocked more more' others is =
    run-blocked is 0 _ _ _ (drop_read ∷ read ∷ drop_read ∷ drop_read ∷ more)
      (omega (arith, guards-fresh others)) refl refl (omega arith) (omega arith)
