-- ===== src/Io/Socket/Closing.antt =====
-- The read task of network/io/socket.rs after `close`.
use uip.Base.{◌≢◌, List, [], ◌∷◌, Bool, Option-cases, Bool-cases, inl, inr}
use uip.Io.Socket.{
  Connection, Queued, Driver, Env, forward_or_new_connection, read_task, Received, datagram, failed,
  closed, close, running,
}

module _ (send_ok : Env) (accept : Connection → List Queued → Bool) where
  -- Whatever the task takes first, the signal ends it.
  pub read_task-close :
      (before : List Received) (d : Driver)
      → (read_task send_ok accept (close before) d).0 ≢ running
  unfolding read_task close
  read_task-close [] d = λ e. cc
  read_task-close (failed ∷ rest) d = λ e. cc
  read_task-close (closed ∷ rest) d = λ e. cc
  read_task-close (datagram bytes remote ∷ rest) d =
      elim (Option-cases (forward_or_new_connection send_ok bytes remote d).0) [
        | inl e ↦
            rw (e, read_task)
              (read_task-close rest (forward_or_new_connection send_ok bytes remote d).1)
        | inr (c, e) ↦
            elim (Bool-cases
              (accept c (forward_or_new_connection send_ok bytes remote d).1.queued)) [
                | inl t ↦
                    rw (e, read_task)
                      (rw t
                        (read_task-close rest (forward_or_new_connection send_ok bytes remote d).1))
                | inr f ↦ rw (e, read_task) (rw f (λ g. cc))
              ]
      ]
