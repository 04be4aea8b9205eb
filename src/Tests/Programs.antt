-- ===== src/Tests/Programs.antt =====
-- Two local programs at the control socket.
use uip.Base.{◌≡◌, refl, [], ◌∷◌, some, true, ok}
use uip.Base.Map
use uip.Base.Map.{get-insert_self}
use uip.Tests.Fixtures.{bob}
use uip.Unix.Codec.{bind, data_frame}
use uip.Unix.State.{Env, port_key}
use uip.Unix.State.Programs.{
  System, start, opened, read_round, delivered, Reach, initial, next, accepts, opens, reads,
  delivers,
}
use uip.Unix.State.Programs.Registered.{AllAllowed, events, Reach-AllAllowed}

abbrev pub env : Env
env = record { upstream_open = λ t. true; sender_open = λ s t. true }

abbrev pub awaiting : System → System
awaiting s = record s { accepting = true }

-- Both programs bind port 80, a frame comes for it, and the second one sends.
abbrev first : System
first = opened (some (ok (bind 80))) (awaiting (start []))

abbrev second : System
second = opened (some (ok (bind 80))) (awaiting first)

abbrev reached : System
reached = delivered env bob 90 80 (1 ∷ []) second

abbrev replied : System
replied = read_round env 1 80 (some (ok (data_frame bob 90 (2 ∷ [])))) reached

is_read : Map.get 1 reached.readers ≡ some 80
unfolding delivered opened start
is_read = get-insert_self 1 80 first.readers

first-Reach : Reach env (start []) first
unfolding start
first-Reach = next (next initial (accepts refl)) (opens (some (ok (bind 80))) refl)

replied-Reach : Reach env (start []) replied
unfolding opened
replied-Reach =
    next
      (next (next (next first-Reach (accepts refl)) (opens (some (ok (bind 80))) refl))
        (delivers bob 90 80 (1 ∷ [])))
      (reads 1 80 (some (ok (data_frame bob 90 (2 ∷ [])))) is_read)

Reach-AllAllowed_example : AllAllowed replied.log × (replied.world.trace ≡ events env replied.log)
Reach-AllAllowed_example = Reach-AllAllowed env [] replied replied-Reach
