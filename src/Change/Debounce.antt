-- ===== src/Change/Debounce.antt =====
-- network/change/debounce.rs. The inner stream is a parameter; the clock is an argument, and times are
-- numbers of milliseconds.
pub mod Polls
use uip.Base.{ℕ, zero, suc, ◌-◌, Option, none, some, Bool, ltb, if◌then◌else◌, List, [], ◌∷◌}

pub data Poll {ℓ} (A : Type ℓ) : Type ℓ where
  ready : A → Poll A
  pending : Poll A

-- `Stream::poll_next` of the inner stream, with the stream after the poll.
pub record Stream (I : Type 0) : Type 1 where
  pub State : Type 0
  pub poll : State → Poll (Option I) × State

module _ {I : Type 0} (stream : Stream I) where
  open stream use {State, poll}

  pub record Debounce : Type 0 where
    pub window : ℕ
    pub last_timestamp : ℕ
    pub inner : State

  unfoldable pub debounce : State → ℕ → ℕ → Debounce
  debounce inner duration now = record { window = duration; last_timestamp = now; inner = inner }

  -- The loop of the `else` branch; `none` means that the fuel ran out.
  unfoldable pub discard : ℕ → State → Option State
  discard zero s = none
  discard (suc fuel) s =
      let (p, s') = poll s in
      let rest = discard fuel s' in elim p [ ready _ ↦ rest | pending ↦ some s' ]

  -- `now` is the clock at `elapsed()`, `now'` at the assignment to `last_timestamp`.
  unfoldable pub poll_next : ℕ → ℕ → ℕ → Debounce → Option (Poll (Option I) × Debounce)
  poll_next fuel now now' d =
      if ltb d.window (now - d.last_timestamp)
      then (let (p, s) = poll d.inner in some (p, record d { last_timestamp = now'; inner = s }))
      else elim (discard fuel d.inner) [
        | none ↦ none
        | some s ↦ some (pending, record d { inner = s })
      ]
