-- ===== src/Shared.antt =====
-- utils.rs: `Shared<T>` is a value behind a lock of the standard library, `std::sync::RwLock`. Tasks that
-- run on several threads take its guards and drop them; a thread that cannot have one blocks.
pub mod Nested
pub mod Orderly
pub mod Progress
use uip.Base.{
  ℕ, suc, zero, ◌+◌, ◌-◌, List, [], ◌∷◌, Option, none, some, Bool, true, false, not, ◌&&◌, ◌||◌,
  ◌==◌, if◌then◌else◌,
}

-- What a task does with the lock: it asks for a guard, and drops one that it has.
pub data Op : Type 0 where
  read write drop_read drop_write : Op

-- How many read guards there are, whether there is a write guard, and how many tasks are blocked in
-- `write`.
pub record Lock : Type 0 where
  pub readers : ℕ
  pub writer : Bool
  pub waiting : ℕ

-- The guards that a task has, whether it is blocked in `write`, and what it does next.
pub record Task : Type 0 where
  pub reads : ℕ
  pub writes : Bool
  pub waits : Bool
  pub rest : List Op

unfoldable pub new : Lock
new = record { readers = 0; writer = false; waiting = 0 }

abbrev pub task : List Op → Task
task ops = record { reads = 0; writes = false; waits = false; rest = ops }

-- The standard library leaves open whether a task that is blocked in `write` keeps others from reading.
module _ (writers_first : Bool) where
  -- `none` is a task that is blocked.
  unfoldable pub perform : Op → List Op → Lock → Task → Option (Lock × Task)
  perform read rest l t =
      if not l.writer && (not writers_first || l.waiting == 0)
      then some
          (record l { readers = suc l.readers }, record t { reads = suc t.reads; rest = rest })
      else none
  perform write rest l t =
      if not l.writer && l.readers == 0
      then some (
        record l { writer = true; waiting = if t.waits then l.waiting - 1 else l.waiting },
        record t { writes = true; waits = false; rest = rest },
      )
      else if t.waits
      then none
      else some (record l { waiting = suc l.waiting }, record t { waits = true })
  perform drop_read rest l t = elim t.reads [
    | zero ↦ none
    | suc n ↦ some (record l { readers = l.readers - 1 }, record t { reads = n; rest = rest })
  ]
  perform drop_write rest l t =
      if t.writes
      then some (record l { writer = false }, record t { writes = false; rest = rest })
      else none

  -- `none` is a task that is blocked or has ended.
  unfoldable pub move : Lock → Task → Option (Lock × Task)
  unfolding perform
  move l t = elim t.rest [ [] ↦ none | op ∷ rest ↦ perform op rest l t ]

  -- The task in the given place goes on, if it can.
  unfoldable pub step : ℕ → Lock → List Task → Lock × List Task
  unfolding move
  step i l [] = (l, [])
  step zero l (t ∷ ts) = elim (move l t) [ none ↦ (l, t ∷ ts) | some (l', t') ↦ (l', t' ∷ ts) ]
  step (suc i) l (t ∷ ts) = let (l', ts') = step i l ts in (l', t ∷ ts')

  -- A schedule is the places of the tasks that go on.
  unfoldable pub run : List ℕ → Lock → List Task → Lock × List Task
  unfolding step
  run [] l ts = (l, ts)
  run (i ∷ is) l ts = let (l', ts') = step i l ts in run is l' ts'

-- The task in the given place.
abbrev pub task_at : ℕ → List Task → Option Task
task_at i [] = none
task_at zero (t ∷ ts) = some t
task_at (suc i) (t ∷ ts) = task_at i ts
