-- ===== src/Shared/Orderly.antt =====
-- Tasks that have one guard at a time, and what a lock counts of them.
use uip.Base.{
  ℕ, suc, zero, ◌+◌, ◌≤◌, ◌≡◌, refl, List, [], ◌∷◌, map, Option, none, some, Bool, true, false, not,
  ◌&&◌, ◌||◌, ◌==◌, All, arith, Option-cases, Bool-cases, inl, inr,
}
use uip.Shared.{
  Op, read, write, drop_read, drop_write, Lock, Task, task, new, perform, move, step, run,
}

-- Each guard is dropped before the next is asked for.
pub data IsFlat : List Op → Type 0 where
  ended : IsFlat []
  reads : {ops : List Op} → IsFlat ops → IsFlat (read ∷ drop_read ∷ ops)
  writes : {ops : List Op} → IsFlat ops → IsFlat (write ∷ drop_write ∷ ops)

pub data IsOrderly : Task → Type 0 where
  idle :
      (ops : List Op)
      → IsFlat ops
      → IsOrderly (record { reads = 0; writes = false; waits = false; rest = ops })
  waiting :
      (ops : List Op)
      → IsFlat ops
      → IsOrderly
          (record { reads = 0; writes = false; waits = true; rest = write ∷ drop_write ∷ ops })
  reading :
      (ops : List Op)
      → IsFlat ops
      → IsOrderly (record { reads = 1; writes = false; waits = false; rest = drop_read ∷ ops })
  writing :
      (ops : List Op)
      → IsFlat ops
      → IsOrderly (record { reads = 0; writes = true; waits = false; rest = drop_write ∷ ops })

abbrev pub count : Bool → ℕ
count true = 1
count false = 0

abbrev pub readers : List Task → ℕ
readers [] = 0
readers (t ∷ ts) = t.reads + readers ts

abbrev pub writers : List Task → ℕ
writers [] = 0
writers (t ∷ ts) = count t.writes + writers ts

abbrev pub waiters : List Task → ℕ
waiters [] = 0
waiters (t ∷ ts) = count t.waits + waiters ts

-- The lock counts the guards and the waiting writers of its tasks, and of others that are not listed.
pub record Counts (r w v : ℕ) (l : Lock) (ts : List Task) : Type 0 where
  pub reads : l.readers ≡ r + readers ts
  pub writes : count l.writer ≡ w + writers ts
  pub waits : l.waiting ≡ v + waiters ts

module _ (first : Bool) where
  -- What a move makes of an orderly task.
  abbrev Kept : Lock → Task → Option (Lock × Task) → Type 0
  Kept l t none = Unit {0}
  Kept l t (some (l', t')) =
      IsOrderly t'
      × (l'.readers + t.reads ≡ l.readers + t'.reads)
      × (count l'.writer + count t.writes ≡ count l.writer + count t'.writes)
      × (l'.waiting + count t.waits ≡ l.waiting + count t'.waits)

  move-Kept :
      (l : Lock) (t : Task)
      → IsOrderly t
      → t.reads ≤ l.readers
      → count t.writes ≤ count l.writer
      → count t.waits ≤ l.waiting
      → Kept l t (move first l t)
  unfolding move perform
  move-Kept l _ (idle _ ended) h k v = tt
  move-Kept l _ (idle _ (reads {ops} f)) h k v =
      elim (Bool-cases (not l.writer && (not first || l.waiting == 0))) [
        | inl c ↦ rw c (reading ops f, omega arith, refl, refl)
        | inr c ↦ rw c tt
      ]
  move-Kept l _ (idle _ (writes {ops} f)) h k v =
      elim (Bool-cases (not l.writer && l.readers == 0)) [
        | inl c ↦ rw c (writing ops f, refl, ground (arith, c), refl)
        | inr c ↦ rw c (waiting ops f, refl, refl, omega arith)
      ]
  move-Kept l _ (waiting ops f) h k v = elim (Bool-cases (not l.writer && l.readers == 0)) [
    | inl c ↦ rw c (writing ops f, refl, ground (arith, c), omega arith)
    | inr c ↦ rw c tt
  ]
  move-Kept l _ (reading ops f) h k v = (idle ops f, omega arith, refl, refl)
  move-Kept l _ (writing ops f) h k v = (idle ops f, refl, ground (arith, k), refl)

  pub step-Counts :
      (i r w v : ℕ) (l : Lock) (ts : List Task)
      → All IsOrderly ts
      → Counts r w v l ts
      → let (l', ts') = step first i l ts in All IsOrderly ts' × Counts r w v l' ts'
  unfolding step
  step-Counts i r w v l [] o c = (o, c)
  step-Counts zero r w v l (t ∷ ts) (o, os) c =
      let cr = c.reads in
      let cw = c.writes in
      let cv = c.waits in
      let kept = move-Kept l t o (omega arith) (omega arith) (omega arith) in
      elim (Option-cases (move first l t)) [
        | inl e ↦ rw (e, step) ((o, os), c)
        | inr (x, e) ↦
            let (o', er, ew, ev) : Kept l t (some x) = rw e at kept in
            rw (e, step)
              ((o', os), record { reads = omega arith; writes = omega arith; waits = omega arith })
      ]
  step-Counts (suc i) r w v l (t ∷ ts) (o, os) c =
      let cr = c.reads in
      let cw = c.writes in
      let cv = c.waits in
      let (os', c') =
        step-Counts i (r + t.reads) (w + count t.writes) (v + count t.waits) l ts os
          (record { reads = omega arith; writes = omega arith; waits = omega arith }) in
      let cr' = c'.reads in
      let cw' = c'.writes in
      let cv' = c'.waits in
      ((o, os'), record { reads = omega arith; writes = omega arith; waits = omega arith })

  pub run-Counts :
      (is : List ℕ) (l : Lock) (ts : List Task)
      → All IsOrderly ts
      → Counts 0 0 0 l ts
      → let (l', ts') = run first is l ts in All IsOrderly ts' × Counts 0 0 0 l' ts'
  unfolding run
  run-Counts [] l ts o c = (o, c)
  run-Counts (i ∷ is) l ts o c =
      let (o', c') = step-Counts i 0 0 0 l ts o c in
      run-Counts is (step first i l ts).0 (step first i l ts).1 o' c'

pub fresh :
    (programs : List (List Op))
    → All IsFlat programs
    → All IsOrderly (map task programs) × Counts 0 0 0 new (map task programs)
unfolding new
fresh [] h = (tt, record { reads = refl; writes = refl; waits = refl })
fresh (p ∷ ps) (f, fs) =
    let (o, c) = fresh ps fs in
    let cr = c.reads in
    let cw = c.writes in
    let cv = c.waits in
    ((idle p f, o), record { reads = omega arith; writes = omega arith; waits = omega arith })
