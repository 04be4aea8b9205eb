-- ===== src/Shared/Nested.antt =====
-- A task that asks for a read guard while it has one, as a writer waits.
use uip.Base.{
  ℕ, suc, zero, ◌+◌, ◌≤◌, ◌<◌, ◌≡◌, refl, ap, sym, ◌∙◌, List, [], ◌∷◌, Option, none, some, Bool,
  true, arith, Option-cases, inl, inr,
}
use uip.Shared.{
  Op, read, write, drop_read, drop_write, Lock, Task, perform, move, step, run, task_at,
}

-- The read guards of all tasks.
unfoldable pub guards : List Task → ℕ
guards [] = 0
guards (t ∷ ts) = t.reads + guards ts

module _ (first : Bool) where
  perform_keeps :
      (op : Op) (rest : List Op) (l : Lock) (t : Task) (l' : Lock) (t' : Task)
      → perform first op rest l t ≡ some (l', t')
      → t.reads ≤ l.readers
      → (l'.readers + t.reads ≡ l.readers + t'.reads) × (0 < l.readers → l.waiting ≤ l'.waiting)
  unfolding perform
  perform_keeps read rest l t l' t' e h = ground arith
  perform_keeps write rest l t l' t' e h = ground arith
  perform_keeps drop_read rest l t l' t' e h = ground arith
  perform_keeps drop_write rest l t l' t' e h = ground arith

  -- A move is what is next performed.
  pub move_rest :
      (l : Lock) (t : Task) (ops : List Op)
      → t.rest ≡ ops
      → move first l t ≡ elim ops [ [] ↦ none | op ∷ rest ↦ perform first op rest l t ]
  unfolding move
  move_rest l t ops p =
      ap
        (λ x. elim x as (λ y. Option (Lock × Task)) [
          | [] ↦ none
          | op ∷ rest ↦ perform first op rest l t
        ])
        p

  move_keeps :
      (l : Lock) (t : Task) (l' : Lock) (t' : Task)
      → move first l t ≡ some (l', t')
      → t.reads ≤ l.readers
      → (l'.readers + t.reads ≡ l.readers + t'.reads) × (0 < l.readers → l.waiting ≤ l'.waiting)
  unfolding move
  move_keeps l t l' t' e h = go t.rest refl
    where
      go :
          (ops : List Op)
          → t.rest ≡ ops
          → (l'.readers + t.reads ≡ l.readers + t'.reads) × (0 < l.readers → l.waiting ≤ l'.waiting)
      go [] p = absurd (let e' = sym (move_rest l t [] p) ∙ e in cc)
      go (op ∷ rest) p = perform_keeps op rest l t l' t' (sym (move_rest l t (op ∷ rest) p) ∙ e) h

  -- The lock counts the guards of its tasks, `others` of which are not listed, and no waiting writer
  -- gets through while there is a read guard.
  step_keeps :
      (i others : ℕ) (l : Lock) (ts : List Task)
      → l.readers ≡ others + guards ts
      → let (l', ts') = step first i l ts in
        (l'.readers ≡ others + guards ts') × (0 < l.readers → l.waiting ≤ l'.waiting)
  unfolding step guards
  step_keeps i others l [] h = (h, λ p. omega arith)
  step_keeps zero others l (t ∷ ts) h = elim (Option-cases (move first l t)) [
    | inl e ↦ rw (e, step) (h, λ p. omega arith)
    | inr ((l', t'), e) ↦
        rw (e, step) (let k = move_keeps l t l' t' e (omega arith) in (omega (arith, k.0), k.1))
  ]
  step_keeps (suc i) others l (t ∷ ts) h =
      let k = step_keeps i (others + t.reads) l ts (omega arith) in (omega (arith, k.0), k.1)

  guards-task_at : (k : ℕ) (ts : List Task) (t : Task) → task_at k ts ≡ some t → t.reads ≤ guards ts
  unfolding guards
  guards-task_at k [] t e = cc
  guards-task_at zero (u ∷ ts) t e = ground arith
  guards-task_at (suc k) (u ∷ ts) t e = omega (arith, guards-task_at k ts t e)

  -- A task that is blocked stays as it is.
  step-task_at :
      (i k : ℕ) (l : Lock) (ts : List Task) (t : Task)
      → task_at k ts ≡ some t
      → move first l t ≡ none
      → task_at k (step first i l ts).1 ≡ some t
  unfolding step
  step-task_at i k l [] t e m = e
  step-task_at zero zero l (u ∷ ts) t e m =
      let p : u ≡ t = (ground arith) in
      let m' : move first l u ≡ none = rw p m in rw (m', step) (ap (λ x. some x) p)
  step-task_at zero (suc k) l (u ∷ ts) t e m = elim (Option-cases (move first l u)) [
    | inl f ↦ rw (f, step) e
    | inr (x, f) ↦ rw (f, step) e
  ]
  step-task_at (suc i) zero l (u ∷ ts) t e m = e
  step-task_at (suc i) (suc k) l (u ∷ ts) t e m = step-task_at i k l ts t e m

read_blocked :
    (l : Lock) (t : Task) (rest : List Op)
    → t.rest ≡ read ∷ rest
    → 0 < l.waiting
    → move true l t ≡ none
unfolding move perform
read_blocked l t rest e w = rw (e, move) (ground arith)

-- Where a waiting writer keeps others from reading: if a task asks for a read guard while it has one, and
-- another waits to write, then whatever the tasks do from then on, in whatever order, it never gets the
-- guard, and a writer waits forever.
pub run-blocked :
    (is : List ℕ) (k : ℕ) (l : Lock) (ts : List Task) (t : Task) (rest : List Op)
    → l.readers ≡ guards ts
    → task_at k ts ≡ some t
    → t.rest ≡ read ∷ rest
    → 0 < t.reads
    → 0 < l.waiting
    → (task_at k (run true is l ts).1 ≡ some t) × (0 < (run true is l ts).0.waiting)
unfolding run
run-blocked [] k l ts t rest c e r g w = (e, w)
run-blocked (i ∷ is) k l ts t rest c e r g w =
    let s = step true i l ts in
    let kept = step_keeps true i 0 l ts (omega (arith, c)) in
    let waits = kept.1 (omega (arith, c, guards-task_at true k ts t e, g)) in
    run-blocked is k s.0 s.1 t rest (omega (arith, kept.0))
      (step-task_at true i k l ts t e (read_blocked l t rest r w)) r g (omega (arith, waits, w))
