-- ===== src/Shared/Progress.antt =====
-- Tasks that have one guard at a time can always end.
use uip.Base.{
  ℕ, suc, zero, ◌+◌, ◌*◌, length, ◌-◌, ◌<◌, ◌≡◌, refl, ap, sym, ◌∙◌, List, [], ◌∷◌, ◌++◌, map, some,
  Bool, true, false, not, if◌then◌else◌, All, arith, inl, inr, ◌⊎◌,
}
use uip.Shared.{
  Op, read, write, drop_read, drop_write, Lock, Task, task, new, perform, move, step, run, task_at,
}
use uip.Shared.Nested.{move_rest}
use uip.Shared.Orderly.{
  step-Counts, IsFlat, ended, reads, writes, IsOrderly, idle, waiting, reading, writing, count,
  readers, writers, waiters, Counts, run-Counts, fresh,
}

abbrev pub HasEnded : Task → Type 0
HasEnded t = t.rest ≡ []

-- How much a task still does, with getting into the queue of writers.
abbrev left : Task → ℕ
left t = 2 * length t.rest + count (not t.waits)

abbrev total : List Task → ℕ
total [] = 0
total (t ∷ ts) = left t + total ts

module _ (first : Bool) where
  -- Some task can go on.
  abbrev pub CanMove : Lock → List Task → Type 0
  CanMove l ts =
      (i : ℕ) × (t : Task) × (x : Lock × Task) × (task_at i ts ≡ some t) × (move first l t ≡ some x)

  perform-left :
      (op : Op) (rest : List Op) (l : Lock) (t : Task) (l' : Lock) (t' : Task)
      → length t.rest ≡ suc (length rest)
      → perform first op rest l t ≡ some (l', t')
      → left t' < left t
  unfolding perform
  perform-left read rest l t l' t' p e = ground arith
  perform-left write rest l t l' t' p e = ground arith
  perform-left drop_read rest l t l' t' p e = ground arith
  perform-left drop_write rest l t l' t' p e = ground arith

  move-left : (l : Lock) (t : Task) (x : Lock × Task) → move first l t ≡ some x → left x.1 < left t
  move-left l t (l', t') e = go t.rest refl
    where
      go : (ops : List Op) → t.rest ≡ ops → left t' < left t
      go [] p = absurd (let e' = sym (move_rest first l t [] p) ∙ e in cc)
      go (op ∷ rest) p =
          perform-left op rest l t l' t' (ap length p) (sym (move_rest first l t (op ∷ rest) p) ∙ e)

  step-total :
      (i : ℕ) (l : Lock) (ts : List Task) (t : Task) (x : Lock × Task)
      → task_at i ts ≡ some t
      → move first l t ≡ some x
      → total (step first i l ts).1 < total ts
  unfolding step
  step-total i l [] t x e m = cc
  step-total zero l (u ∷ ts) t x e m =
      let p : u ≡ t = (ground arith) in
      let m' : move first l u ≡ some x = rw p m in rw (m', step) (omega (arith, move-left l u x m'))
  step-total (suc i) l (u ∷ ts) t x e m = omega (arith, step-total i l ts t x e m)

  later : (l : Lock) (t : Task) (ts : List Task) → CanMove l ts → CanMove l (t ∷ ts)
  later l t ts (i, u, x, e, m) = (suc i, u, x, e, m)

  -- A guard can be dropped.
  held :
      (l : Lock) (ts : List Task)
      → All IsOrderly ts
      → CanMove l ts ⊎ ((readers ts ≡ 0) × (writers ts ≡ 0))
  unfolding move perform
  held l [] o = inr (refl, refl)
  held l (_ ∷ ts) (reading ops f, os) = inl (zero, _, _, refl, refl)
  held l (_ ∷ ts) (writing ops f, os) = inl (zero, _, _, refl, refl)
  held l (t ∷ ts) (idle ops f, os) = elim (held l ts os) [
    | inl c ↦ inl (later l t ts c)
    | inr (a, b) ↦ inr (omega arith, omega arith)
  ]
  held l (t ∷ ts) (waiting ops f, os) = elim (held l ts os) [
    | inl c ↦ inl (later l t ts c)
    | inr (a, b) ↦ inr (omega arith, omega arith)
  ]

  granted :
      (l : Lock) (t : Task) (rest : List Op)
      → l.readers ≡ 0
      → l.writer ≡ false
      → perform first write rest l t
        ≡ some (
          record l { writer = true; waiting = if t.waits then l.waiting - 1 else l.waiting },
          record t { writes = true; waits = false; rest = rest },
        )
  unfolding perform
  granted l t rest r w = ground arith

  shared :
      (l : Lock) (t : Task) (rest : List Op)
      → l.waiting ≡ 0
      → l.writer ≡ false
      → perform first read rest l t
        ≡ some (record l { readers = suc l.readers }, record t { reads = suc t.reads; rest = rest })
  unfolding perform
  shared l t rest v w = ground arith

  -- A waiting writer can have a guard that nobody has.
  waited :
      (l : Lock) (ts : List Task)
      → l.readers ≡ 0
      → l.writer ≡ false
      → All IsOrderly ts
      → CanMove l ts ⊎ ((waiters ts ≡ 0) × (readers ts ≡ 0))
  unfolding move perform
  waited l [] r w o = inr (refl, refl)
  waited l (t ∷ ts) r w (waiting ops f, os) =
      inl (zero, t, _, refl, granted l t (drop_write ∷ ops) r w)
  waited l (_ ∷ ts) r w (reading ops f, os) = inl (zero, _, _, refl, refl)
  waited l (_ ∷ ts) r w (writing ops f, os) = inl (zero, _, _, refl, refl)
  waited l (t ∷ ts) r w (idle ops f, os) = elim (waited l ts r w os) [
    | inl c ↦ inl (later l t ts c)
    | inr (a, b) ↦ inr (omega arith, omega arith)
  ]

  -- With nobody waiting and no guard out, whoever has not ended can go on.
  started :
      (l : Lock) (ts : List Task)
      → l.readers ≡ 0
      → l.writer ≡ false
      → l.waiting ≡ 0
      → All IsOrderly ts
      → CanMove l ts ⊎ All HasEnded ts
  unfolding move
  started l [] r w v o = inr tt
  started l (t ∷ ts) r w v (idle _ (reads {ops} f), os) =
      inl (zero, t, _, refl, shared l t (drop_read ∷ ops) v w)
  started l (t ∷ ts) r w v (idle _ (writes {ops} f), os) =
      inl (zero, t, _, refl, granted l t (drop_write ∷ ops) r w)
  started l (t ∷ ts) r w v (idle _ ended, os) = elim (started l ts r w v os) [
    | inl c ↦ inl (later l t ts c)
    | inr a ↦ inr (refl, a)
  ]
  started l (t ∷ ts) r w v (waiting ops f, os) =
      inl (zero, t, _, refl, granted l t (drop_write ∷ ops) r w)
  started l (t ∷ ts) r w v (reading ops f, os) = inl (zero, t, _, refl, unfold perform in refl)
  started l (t ∷ ts) r w v (writing ops f, os) = inl (zero, t, _, refl, unfold perform in refl)

  goes_on :
      (l : Lock) (ts : List Task)
      → All IsOrderly ts
      → Counts 0 0 0 l ts
      → CanMove l ts ⊎ All HasEnded ts
  goes_on l ts o c =
      let cr = c.reads in
      let cw = c.writes in
      let cv = c.waits in
      elim (held l ts o) [
        | inl m ↦ inl m
        | inr (hr, hw) ↦
            let r : l.readers ≡ 0 = omega arith in
            let w : l.writer ≡ false = ground arith in
            elim (waited l ts r w o) [
              | inl m ↦ inl m
              | inr (hv, _) ↦ started l ts r w (omega arith) o
            ]
      ]

  run-append :
      (is js : List ℕ) (l : Lock) (ts : List Task)
      → run first (is ++ js) l ts ≡ run first js (run first is l ts).0 (run first is l ts).1
  unfolding run
  run-append [] js l ts = refl
  run-append (i ∷ is) js l ts = run-append is js (step first i l ts).0 (step first i l ts).1

  -- `n` moves are enough.
  ends :
      (n : ℕ) (l : Lock) (ts : List Task)
      → total ts < n
      → All IsOrderly ts
      → Counts 0 0 0 l ts
      → (is : List ℕ) × All HasEnded (run first is l ts).1
  unfolding run
  ends zero l ts h o c = absurd (omega arith)
  ends (suc n) l ts h o c = elim (goes_on l ts o c) [
    | inr a ↦ ([], a)
    | inl (i, t, x, e, m) ↦
        let (o', c') = step-Counts first i 0 0 0 l ts o c in
        let (is, a) =
          ends n (step first i l ts).0 (step first i l ts).1
            (omega (arith, step-total i l ts t x e m)) o' c' in
        (i ∷ is, a)
  ]

  -- Tasks that each drop a guard before they ask for the next never block each other for good, whether
  -- or not a waiting writer keeps others from reading: after any schedule there is a further one after
  -- which all have ended.
  pub run-HasEnded :
      (programs : List (List Op)) (is : List ℕ)
      → All IsFlat programs
      → (js : List ℕ) × All HasEnded (run first (is ++ js) new (map task programs)).1
  run-HasEnded programs is h =
      let (o, c) = fresh programs h in
      let (o', c') = run-Counts first is new (map task programs) o c in
      let (l, ts) = run first is new (map task programs) in
      let (js, a) = ends (suc (total ts)) l ts (omega arith) o' c' in
      (js, rw (run-append is js new (map task programs)) a)
