-- ===== src/Change/Debounce/Polls.antt =====
-- When `poll_next` returns, how far apart its items are, and which items it drops.
use uip.Base.{
  ℕ, zero, suc, ◌+◌, ◌-◌, ◌≤◌, ◌<◌, ◌≡◌, refl, sym, ap, ◌∙◌, Option, none, some, ltb, ltb→lt,
  ltb_of_le, List, [], ◌∷◌, arith, Bool-cases, inl, inr, ◌⊎◌,
}
use uip.Change.Debounce.{Poll, ready, pending, Stream, Debounce, discard, poll_next}

module _ {I : Type 0} (stream : Stream I) where
  open stream use {State, poll}

  -- The stream has `n` items (or ends) at hand, and then is pending, in state `t`.
  pub data Pends : ℕ → State → State → Type 0 where
    now : {s t : State} → poll s ≡ (pending, t) → Pends 0 s t
    later :
        {n : ℕ} {s u t : State} {x : Option I}
        → poll s ≡ (ready x, u)
        → Pends n u t
        → Pends (suc n) s t

  discard_ready :
      (fuel : ℕ) (s u : State) (x : Option I)
      → poll s ≡ (ready x, u)
      → discard stream (suc fuel) s ≡ discard stream fuel u
  unfolding discard
  discard_ready fuel s u x e = rw (ap (λ r. r.0) e, discard) (rw (ap (λ r. r.1) e))

  discard_pending :
      (fuel : ℕ) (s t : State) → poll s ≡ (pending, t) → discard stream (suc fuel) s ≡ some t
  unfolding discard
  discard_pending fuel s t e = rw (ap (λ r. r.0) e, discard) (rw (ap (λ r. r.1) e))

  discard-Pends :
      (n fuel : ℕ) (s t : State) → Pends n s t → n < fuel → discard stream fuel s ≡ some t
  discard-Pends n zero s t p h = absurd (omega arith)
  discard-Pends _ (suc fuel) s t (now e) h = discard_pending fuel s t e
  discard-Pends _ (suc fuel) s t (later {n} {s = _} {u} e p) h =
      discard_ready fuel s u _ e ∙ discard-Pends n fuel u t p (omega arith)

  -- Within the window, with `n` items at hand and more fuel than that, `poll_next` returns `Pending`,
  -- has dropped all of them, and keeps its timestamp.
  pub poll_next_within :
      (n fuel t t' : ℕ) (d : Debounce stream) (s : State)
      → t - d.last_timestamp ≤ d.window
      → Pends n d.inner s
      → n < fuel
      → poll_next stream fuel t t' d ≡ some (pending, record d { inner = s })
  unfolding poll_next
  poll_next_within n fuel t t' d s h p f =
      rw (ltb_of_le d.window (t - d.last_timestamp) h) (rw (discard-Pends n fuel d.inner s p f))

  -- Within the window, on a stream that has ended and stays so, the loop never ends: no fuel is enough.
  pub poll_next_ended :
      (fuel t t' : ℕ) (d : Debounce stream)
      → t - d.last_timestamp ≤ d.window
      → poll d.inner ≡ (ready none, d.inner)
      → poll_next stream fuel t t' d ≡ none
  unfolding poll_next
  poll_next_ended fuel t t' d h e =
      rw (ltb_of_le d.window (t - d.last_timestamp) h) (rw (forever fuel))
    where
      forever : (fuel : ℕ) → discard stream fuel d.inner ≡ none
      forever zero = unfold discard in refl
      forever (suc fuel) = discard_ready fuel d.inner d.inner none e ∙ forever fuel

  -- The clock at the two readings of each poll, and the times at which an item was returned; the run
  -- stops where fuel runs out.
  pub yields : ℕ → List (ℕ × ℕ) → Debounce stream → List ℕ
  yields fuel [] d = []
  yields fuel ((t, t') ∷ clock) d = elim (poll_next stream fuel t t' d) [
    | none ↦ []
    | some (ready _, d') ↦ t' ∷ yields fuel clock d'
    | some (pending, d') ↦ yields fuel clock d'
  ]

  -- Each time is more than `window` after the one before, and the first after `last`.
  abbrev pub Spaced : ℕ → ℕ → List ℕ → Type 0
  Spaced window last [] = Unit {0}
  Spaced window last (t ∷ ts) = (last + window < t) × Spaced window t ts

  abbrev pub Forward : List (ℕ × ℕ) → Type 0
  Forward [] = Unit {0}
  Forward ((t, t') ∷ clock) = (t ≤ t') × Forward clock

  poll_next_ready :
      (fuel t t' : ℕ) (d d' : Debounce stream) (x : Option I)
      → poll_next stream fuel t t' d ≡ some (ready x, d')
      → (d.last_timestamp + d.window < t) × (d'.last_timestamp ≡ t') × (d'.window ≡ d.window)
  unfolding poll_next
  poll_next_ready fuel t t' d d' x e = elim (Bool-cases (ltb d.window (t - d.last_timestamp))) [
    | inl h ↦
        let p = rw (h, poll_next) at e in
        let g = ltb→lt d.window (t - d.last_timestamp) h in
        let l : t' ≡ d'.last_timestamp = cc in
        let w : d.window ≡ d'.window = cc in (omega arith, sym l, sym w)
    | inr h ↦ absurd (dropped (discard stream fuel d.inner) refl (rw (h, poll_next) at e))
  ]
    where
      dropped :
          (o : Option State)
          → discard stream fuel d.inner ≡ o
          → ¬ (
              ◌≡◌ {A = Option (Poll (Option I) × Debounce stream)}
                (elim (discard stream fuel d.inner) [
                  | none ↦ none
                  | some s ↦ some (pending, record d { inner = s })
                ])
                (some (ready x, d')))
      dropped none q r = let r' = rw q at r in cc
      dropped (some s) q r = let r' = rw q at r in cc

  poll_next_pending :
      (fuel t t' : ℕ) (d d' : Debounce stream)
      → poll_next stream fuel t t' d ≡ some (pending, d')
      → ((d'.last_timestamp ≡ d.last_timestamp)
          ⊎ ((d'.last_timestamp ≡ t') × (d.last_timestamp + d.window < t)))
        × (d'.window ≡ d.window)
  unfolding poll_next
  poll_next_pending fuel t t' d d' e = elim (Bool-cases (ltb d.window (t - d.last_timestamp))) [
    | inl h ↦
        let p = rw (h, poll_next) at e in
        let g = ltb→lt d.window (t - d.last_timestamp) h in
        let l : t' ≡ d'.last_timestamp = cc in
        let w : d.window ≡ d'.window = cc in (inr (sym l, omega arith), sym w)
    | inr h ↦ kept (discard stream fuel d.inner) refl (rw (h, poll_next) at e)
  ]
    where
      kept :
          (o : Option State)
          → discard stream fuel d.inner ≡ o
          → ◌≡◌ {A = Option (Poll (Option I) × Debounce stream)}
              (elim (discard stream fuel d.inner) [
                | none ↦ none
                | some s ↦ some (pending, record d { inner = s })
              ])
              (some (pending, d'))
          → ((d'.last_timestamp ≡ d.last_timestamp)
              ⊎ ((d'.last_timestamp ≡ t') × (d.last_timestamp + d.window < t)))
            × (d'.window ≡ d.window)
      kept none q r = let r' = rw q at r in cc
      kept (some s) q r =
          let r' = rw q at r in
          let l : d.last_timestamp ≡ d'.last_timestamp = cc in
          let w : d.window ≡ d'.window = cc in (inl (sym l), sym w)

  Spaced-le : (window a b : ℕ) (ts : List ℕ) → a ≤ b → Spaced window b ts → Spaced window a ts
  Spaced-le window a b [] h s = tt
  Spaced-le window a b (t ∷ ts) h s = (omega arith, s.1)

  Spaced-cast : {m n a b : ℕ} (ts : List ℕ) → m ≡ n → a ≡ b → Spaced m a ts → Spaced n b ts
  Spaced-cast ts p q s = rw (sym p) (rw (sym q) s)

  round :
      (fuel t t' : ℕ) (clock : List (ℕ × ℕ)) (d : Debounce stream)
      → t ≤ t'
      → ((d' : Debounce stream) → Spaced d'.window d'.last_timestamp (yields fuel clock d'))
      → Spaced d.window d.last_timestamp (yields fuel ((t, t') ∷ clock) d)
  unfolding yields
  round fuel t t' clock d h ih = go (poll_next stream fuel t t' d) refl
    where
      go :
          (o : Option (Poll (Option I) × Debounce stream))
          → poll_next stream fuel t t' d ≡ o
          → Spaced d.window d.last_timestamp (yields fuel ((t, t') ∷ clock) d)
      go none e = rw (e, yields) tt
      go (some (ready x, d')) e =
          let (before, last, same) = poll_next_ready fuel t t' d d' x e in
          rw (e, yields) (omega arith, Spaced-cast (yields fuel clock d') same last (ih d'))
      go (some (pending, d')) e =
          let (last, same) = poll_next_pending fuel t t' d d' e in
          rw (e, yields)
            (Spaced-le d.window d.last_timestamp d'.last_timestamp (yields fuel clock d')
              (earlier last) (Spaced-cast (yields fuel clock d') same refl (ih d')))
        where
          earlier :
              ((d'.last_timestamp ≡ d.last_timestamp)
                ⊎ ((d'.last_timestamp ≡ t') × (d.last_timestamp + d.window < t)))
              → d.last_timestamp ≤ d'.last_timestamp
          earlier (inl p) = omega arith
          earlier (inr p) = omega arith

  -- If the clock does not go back within a poll, the items that come out are more than the window apart,
  -- and the first comes more than the window after the timestamp.
  pub yields-Spaced :
      (fuel : ℕ) (clock : List (ℕ × ℕ)) (d : Debounce stream)
      → Forward clock
      → Spaced d.window d.last_timestamp (yields fuel clock d)
  unfolding yields
  yields-Spaced fuel [] d h = tt
  yields-Spaced fuel ((t, t') ∷ clock) d h =
      round fuel t t' clock d h.0 (λ d'. yields-Spaced fuel clock d' h.1)
