-- ===== src/Hosts/Near.antt =====
-- The sending daemon: what it passes on stays passed on, and comes from its programs.
use uip.Base.{
  ℕ, ◌≡◌, refl, sym, ap, ◌∙◌, List, [], ◌∷◌, ◌++◌, append-nil, none, some, Bool, true, false, ok,
  err, Elem, Elem-append, Elem-cons, Elem-head, not-Elem-nil, there, subst, Option-cases, inl, inr,
  if_pos, if_neg,
}
use uip.Base.Map
use uip.Base.Map.{eq?}
use uip.Data.Identifier.{Identifier, identifier_key}
use uip.Hosts.{Content, passed_on}
use uip.Unix.Codec.{bind, data_frame, error}
use uip.Unix.State.{Env, Event, upstream_sent, Item, Sender, port_key, deliver_frame}
use uip.Unix.State.Programs.{
  Label, bound, sent, reached, unbound, System, opened, read_round, delivered, Step, accepts, opens,
  reads, delivers,
}
use uip.Unix.State.Programs.Registered.{AllAllowed, events}

abbrev Grows : Identifier → List Event → List Event → Type 0
Grows host old new = (more : List Content) × (passed_on host new ≡ passed_on host old ++ more)

same : (host : Identifier) (t : List Event) → Grows host t t
same host t = ([], sym (append-nil (passed_on host t)))

module _ (host : Identifier) where
  sent-Grows :
      (id : Identifier) (src dst : ℕ) (p : List ℕ) (b : Bool) (t : List Event)
      → Grows host t (upstream_sent id src dst p b ∷ t)
  sent-Grows id src dst p true t = elim (eq? id host) [
    | yes e ↦ (record { src_port = src; dst_port = dst; payload = p } ∷ [], rw (if_pos _ e) refl)
    | no n ↦ rw (if_neg _ n) (same host t)
  ]
  sent-Grows id src dst p false t = same host t

  opened_trace : (item : Item) (s : System) → (opened item s).world.trace ≡ s.world.trace
  unfolding opened
  opened_trace none s = refl
  opened_trace (some (err e)) s = refl
  opened_trace (some (ok (bind q))) s = refl
  opened_trace (some (ok (data_frame h d p))) s = refl
  opened_trace (some (ok (error c))) s = refl

  module _ (env : Env) where
    read_round-Grows :
        (t : Sender) (port : ℕ) (item : Item) (s : System)
        → Grows host s.world.trace (read_round env t port item s).world.trace
    unfolding read_round
    read_round-Grows t port none s = same host s.world.trace
    read_round-Grows t port (some (err e)) s = same host s.world.trace
    read_round-Grows t port (some (ok (bind q))) s = same host s.world.trace
    read_round-Grows t port (some (ok (data_frame h d p))) s =
        sent-Grows h port d p (env.upstream_open s.world.trace) s.world.trace
    read_round-Grows t port (some (ok (error c))) s = same host s.world.trace

    delivered-Grows :
        (from : Identifier) (p q : ℕ) (payload : List ℕ) (s : System)
        → Grows host s.world.trace (delivered env from p q payload s).world.trace
    unfolding delivered
    delivered-Grows from p q payload s = elim (Option-cases (Map.get q s.world.state.connections)) [
      | inl e ↦ rw (e, deliver_frame, delivered) (same host s.world.trace)
      | inr (t, e) ↦ rw (e, deliver_frame, delivered) (same host s.world.trace)
    ]

    pub Step-passed_on :
        {s t : System}
        → Step env s t
        → (more : List Content) × (passed_on host t.world.trace
            ≡ passed_on host s.world.trace ++ more)
    Step-passed_on {s} (accepts e) = same host s.world.trace
    Step-passed_on {s} (opens item e) = (
      [],
      ap (passed_on host) (opened_trace item s) ∙ sym (append-nil (passed_on host s.world.trace)),
    )
    Step-passed_on {s} (reads t port item e) = read_round-Grows t port item s
    Step-passed_on {s} (delivers from p q payload) = delivered-Grows from p q payload s

  -- A program sent it, from the port that this program had bound.
  abbrev pub Sent : Content → List Label → Type 0
  Sent m log =
      (t : Sender) × Elem (sent t host m.src_port m.dst_port m.payload) log
      × Elem (bound t m.src_port) log

  later : (m : Content) (l : Label) (log : List Label) → Sent m log → Sent m (l ∷ log)
  later m l log (t, a, b) = (t, there a, there b)

  sent_now :
      (env : Env) (m : Content) (t : Sender) (id : Identifier) (q d : ℕ) (p : List ℕ) (b : Bool)
      (log : List Label) (old : List Event)
      → Elem (bound t q) log
      → (Elem m (passed_on host old) → Sent m log)
      → Elem m (passed_on host (upstream_sent id q d p b ∷ old))
      → Sent m (sent t id q d p ∷ log)
  sent_now env m t id q d p false log old h ih e = later m (sent t id q d p) log (ih e)
  sent_now env m t id q d p true log old h ih e = elim (eq? id host) [
    | no n ↦ let e' = rw (if_neg (eq? id host) n) at e in later m (sent t id q d p) log (ih e')
    | yes y ↦
        let e' = rw (if_pos (eq? id host) y) at e in
        elim (Elem-append (passed_on host old)
          (record { src_port = q; dst_port = d; payload = p } ∷ []) e') [
            | inl old_e ↦ later m (sent t id q d p) log (ih old_e)
            | inr new_e ↦ elim (Elem-cons new_e) [
              | inr none_e ↦ absurd (not-Elem-nil none_e)
              | inl f ↦ (
                t,
                Elem-head (rw (f, y) refl),
                there (subst (λ (x : Content). Elem (bound t x.src_port) log) (sym f) h),
              )
            ]
          ]
  ]

  pub passed_on-Sent :
      (env : Env) (log : List Label) (m : Content)
      → AllAllowed log
      → Elem m (passed_on host (events env log))
      → Sent m log
  passed_on-Sent env [] m a e = absurd (not-Elem-nil e)
  passed_on-Sent env (bound t q ∷ log) m a e =
      later m (bound t q) log (passed_on-Sent env log m a.1 e)
  passed_on-Sent env (sent t id q d p ∷ log) m a e =
      sent_now env m t id q d p (env.upstream_open (events env log)) log (events env log) a.0
        (passed_on-Sent env log m a.1) e
  passed_on-Sent env (reached t q id p b ∷ log) m a e =
      later m (reached t q id p b) log (passed_on-Sent env log m a.1 e)
  passed_on-Sent env (unbound q id p b ∷ log) m a e =
      later m (unbound q id p b) log (passed_on-Sent env log m a.1 e)
