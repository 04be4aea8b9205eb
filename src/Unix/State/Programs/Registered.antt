-- ===== src/Unix/State/Programs/Registered.antt =====
-- However the tasks interleave, a port belongs to the program that bound it last, and a program sends from
-- the port that it bound.
use uip.Base.{
  ℕ, suc, ◌<◌, ◌≡◌, ◌≢◌, refl, sym, ◌∙◌, List, [], ◌∷◌, Option, none, some, Bool, true, false, ok,
  err, ite, Elem, Elem-head, there, All, arith, Option-cases, inl, inr,
}
use uip.Base.Map
use uip.Base.Map.{eq?, get-insert, get-insert_inv, get-remove_inv}
use uip.Data.Identifier.{Identifier}
use uip.Unix.Codec.{bind, data_frame, error}
use uip.Unix.State.{Env, Event, upstream_sent, locally_sent, Item, Sender, port_key, deliver_frame}
use uip.Unix.State.Programs.{
  Label, bound, sent, reached, unbound, System, start, opened, read_round, delivered, Step, accepts,
  opens, reads, delivers, Reach, initial, next,
}

-- The program that bound a port last.
abbrev pub latest : ℕ → List Label → Option Sender
latest q [] = none
latest q (bound t p ∷ log) = ite (eq? p q) (some t) (latest q log)
latest q (_ ∷ log) = latest q log

-- No program other than `t`, or not yet.
abbrev pub IsOther : Sender → Label → Type 0
IsOther t (bound s q) = s ≢ t
IsOther t _ = Unit {0}

-- What the daemon promises the programs: a program binds once, sends from the port that it bound, and is
-- sent exactly the frames for a port that it was the last to bind.
abbrev pub Allowed : Label → List Label → Type 0
Allowed (bound t q) log = All (IsOther t) log
Allowed (sent t host q d payload) log = Elem (bound t q) log
Allowed (reached t q host p payload) log = latest q log ≡ some t
Allowed (unbound q host p b) log = latest q log ≡ none

abbrev pub AllAllowed : List Label → Type 0
AllAllowed [] = Unit {0}
AllAllowed (l ∷ log) = Allowed l log × AllAllowed log

-- What the daemon has sent, if exactly these things happened.
abbrev pub events : Env → List Label → List Event
events env [] = []
events env (bound t q ∷ log) = events env log
events env (sent t host q d payload ∷ log) =
    upstream_sent host q d payload (env.upstream_open (events env log)) ∷ events env log
events env (reached t q host p payload ∷ log) =
    locally_sent t (data_frame host p payload) (env.sender_open t (events env log)) ∷ events env log
events env (unbound q host p b ∷ log) = events env log

abbrev Below : ℕ → Label → Type 0
Below n (bound t q) = t < n
Below n _ = Unit {0}

Below-suc : (n : ℕ) (log : List Label) → All (Below n) log → All (Below (suc n)) log
Below-suc n [] h = tt
Below-suc n (bound t q ∷ log) h = (omega arith, Below-suc n log h.1)
Below-suc n (sent t host q d p ∷ log) h = (tt, Below-suc n log h.1)
Below-suc n (reached t q host p b ∷ log) h = (tt, Below-suc n log h.1)
Below-suc n (unbound q host p b ∷ log) h = (tt, Below-suc n log h.1)

Below-IsOther : (n : ℕ) (log : List Label) → All (Below n) log → All (IsOther n) log
Below-IsOther n [] h = tt
Below-IsOther n (bound t q ∷ log) h = (omega arith, Below-IsOther n log h.1)
Below-IsOther n (sent t host q d p ∷ log) h = (tt, Below-IsOther n log h.1)
Below-IsOther n (reached t q host p b ∷ log) h = (tt, Below-IsOther n log h.1)
Below-IsOther n (unbound q host p b ∷ log) h = (tt, Below-IsOther n log h.1)

module _ (env : Env) where
  pub record IsKept (s : System) : Type 0 where
    pub registered : (q : ℕ) → Map.get q s.world.state.connections ≡ latest q s.log
    pub known : (t q : ℕ) → Map.get t s.readers ≡ some q → Elem (bound t q) s.log
    pub fresh : All (Below s.world.next_sender) s.log
    pub allowed : AllAllowed s.log
    pub traced : s.world.trace ≡ events env s.log

  start-IsKept : (path : List ℕ) → IsKept (start path)
  unfolding start Map.get
  start-IsKept path = record {
    registered = λ q. refl;
    known = λ t q e. cc;
    fresh = tt;
    allowed = tt;
    traced = refl;
  }

  bound-IsKept : (q : ℕ) (s : System) → IsKept s → IsKept (opened (some (ok (bind q))) s)
  unfolding opened
  bound-IsKept q s k = record {
    registered = λ p.
        get-insert q p s.world.next_sender s.world.state.connections
        ∙ ground (arith, k.registered p);
    known = λ t p e. elim (get-insert_inv s.world.next_sender t q p s.readers e) [
      | inl (a, b) ↦ Elem-head (cc)
      | inr f ↦ there (k.known t p f)
    ];
    fresh = (omega arith, Below-suc s.world.next_sender s.log k.fresh);
    allowed = (Below-IsOther s.world.next_sender s.log k.fresh, k.allowed);
    traced = k.traced;
  }

  same-IsKept : (s : System) (b : Bool) → IsKept s → IsKept (record s { accepting = b })
  same-IsKept s b k = record {
    registered = k.registered;
    known = k.known;
    fresh = k.fresh;
    allowed = k.allowed;
    traced = k.traced;
  }

  opened-IsKept : (item : Item) (s : System) → IsKept s → IsKept (opened item s)
  unfolding opened
  opened-IsKept none s k = same-IsKept s false k
  opened-IsKept (some (err e)) s k = same-IsKept s false k
  opened-IsKept (some (ok (bind q))) s k = bound-IsKept q s k
  opened-IsKept (some (ok (data_frame h d p))) s k = same-IsKept s false k
  opened-IsKept (some (ok (error c))) s k = same-IsKept s false k

  closed-IsKept :
      (t : Sender) (s : System) → IsKept s → IsKept (record s { readers = Map.remove t s.readers })
  closed-IsKept t s k = record {
    registered = k.registered;
    known = λ u q e. k.known u q (get-remove_inv t u q s.readers e);
    fresh = k.fresh;
    allowed = k.allowed;
    traced = k.traced;
  }

  read_round-IsKept :
      (t : Sender) (port : ℕ) (item : Item) (s : System)
      → Map.get t s.readers ≡ some port
      → IsKept s
      → IsKept (read_round env t port item s)
  unfolding read_round
  read_round-IsKept t port none s e k = closed-IsKept t s k
  read_round-IsKept t port (some (err c)) s e k = closed-IsKept t s k
  read_round-IsKept t port (some (ok (bind q))) s e k = closed-IsKept t s k
  read_round-IsKept t port (some (ok (error c))) s e k = closed-IsKept t s k
  read_round-IsKept t port (some (ok (data_frame h d p))) s e k = record {
    registered = k.registered;
    known = λ u q f. there (k.known u q f);
    fresh = (tt, k.fresh);
    allowed = (k.known t port e, k.allowed);
    traced = rw k.traced refl;
  }

  delivered-IsKept :
      (host : Identifier) (remote_port port : ℕ) (payload : List ℕ) (s : System)
      → IsKept s
      → IsKept (delivered env host remote_port port payload s)
  unfolding delivered
  delivered-IsKept host remote_port port payload s k =
      elim (Option-cases (Map.get port s.world.state.connections)) [
        | inl e ↦
            rw (e, deliver_frame, delivered)
              (record {
                registered = k.registered;
                known = λ u q f. there (k.known u q f);
                fresh = (tt, k.fresh);
                allowed = (sym (k.registered port) ∙ e, k.allowed);
                traced = k.traced;
              })
        | inr (t, e) ↦
            rw (e, deliver_frame, delivered)
              (record {
                registered = k.registered;
                known = λ u q f. there (k.known u q f);
                fresh = (tt, k.fresh);
                allowed = (sym (k.registered port) ∙ e, k.allowed);
                traced = rw k.traced refl;
              })
      ]

  Step-IsKept : {s t : System} → Step env s t → IsKept s → IsKept t
  Step-IsKept {s} (accepts e) k = same-IsKept s true k
  Step-IsKept {s} (opens item e) k = opened-IsKept item s k
  Step-IsKept {s} (reads t port item e) k = read_round-IsKept t port item s e k
  Step-IsKept {s} (delivers host p q payload) k = delivered-IsKept host p q payload s k

  Reach-IsKept : {s t : System} → Reach env s t → IsKept s → IsKept t
  Reach-IsKept initial k = k
  Reach-IsKept (next r st) k = Step-IsKept st (Reach-IsKept r k)

  -- However the accept loop, the read tasks and the frames of the network half interleave from the start,
  -- what is sent is what the daemon promises: each program binds once and sends from the port that it
  -- bound, a frame for a port goes to the program that bound it last, and to none if there is none.
  pub Reach-AllAllowed :
      (path : List ℕ) (s : System)
      → Reach env (start path) s
      → AllAllowed s.log × (s.world.trace ≡ events env s.log)
  Reach-AllAllowed path s r = let k = Reach-IsKept r (start-IsKept path) in (k.allowed, k.traced)
