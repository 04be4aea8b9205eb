-- ===== src/Network/Peers/Announcements.antt =====
-- Control messages in another order: what peers announce of themselves is known in the end all the same.
use uip.Base.{
  ◌≡◌, refl, sym, ap, ◌∙◌, List, [], ◌∷◌, none, some, Option, ite, arith, Elem, here, there,
  Elem-head, Elem-cons, Elem-append_left, inl, inr, ℕ,
}
use uip.Base.Map.{eq?}
use uip.Data.Identifier.{Identifier, identifier_key}
use uip.Data.Peer.{Peer}
use uip.Data.PeerInformationBase.{get_peer}
use uip.Data.PeerInformationBase.Unordered.{unordered, known_of}
use uip.Network.Peers.{process_control_message}
use uip.Network.Peers.Trust.{announced, process_control_message-get_peer}
use uip.Protocol.{MessagePack, deserialize_from_msgpck}
use uip.World.{World, Env}
use mathlib.Core.List.{Permᴰ}
use mathlib.Core.List.Permᴰ
use mathlib.Core.Quot

-- A control message: who sent it, and its bytes.
abbrev pub Received : Type 0
Received = Identifier × List ℕ

module _ (env : Env) (pack : MessagePack) where
  -- What the sender says of itself, if that is what the message is.
  abbrev pub own : Received → Option Peer
  own (host, payload) = announced host (deserialize_from_msgpck pack payload)

  -- No sender says two different things of itself.
  unfoldable pub IsConsistent : List Received → Type 0
  IsConsistent ms =
      (host : Identifier) (a b : List ℕ) (p q : Peer)
      → Elem (host, a) ms
      → Elem (host, b) ms
      → own (host, a) ≡ some p
      → own (host, b) ≡ some q
      → p ≡ q

  unfoldable pub process_all : List Received → World → World
  process_all [] w = w
  process_all ((host, payload) ∷ ms) w =
      process_all ms (process_control_message env pack host payload w).1

  -- What is known of `j` after a message, from what was known.
  abbrev after : Received → Identifier → Option Peer → Option Peer
  after m j known = elim (own m) [ none ↦ known | some p ↦ ite (eq? m.0 j) (some p) known ]

  abbrev after_all : List Received → Identifier → Option Peer → Option Peer
  after_all [] j known = known
  after_all (m ∷ ms) j known = after_all ms j (after m j known)

  process_all-get_peer :
      (ms : List Received) (j : Identifier) (w : World)
      → get_peer j (process_all ms w).network.pib ≡ after_all ms j (get_peer j w.network.pib)
  unfolding process_all
  process_all-get_peer [] j w = refl
  process_all-get_peer ((host, payload) ∷ ms) j w =
      process_all-get_peer ms j (process_control_message env pack host payload w).1
      ∙ ap (after_all ms j) (process_control_message-get_peer env pack host j payload w)

  Elem-Perm : {m : Received} {xs ys : List Received} → Permᴰ xs ys → Elem m xs → Elem m ys
  Elem-Perm Permᴰ.nil e = e
  Elem-Perm (Permᴰ.cons p s) e = elim (Elem-cons e) [
    | inl q ↦ Elem-head (q ∙ p)
    | inr f ↦ there (Elem-Perm s f)
  ]
  Elem-Perm (Permᴰ.swap {a} {b} {a'} {b'} {l} p q) e = elim (Elem-cons e) [
    | inl r ↦ there (Elem-head (r ∙ p))
    | inr f ↦ elim (Elem-cons f) [ inl r ↦ Elem-head (r ∙ q) | inr g ↦ there (there g) ]
  ]
  Elem-Perm (Permᴰ.trans s t) e = Elem-Perm t (Elem-Perm s e)

  known_twice :
      (a b : Identifier) (u v : Option Peer) (j : Identifier) (known : Option Peer)
      → (a ≡ b → (p q : Peer) → u ≡ some p → v ≡ some q → p ≡ q)
      → (elim v [
        | none ↦ elim u [ none ↦ known | some p ↦ ite (eq? a j) (some p) known ]
        | some q ↦
            ite (eq? b j) (some q) (elim u [ none ↦ known | some p ↦ ite (eq? a j) (some p) known ])
      ])
        ≡ (elim u [
          | none ↦ elim v [ none ↦ known | some q ↦ ite (eq? b j) (some q) known ]
          | some p ↦
              ite
                (eq? a j)
                (some p)
                (elim v [ none ↦ known | some q ↦ ite (eq? b j) (some q) known ])
        ])
  known_twice a b none none j known h = refl
  known_twice a b none (some q) j known h = refl
  known_twice a b (some p) none j known h = refl
  known_twice a b (some p) (some q) j known h = elim (eq? a b) [
    | yes e ↦ ground (arith, h e p q refl refl)
    | no n ↦ ground arith
  ]

  after-after :
      (x y : Received) (j : Identifier) (known : Option Peer)
      → ((host : Identifier) (a b : List ℕ) (p q : Peer)
          → Elem (host, a) (x ∷ y ∷ [])
          → Elem (host, b) (x ∷ y ∷ [])
          → own (host, a) ≡ some p
          → own (host, b) ≡ some q
          → p ≡ q)
      → after y j (after x j known) ≡ after x j (after y j known)
  after-after (h, a) (g, b) j known c =
      known_twice h g (own (h, a)) (own (g, b)) j known (λ e p q u v.
        c g a b p q (Elem-head (ap (λ x. (x, a)) (sym e))) (there here)
          (ap (λ x. own (x, a)) (sym e) ∙ u) v)

  IsConsistent-cons : (m : Received) (ms : List Received) → IsConsistent (m ∷ ms) → IsConsistent ms
  unfolding IsConsistent
  IsConsistent-cons m ms c = λ h a b p q d e. c h a b p q (there d) (there e)

  IsConsistent-Perm : {xs ys : List Received} → Permᴰ ys xs → IsConsistent xs → IsConsistent ys
  unfolding IsConsistent
  IsConsistent-Perm s c = λ h a b p q d e. c h a b p q (Elem-Perm s d) (Elem-Perm s e)

  after_all-Perm :
      {xs ys : List Received} (j : Identifier) (known : Option Peer)
      → Permᴰ xs ys
      → IsConsistent xs
      → after_all xs j known ≡ after_all ys j known
  unfolding IsConsistent
  after_all-Perm j known Permᴰ.nil c = refl
  after_all-Perm j known (Permᴰ.cons {a} {b} {l₁} {l₂} p s) c =
      after_all-Perm j (after a j known) s (IsConsistent-cons a l₁ c)
      ∙ ap (λ m. after_all l₂ j (after m j known)) p
  after_all-Perm j known (Permᴰ.swap {a} {b} {l = l} p q) c =
      ap (after_all l j) (
        after-after a b j known
          λ h x y u v d e. c h x y u v (Elem-append_left l d) (Elem-append_left l e))
      ∙ (λ i. after_all l j (after (p i) j (after (q i) j known)))
  after_all-Perm j known (Permᴰ.trans s t) c =
      after_all-Perm j known s c ∙ after_all-Perm j known t (IsConsistent-Perm (Permᴰ.symm s) c)

  -- Whatever the order in which control messages arrive, if no peer announces two different things of itself
  -- among them, the peer information base is the same in the end, but for the order of its entries: for
  -- any two worlds in which it was so before.
  pub process_all-Perm :
      (xs ys : List Received) (w v : World)
      → Permᴰ xs ys
      → IsConsistent xs
      → unordered w.network.pib ≡ unordered v.network.pib
      → unordered (process_all xs w).network.pib ≡ unordered (process_all ys v).network.pib
  process_all-Perm xs ys w v s c e =
      let same = known_of w.network.pib v.network.pib e in
      Quot.sound (λ j.
        process_all-get_peer xs j w
        ∙ ap (after_all xs j) (same j)
        ∙ after_all-Perm j (get_peer j v.network.pib) s c
        ∙ sym (process_all-get_peer ys j v))
