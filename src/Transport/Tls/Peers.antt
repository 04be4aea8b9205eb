-- ===== src/Transport/Tls/Peers.antt =====
-- Under which identifiers the peers of accepted sessions are registered.
use uip.Base.{
  ℕ, suc, ◌≡◌, refl, ap, ◌∙◌, List, [], ◌∷◌, Option, none, some, true, Result, ok, err, arith, ite,
  inl, inr, Option-cases, ◌⊎◌,
}
use uip.Base.Map.{eq?, get-insert}
use uip.Data.Identifier.{Identifier, identifier_key, from_x509_certificate}
use uip.Data.Identity.{Identity, generate}
use uip.Data.Identity.Laws.{generate-from_x509_certificate}
use uip.Data.Openssl.{Openssl}
use uip.Transport.Socket.{accept_connection, get_connection}
use uip.Transport.Tls.{
  Incoming, no_session, session, no_identifier, id_from_connection, accept_incoming,
  accept_connections,
}
use uip.World.{World, Connection, SocketRef, for_each, tasks_spawned}

result_cases {ℓ κ} :
    {A : Type ℓ} {E : Type κ} (x : Result A E) → ((a : A) × (x ≡ ok a)) ⊎ ((e : E) × (x ≡ err e))
result_cases (ok a) = inl (a, refl)
result_cases (err e) = inr (e, refl)

abbrev value {ℓ κ} : {A : Type ℓ} {E : Type κ} → Result A E → Option A
value (ok a) = some a
value (err e) = none

module _ (ssl : Openssl) where
  -- The identifier of the certificate that the peer of a round showed, if it has one.
  abbrev pub identified : Incoming ssl → Option Identifier
  identified no_session = none
  identified (session none) = none
  identified (session (some x509)) = value (from_x509_certificate ssl x509)

  -- The connection that `j` has after the rounds: each takes the next unused channel if it identifies its
  -- peer, and that of the last round for `j` counts.
  pub latest : Identifier → ℕ → List (Incoming ssl) → Option Connection → Option Connection
  latest j n [] c = c
  latest j n (i ∷ is) c = elim (identified i) [
    | none ↦ latest j n is c
    | some id ↦ latest j (suc n) is (ite (eq? id j) (some (record { sink = n })) c)
  ]

  shown_ok :
      (x509 : ssl.X509) (id : Identifier)
      → from_x509_certificate ssl x509 ≡ ok id
      → id_from_connection ssl (some x509) ≡ ok id
  unfolding id_from_connection
  shown_ok x509 id e = rw (e, id_from_connection) refl

  shown_err :
      (x509 : ssl.X509) (k : ssl.ErrorStack)
      → from_x509_certificate ssl x509 ≡ err k
      → id_from_connection ssl (some x509) ≡ err (no_identifier k)
  unfolding id_from_connection
  shown_err x509 k e = rw (e, id_from_connection) refl

  accept_unidentified :
      (r : SocketRef) (i : Incoming ssl) (w : World)
      → identified i ≡ none
      → (accept_incoming ssl r i w).1 ≡ w
  unfolding accept_incoming accept_connection id_from_connection
  accept_unidentified r no_session w h = refl
  accept_unidentified r (session none) w h = refl
  accept_unidentified r (session (some x509)) w h =
      elim (result_cases (from_x509_certificate ssl x509)) [
        | inl (id, e) ↦ let h' = rw e at h in cc
        | inr (k, e) ↦ rw (shown_err x509 k e, accept_incoming) refl
      ]

  accept_identified :
      (r : SocketRef) (i : Incoming ssl) (id : Identifier) (w : World)
      → identified i ≡ some id
      → accept_incoming ssl r i w ≡ accept_connection r true (some id) w
  unfolding accept_incoming
  accept_identified r no_session id w h = cc
  accept_identified r (session none) id w h = cc
  accept_identified r (session (some x509)) id w h =
      elim (result_cases (from_x509_certificate ssl x509)) [
        | inl (k, e) ↦
            let z : k ≡ id = (let h' = rw e at h in cc) in
            rw (shown_ok x509 k e, accept_incoming) (rw z refl)
        | inr (k, e) ↦ let h' = rw e at h in cc
      ]

  -- After any rounds of the accept loop, each identifier has the connection of the last session whose peer
  -- showed a certificate with that identifier, and the one it had before if there was none: a round that
  -- fails, or whose peer shows no certificate, registers nothing.
  pub get_connection-accept_connections :
      (r : SocketRef) (j : Identifier) (incoming : List (Incoming ssl)) (w : World)
      → (get_connection r j (accept_connections ssl r incoming w).1).0
        ≡ latest j w.next_channel incoming (get_connection r j w).0
  unfolding accept_connections latest for_each
  get_connection-accept_connections r j [] w = refl
  get_connection-accept_connections r j (i ∷ is) w = elim (Option-cases (identified i)) [
    | inl e ↦
        rw (e, latest)
          (ap (rest) (accept_unidentified r i w e) ∙ get_connection-accept_connections r j is w)
    | inr (id, e) ↦
        let w' = (accept_connection r true (some id) w).1 in
        rw (e, latest)
          (ap (rest) (ap (λ p. p.1) (accept_identified r i id w e))
            ∙ get_connection-accept_connections r j is w'
            ∙ unfold accept_connection get_connection in
              ap (latest j (suc w.next_channel) is) (
                ground (
                  arith,
                  get-insert id j (record { sink = w.next_channel }) (w.store r).connections,
                )))
  ]
    where
      rest : World → Option Connection
      rest v = (get_connection r j (accept_connections ssl r is v).1).0

  -- A session whose peer shows the certificate of a generated identity is registered under that
  -- identity's identifier, as a connection whose tasks were spawned as that peer's.
  pub accept_incoming-generate :
      (r : SocketRef) (id : Identity ssl) (w : World)
      → generate ssl ≡ ok id
      → let w' = (accept_incoming ssl r (session (some id.cert)) w).1 in
        (c : Connection) × ((get_connection r id.identifier w').0 ≡ some c)
        × (w'.trace ≡ tasks_spawned c id.identifier ∷ w.trace)
  accept_incoming-generate r id w e =
      let i : Incoming ssl = session (some id.cert) in
      let known : identified i ≡ some id.identifier =
        ap value (generate-from_x509_certificate ssl id e).0 in
      rw (accept_identified r i id.identifier w known) (
        record { sink = w.next_channel },
        unfold accept_connection get_connection in
            ground (
              arith,
              get-insert id.identifier id.identifier (record { sink = w.next_channel })
                  (w.store r).connections,
            ),
        unfold accept_connection in refl,
      )
