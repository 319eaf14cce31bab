-- ===== src/Client/Delivery/Parties.antt =====
-- What the two parties of a session get from the relay (client/src/relay.ts).
use sol_mesh.Base.{
  ℕ, List, [], ◌∷◌, Option, none, some, bytes_eq, bytes_eq_self, ◌≡◌, ◌≢◌, ap, ◌∙◌, arith,
}
use sol_mesh.Client.Relay.{
  join, other, Parser, Channel, Relay, message, close, Delivery, provider_role, consumer_role, set,
  set_role, on_join, peer_of, deliver, forward, on_close, step, run,
}

-- What is forwarded of a frame of a socket that has joined.
forward-joined :
    (r : Relay) (ws : ℕ) (raw session role : List ℕ) (ch : Channel)
    → r.joined ws ≡ (session, role)
    → r.channels session ≡ some ch
    → forward r ws raw ≡ deliver (peer_of role ch) raw
unfolding forward
forward-joined r ws raw session role ch place at_session =
    ap from_place place ∙ ap from_channel at_session
  where
    from_place : List ℕ × List ℕ → Option Delivery
    from_place at = elim (r.channels at.0) [ none ↦ none | some c ↦ deliver (peer_of at.1 c) raw ]

    from_channel : Option Channel → Option Delivery
    from_channel found = elim found [ none ↦ none | some c ↦ deliver (peer_of role c) raw ]

module _ (parse : Parser) (r : Relay) (a b : ℕ) (session join_a join_b : List ℕ) (apart : a ≢ b)
    (a_joins : parse join_a ≡ some (join session provider_role))
    (b_joins : parse join_b ≡ some (join session consumer_role)) where
  abbrev both : Relay
  both = on_join (on_join r a session provider_role) b session consumer_role

  both_joined : both.channels session ≡ some (record { provider = some a; consumer = some b })
  unfolding bytes_eq
  both_joined = simp (bytes_eq_self session)

  a_place : both.joined a ≡ (session, provider_role)
  a_place = ground arith

  b_place : both.joined b ≡ (session, consumer_role)
  b_place = ground arith

  module _ (a' : ℕ) (anew : a' ≢ a) (bnew : a' ≢ b) where
    abbrev rejoined : Relay
    rejoined = on_join both a' session provider_role

    rejoined_channel :
        rejoined.channels session ≡ some (record { provider = some a'; consumer = some b })
    unfolding bytes_eq
    rejoined_channel = simp (bytes_eq_self session)

    a_still : rejoined.joined a ≡ (session, provider_role)
    a_still = ground arith

    abbrev evicted : Relay
    evicted = record rejoined {
      channels = set rejoined.channels session (record { provider = none; consumer = some b });
    }

    evicts : on_close rejoined a ≡ evicted
    unfolding on_close bytes_eq
    evicts = ap from_place a_still ∙ ap from_channel rejoined_channel
      where
        from_place : List ℕ × List ℕ → Relay
        from_place at = elim (rejoined.channels at.0) [
          | none ↦ rejoined
          | some c ↦ record rejoined {
            channels = set rejoined.channels at.0 (set_role at.1 none c);
          }
        ]

        from_channel : Option Channel → Relay
        from_channel found = elim found [
          | none ↦ rejoined
          | some c ↦ record rejoined {
            channels = set rejoined.channels session (set_role provider_role none c);
          }
        ]

    evicted_channel :
        evicted.channels session ≡ some (record { provider = none; consumer = some b })
    evicted_channel = simp (bytes_eq_self session)

    b_still : evicted.joined b ≡ (session, consumer_role)
    b_still = ground arith

    b_unheard : (raw : List ℕ) → forward evicted b raw ≡ none
    unfolding bytes_eq
    b_unheard raw = forward-joined evicted b raw session consumer_role _ b_still evicted_channel

    unheard :
        (raw : List ℕ)
        → parse raw ≡ some other
        → run parse r
            (message a join_a ∷ message b join_b ∷ message a' join_a ∷ close a ∷ message b raw ∷ [])
          ≡ some (evicted, [])
    unfolding run step
    unheard raw b_says = ground (arith, a_joins, b_joins, b_says, evicts, b_unheard raw)

-- From whatever state the relay is in: where the provider of a session has joined again with a
-- second socket before its first one is closed, the close takes away the second one's place, and
-- no frame of the consumer reaches the provider.
pub reconnected_unheard :
    (parse : Parser) (r : Relay) (a a' b : ℕ) (session join_a join_b raw : List ℕ)
    → a ≢ b
    → a' ≢ a
    → a' ≢ b
    → parse join_a ≡ some (join session provider_role)
    → parse join_b ≡ some (join session consumer_role)
    → parse raw ≡ some other
    → (r' : Relay) × (run parse r
          (message a join_a ∷ message b join_b ∷ message a' join_a ∷ close a ∷ message b raw ∷ [])
        ≡ some (r', []))
reconnected_unheard parse r a a' b session join_a join_b raw apart anew bnew a_joins b_joins
      b_says =
    (
      evicted parse r a b session join_a join_b apart a_joins b_joins a' anew bnew,
      unheard parse r a b session join_a join_b apart a_joins b_joins a' anew bnew raw b_says,
    )
