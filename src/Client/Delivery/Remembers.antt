-- ===== src/Client/Delivery/Remembers.antt =====
-- That the relay's state is what its events make of it (client/src/relay.ts).
use sol_mesh.Base.{
  false, ℕ, List, [], ◌∷◌, Option, none, some, bytes_eq, bytes_eq→eq, if◌then◌else◌, ◌≡◌, ◌∙◌, inl,
  inr, refl, sym, ap, Bool-cases, Option-cases, arith,
}
use sol_mesh.Client.Delivery.History.{holder_left, counterpart, placed, holder, receiver}
use sol_mesh.Client.Relay.{
  join, other, Parser, Channel, Relay, Event, message, close, provider_role, consumer_role, set,
  set_role, or_empty, fresh, on_join, peer_of, deliver, forward, on_close,
}

-- Who stands in a role after one is set.
set_role-provider :
    (role : List ℕ) (entry : Option ℕ) (ch : Channel)
    → (set_role role entry ch).provider
      ≡ (if bytes_eq role provider_role then entry else ch.provider)
set_role-provider role entry ch = ground arith

set_role-consumer :
    (role : List ℕ) (entry : Option ℕ) (ch : Channel)
    → (set_role role entry ch).consumer
      ≡ (if bytes_eq role consumer_role then entry else ch.consumer)
unfolding bytes_eq
set_role-consumer role entry ch = elim (Bool-cases (bytes_eq role provider_role)) [
  | inl is ↦
      let apart : bytes_eq role consumer_role ≡ false =
        ap (λ (r : List ℕ). bytes_eq r consumer_role) (bytes_eq→eq role provider_role is) in
      ground (arith, is, apart)
  | inr not ↦ ground (arith, not)
]

-- Who stands in a channel after a role is set in one, as `holder_left` and `holder_after` say it.
abbrev entry_after : Option ℕ → List ℕ × List ℕ → List ℕ → List ℕ → Option ℕ → Option ℕ
entry_after entry (at, in_role) session role before =
    if bytes_eq session at then (if bytes_eq in_role role then entry else before) else before

module _ (m : List ℕ → Option Channel) (at role : List ℕ) (entry : Option ℕ) (j : List ℕ) where
  abbrev channels_after : List ℕ → Option Channel
  channels_after = set m at (set_role role entry (or_empty (m at)))

  set-provider :
      (or_empty (channels_after j)).provider
      ≡ entry_after entry (at, role) j provider_role (or_empty (m j)).provider
  set-provider = elim (Bool-cases (bytes_eq j at)) [
    | inl is ↦
        let same : or_empty (m at) ≡ or_empty (m j) =
          ap (λ (k : List ℕ). or_empty (m k)) (sym (bytes_eq→eq j at is)) in
        ground (arith, is, same, set_role-provider role entry (or_empty (m at)))
    | inr apart ↦ ground (arith, apart)
  ]

  set-consumer :
      (or_empty (channels_after j)).consumer
      ≡ entry_after entry (at, role) j consumer_role (or_empty (m j)).consumer
  set-consumer = elim (Bool-cases (bytes_eq j at)) [
    | inl is ↦
        let same : or_empty (m at) ≡ or_empty (m j) =
          ap (λ (k : List ℕ). or_empty (m k)) (sym (bytes_eq→eq j at is)) in
        ground (arith, is, same, set_role-consumer role entry (or_empty (m at)))
    | inr apart ↦ ground (arith, apart)
  ]

  -- Where there is no channel, nobody stands in a role of it.
  missing-entry :
      (role_of : Channel → Option ℕ)
      → m at ≡ none
      → role_of (or_empty none) ≡ none
      → (asked : List ℕ)
      → role_of (or_empty (m j)) ≡ entry_after none (at, role) j asked (role_of (or_empty (m j)))
  missing-entry role_of missing empty asked = elim (Bool-cases (bytes_eq j at)) [
    | inl is ↦
        let gone : role_of (or_empty (m j)) ≡ none =
          ap (λ (k : List ℕ). role_of (or_empty (m k))) (bytes_eq→eq j at is)
          ∙ ap (λ (c : Option Channel). role_of (or_empty c)) missing
          ∙ empty in
        ground (arith, is, gone)
    | inr apart ↦ ground (arith, apart)
  ]

module _ (parse : Parser) where
  -- Every socket's session and role, and who stands in a role, are what the events say.
  pub record Remembers (r : Relay) (past : List Event) : Type 0 where
    pub of_socket : (ws : ℕ) → r.joined ws ≡ placed parse past ws
    pub of_provider :
        (session : List ℕ)
        → (or_empty (r.channels session)).provider ≡ holder parse past session provider_role
    pub of_consumer :
        (session : List ℕ)
        → (or_empty (r.channels session)).consumer ≡ holder parse past session consumer_role

  pub fresh-Remembers : Remembers fresh []
  unfolding placed holder
  fresh-Remembers = record {
    of_socket = λ ws. refl;
    of_provider = λ session. refl;
    of_consumer = λ session. refl;
  }

  module _ (r : Relay) (past : List Event) (h : Remembers r past) (ws : ℕ) where
    -- The socket in a channel that a role is passed to.
    peer-holder :
        (session role : List ℕ)
        → peer_of role (or_empty (r.channels session))
          ≡ holder parse past session (counterpart role)
    peer-holder session role = elim (Bool-cases (bytes_eq role provider_role)) [
      | inl is ↦ rw is (h.of_consumer session)
      | inr apart ↦ rw apart (h.of_provider session)
    ]

    pub forward-receiver : (raw : List ℕ) → forward r ws raw ≡ deliver (receiver parse past ws) raw
    unfolding forward
    forward-receiver raw =
        forwarded_in (r.channels (r.joined ws).0)
        ∙ ap (λ (peer : Option ℕ). deliver peer raw)
            (peer-holder (r.joined ws).0 (r.joined ws).1
              ∙ ap (λ (at : List ℕ × List ℕ). holder parse past at.0 (counterpart at.1))
                  (h.of_socket ws))
      where
        forwarded_in :
            (found : Option Channel)
            → (elim found [ none ↦ none | some ch ↦ deliver (peer_of (r.joined ws).1 ch) raw ])
              ≡ deliver (peer_of (r.joined ws).1 (or_empty found)) raw
        forwarded_in none = ground arith
        forwarded_in (some ch) = refl

    pub on_join-Remembers :
        (raw session role : List ℕ)
        → parse raw ≡ some (join session role)
        → Remembers (on_join r ws session role) (message ws raw ∷ past)
    unfolding placed holder
    on_join-Remembers raw session role parsed = record {
      of_socket = λ j. ground (arith, parsed, h.of_socket j);
      of_provider = λ j. rw parsed (
          set-provider r.channels session role (some ws) j
          ∙ ap (entry_after (some ws) (session, role) j provider_role) (h.of_provider j));
      of_consumer = λ j. rw parsed (
          set-consumer r.channels session role (some ws) j
          ∙ ap (entry_after (some ws) (session, role) j consumer_role) (h.of_consumer j));
    }

    pub other-Remembers :
        (raw : List ℕ) → parse raw ≡ some other → Remembers r (message ws raw ∷ past)
    unfolding placed holder
    other-Remembers raw parsed = record {
      of_socket = λ j. ground (arith, parsed, h.of_socket j);
      of_provider = λ j. ground (arith, parsed, h.of_provider j);
      of_consumer = λ j. ground (arith, parsed, h.of_consumer j);
    }

    pub on_close-Remembers : Remembers (on_close r ws) (close ws ∷ past)
    unfolding placed holder on_close
    on_close-Remembers =
        let left = λ (asked j : List ℕ) (now before : Option ℕ) (same : now ≡ before).
          ap (entry_after none (r.joined ws) j asked) same
          ∙ ap (λ (place : List ℕ × List ℕ). holder_left place j asked before) (h.of_socket ws) in
        elim (Option-cases (r.channels (r.joined ws).0)) [
          | inl missing ↦ record {
            of_socket = λ j. rw missing (h.of_socket j);
            of_provider = λ j. rw missing (
                missing-entry r.channels (r.joined ws).0 (r.joined ws).1 none j
                  (λ (c : Channel). c.provider) missing refl provider_role
                ∙ left provider_role j _ _ (h.of_provider j));
            of_consumer = λ j. rw missing (
                missing-entry r.channels (r.joined ws).0 (r.joined ws).1 none j
                  (λ (c : Channel). c.consumer) missing refl consumer_role
                ∙ left consumer_role j _ _ (h.of_consumer j));
          }
          | inr (ch, found) ↦ record {
            of_socket = λ j. rw found (h.of_socket j);
            of_provider = λ j. rw found (
                (rw found at (set-provider r.channels (r.joined ws).0 (r.joined ws).1 none j))
                ∙ left provider_role j _ _ (h.of_provider j));
            of_consumer = λ j. rw found (
                (rw found at (set-consumer r.channels (r.joined ws).0 (r.joined ws).1 none j))
                ∙ left consumer_role j _ _ (h.of_consumer j));
          }
        ]
