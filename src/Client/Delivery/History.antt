-- ===== src/Client/Delivery/History.antt =====
-- client/src/relay.ts: what the relay sends, told from the events alone and without its state.
use sol_mesh.Base.{ℕ, List, [], ◌∷◌, Option, none, some, bytes_eq, ◌==◌, if◌then◌else◌}
use sol_mesh.Client.Relay.{
  Frame, join, other, Parser, Event, message, close, Delivery, provider_role, consumer_role,
}

-- The session and role of a socket `ws` after a frame of `sender`, from those before.
abbrev pub place_after : Option Frame → ℕ → ℕ → List ℕ × List ℕ → List ℕ × List ℕ
place_after (some (join session role)) sender ws before =
    if ws == sender then (session, role) else before
place_after (some other) sender ws before = before
place_after none sender ws before = before

-- Who stands in a role of a session after a frame of `sender`, from who did before.
abbrev pub holder_after : Option Frame → ℕ → List ℕ → List ℕ → Option ℕ → Option ℕ
holder_after (some (join at in_role)) sender session role before =
    if bytes_eq session at then (if bytes_eq in_role role then some sender else before) else before
holder_after (some other) sender session role before = before
holder_after none sender session role before = before

-- And after a socket that was last placed in some session and role is closed.
abbrev pub holder_left : List ℕ × List ℕ → List ℕ → List ℕ → Option ℕ → Option ℕ
holder_left (at, in_role) session role before =
    if bytes_eq session at then (if bytes_eq in_role role then none else before) else before

-- The role that a frame of a role is passed to.
abbrev pub counterpart : List ℕ → List ℕ
counterpart role = if bytes_eq role provider_role then consumer_role else provider_role

module _ (parse : Parser) where
  -- The session and role of a socket, from the events up to now, the last one first: those of its
  -- last join, or empty names.
  unfoldable pub placed : List Event → ℕ → List ℕ × List ℕ
  placed [] ws = ([], [])
  placed (message sender raw ∷ past) ws = place_after (parse raw) sender ws (placed past ws)
  placed (close sender ∷ past) ws = placed past ws

  -- Who stands in a role of a session: the last one who joined in it, unless some socket that was
  -- placed in it has been closed since.
  unfoldable pub holder : List Event → List ℕ → List ℕ → Option ℕ
  holder [] session role = none
  holder (message sender raw ∷ past) session role =
      holder_after (parse raw) sender session role (holder past session role)
  holder (close sender ∷ past) session role =
      holder_left (placed past sender) session role (holder past session role)

  -- A frame goes, as it came, to whoever stands in the other role of its sender's session.
  abbrev pub passed_to : Option ℕ → List ℕ → List Delivery → List Delivery
  passed_to none raw out = out
  passed_to (some peer) raw out = (peer, raw) ∷ out

  abbrev pub receiver : List Event → ℕ → Option ℕ
  receiver past ws = holder past (placed past ws).0 (counterpart (placed past ws).1)

  -- What an event adds to what is sent, and what does not parse ends it all.
  abbrev pub sent_first :
      List Event → ℕ → List ℕ → Option Frame → Option (List Delivery) → Option (List Delivery)
  sent_first past ws raw none out = none
  sent_first past ws raw (some frame) none = none
  sent_first past ws raw (some (join session role)) (some out) = some out
  sent_first past ws raw (some other) (some out) = some (passed_to (receiver past ws) raw out)

  -- All that is sent in a series of events after those of the past.
  unfoldable pub deliveries : List Event → List Event → Option (List Delivery)
  deliveries past [] = some []
  deliveries past (message ws raw ∷ es) =
      sent_first past ws raw (parse raw) (deliveries (message ws raw ∷ past) es)
  deliveries past (close ws ∷ es) = deliveries (close ws ∷ past) es
