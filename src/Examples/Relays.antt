-- ===== src/Examples/Relays.antt =====
-- The theorems on the relay, with a concrete parser.
use sol_mesh.Base.{ℕ, List, [], ◌∷◌, some, ◌≡◌, refl, bytes_eq, if◌then◌else◌, arith}
use sol_mesh.Client.Relay.{
  Frame, join, other, Parser, Relay, Event, message, close, provider_role, consumer_role, fresh,
  run,
}
use sol_mesh.Client.Delivery.History.{deliveries, holder, placed}
use sol_mesh.Client.Delivery.Frames.{sent_by, relay_delivers}
use sol_mesh.Client.Delivery.Parties.{reconnected_unheard}

-- `1` joins as provider, `2` as consumer; anything else is no join.
abbrev frame_of : List ℕ → Frame
frame_of raw =
    if bytes_eq raw (1 ∷ [])
    then join (7 ∷ []) provider_role
    else if bytes_eq raw (2 ∷ [])
    then join (7 ∷ []) consumer_role
    else other

abbrev parse : Parser
parse raw = some (frame_of raw)

abbrev events : List Event
events =
    message 31 (1 ∷ [])
    ∷ message 32 (2 ∷ [])
    ∷ message 31 (9 ∷ [])
    ∷ close 31
    ∷ message 32 (9 ∷ [])
    ∷ []

-- The frame of 31 reaches 32; after 31 is closed, the frame of 32 reaches nobody.
relay_delivers_example : sent_by (run parse fresh events) ≡ some ((32, 9 ∷ []) ∷ [])
unfolding deliveries holder placed bytes_eq
relay_delivers_example = relay_delivers parse events

reconnected_unheard_example :
    (r : Relay) × (run parse fresh (
        message 31 (1 ∷ [])
        ∷ message 32 (2 ∷ [])
        ∷ message 33 (1 ∷ [])
        ∷ close 31
        ∷ message 32 (9 ∷ [])
        ∷ [])
      ≡ some (r, []))
unfolding bytes_eq
reconnected_unheard_example =
    reconnected_unheard parse fresh 31 33 32 (7 ∷ []) (1 ∷ []) (2 ∷ []) (9 ∷ []) (omega arith)
      (omega arith) (omega arith) refl refl refl
