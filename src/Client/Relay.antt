-- ===== src/Client/Relay.antt =====
-- client/src/relay.ts: the relay that passes frames between the two parties. A socket is a number, a
-- text its bytes. Of a channel's properties only `provider` and `consumer` are ever read, so a join
-- under any other role is kept for its socket alone.
use sol_mesh.Base.{ℕ, List, [], ◌∷◌, Option, none, some, bytes_eq, update, if◌then◌else◌}

-- What `JSON.parse` and the handler's reading of it find in a frame: a join with session and role, or
-- anything else.
pub data Frame : Type 0 where
  join : List ℕ → List ℕ → Frame
  other : Frame

-- The parser of the platform; `none` where it throws, or where the value has no properties to read.
abbrev pub Parser : Type 0
Parser = List ℕ → Option Frame

-- `interface Channel`
pub record Channel : Type 0 where
  pub provider : Option ℕ
  pub consumer : Option ℕ

-- `const channels`, and the `sessionId` and `role` that each connection keeps.
pub record Relay : Type 0 where
  pub channels : List ℕ → Option Channel
  pub joined : ℕ → List ℕ × List ℕ

pub data Event : Type 0 where
  message : ℕ → List ℕ → Event
  close : ℕ → Event

-- A frame that is sent to a socket.
abbrev pub Delivery : Type 0
Delivery = ℕ × List ℕ

abbrev pub provider_role : List ℕ
provider_role = b'p' ∷ b'r' ∷ b'o' ∷ b'v' ∷ b'i' ∷ b'd' ∷ b'e' ∷ b'r' ∷ []

abbrev pub consumer_role : List ℕ
consumer_role = b'c' ∷ b'o' ∷ b'n' ∷ b's' ∷ b'u' ∷ b'm' ∷ b'e' ∷ b'r' ∷ []

-- `channels.set(session, v)`
abbrev pub set : (List ℕ → Option Channel) → List ℕ → Channel → List ℕ → Option Channel
set m key v j = if bytes_eq j key then some v else m j

-- `(ch as any)[role] = ws`
abbrev pub set_role : List ℕ → Option ℕ → Channel → Channel
set_role role ws ch =
    if bytes_eq role provider_role
    then record ch { provider = ws }
    else if bytes_eq role consumer_role
    then record ch { consumer = ws }
    else ch

-- `channels.get(sessionId) ?? {}`
abbrev pub or_empty : Option Channel → Channel
or_empty none = record { provider = none; consumer = none }
or_empty (some ch) = ch

-- No channel, and no connection has joined.
abbrev pub fresh : Relay
fresh = record { channels = λ session. none; joined = λ ws. ([], []) }

abbrev pub on_join : Relay → ℕ → List ℕ → List ℕ → Relay
on_join r ws session role = record {
  channels = set r.channels session (set_role role (some ws) (or_empty (r.channels session)));
  joined = update r.joined ws (session, role);
}

-- `role === "provider" ? ch.consumer : ch.provider`
abbrev pub peer_of : List ℕ → Channel → Option ℕ
peer_of role ch = if bytes_eq role provider_role then ch.consumer else ch.provider

abbrev pub deliver : Option ℕ → List ℕ → Option Delivery
deliver none raw = none
deliver (some peer) raw = some (peer, raw)

-- What is forwarded of a frame that is no join.
unfoldable pub forward : Relay → ℕ → List ℕ → Option Delivery
forward r ws raw = elim (r.channels (r.joined ws).0) [
  | none ↦ none
  | some ch ↦ deliver (peer_of (r.joined ws).1 ch) raw
]

abbrev pub on_frame : Relay → ℕ → List ℕ → Frame → Relay × Option Delivery
on_frame r ws raw (join session role) = (on_join r ws session role, none)
on_frame r ws raw other = (r, forward r ws raw)

abbrev clear_role : Relay → ℕ → Option Channel → Relay
clear_role r ws none = r
clear_role r ws (some ch) = record r {
  channels = set r.channels (r.joined ws).0 (set_role (r.joined ws).1 none ch);
}

unfoldable pub on_close : Relay → ℕ → Relay
on_close r ws = clear_role r ws (r.channels (r.joined ws).0)

-- One event. Nothing catches what `JSON.parse` throws, so the process ends with it: `none`.
unfoldable pub step : Parser → Relay → Event → Option (Relay × Option Delivery)
step parse r (message ws raw) = elim (parse raw) [
  | none ↦ none
  | some frame ↦ some (on_frame r ws raw frame)
]
step parse r (close ws) = some (on_close r ws, none)

abbrev pub prepend : Option Delivery → List Delivery → List Delivery
prepend none out = out
prepend (some d) out = d ∷ out

-- A series of events, and all that is sent.
unfoldable pub run : Parser → Relay → List Event → Option (Relay × List Delivery)
run parse r [] = some (r, [])
run parse r (e ∷ es) = elim (step parse r e) [
  | none ↦ none
  | some (r', sent) ↦ elim (run parse r' es) [
    | none ↦ none
    | some (r'', out) ↦ some (r'', prepend sent out)
  ]
]
