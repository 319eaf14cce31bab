-- ===== src/Client/Delivery/Frames.antt =====
-- What the relay sends in a series of events (client/src/relay.ts).
use sol_mesh.Base.{ℕ, List, [], ◌∷◌, Option, none, some, ◌≡◌, inl, inr, refl, Option-cases, arith}
use sol_mesh.Client.Delivery.History.{receiver, deliveries, passed_to}
use sol_mesh.Client.Delivery.Remembers.{
  Remembers, fresh-Remembers, forward-receiver, on_join-Remembers, other-Remembers,
  on_close-Remembers,
}
use sol_mesh.Client.Relay.{
  join, other, Parser, Relay, Event, message, close, Delivery, fresh, on_join, deliver, on_close,
  prepend, step, run,
}

-- What a run sends, where it is worked off to the end.
abbrev pub sent_by : Option (Relay × List Delivery) → Option (List Delivery)
sent_by none = none
sent_by (some (r, out)) = some out

prepend-passed_to :
    (parse : Parser) (peer : Option ℕ) (raw : List ℕ) (out : List Delivery)
    → prepend (deliver peer raw) out ≡ passed_to parse peer raw out
prepend-passed_to parse none raw out = refl
prepend-passed_to parse (some peer) raw out = refl

module _ (parse : Parser) where
  run-deliveries :
      (r : Relay) (past es : List Event)
      → Remembers parse r past
      → sent_by (run parse r es) ≡ deliveries parse past es
  unfolding run deliveries step
  run-deliveries r past [] h = refl
  run-deliveries r past (close ws ∷ es) h =
      let rest =
        run-deliveries (on_close r ws) (close ws ∷ past) es
          (on_close-Remembers parse r past h ws) in
      ground (arith, rest)
  run-deliveries r past (message ws raw ∷ es) h = elim (Option-cases (parse raw)) [
    | inl failed ↦ ground (arith, failed)
    | inr (other, parsed) ↦
        let rest =
          run-deliveries r (message ws raw ∷ past) es
            (other-Remembers parse r past h ws raw parsed) in
        ground (
          arith,
          parsed,
          rest,
          forward-receiver parse r past h ws raw,
          prepend-passed_to parse (receiver parse past ws) raw,
        )
    | inr (join session role, parsed) ↦
        let rest =
          run-deliveries (on_join r ws session role) (message ws raw ∷ past) es
            (on_join-Remembers parse r past h ws raw session role parsed) in
        ground (arith, parsed, rest)
  ]

-- From a relay without channels, whatever the events: the relay sends exactly what the history says,
-- in that order. A frame that is no join goes, as it came, to whoever stands in the other role of its
-- sender's session (the provider's, for every role but that): the session and role are those of the sender's last join, or empty names without
-- one, and in a role stands the last one who joined in it, unless some socket that had joined in it
-- last has been closed since. The run ends without a result if a frame does not parse, and only then.
pub relay_delivers :
    (parse : Parser) (es : List Event) → sent_by (run parse fresh es) ≡ deliveries parse [] es
relay_delivers parse es = run-deliveries parse fresh [] es (fresh-Remembers parse)
