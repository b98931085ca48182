-- ===== src/Realtime/Relay.antt =====
-- `PubSub` of backend/internal/realtime/pubsub.go: the relay of updates between the instances of the
-- server. An envelope stands for its JSON; whether Redis takes a message is an argument. The subscription's
-- reconnection is left out.
use seatsync.Prelude.{
  ℕ, ◌≡◌, refl, Bool, true, false, Option, none, some, List, [], ◌∷◌, Text, text_eq, text_eq_refl,
  All, if◌then◌else◌,
}
use seatsync.Models.{SeatUpdate}
use seatsync.Realtime.Hub.{Hub, broadcast_seat_updates}
use seatsync.Realtime.Rooms.{WellFormed}
use seatsync.Realtime.Delivery.{broadcast_seat_updates-Delivered}

pub record Envelope : Type 0 where
  pub origin : Text
  pub event_id : ℕ
  pub seats : List SeatUpdate

-- One process: its identity and its hub.
pub record PubSub : Type 0 where
  pub origin : Text
  pub hub : Hub

abbrev pub sealed : Text → ℕ → List SeatUpdate → Envelope
sealed origin event_id seats = record { origin = origin; event_id = event_id; seats = seats }

module _ (event_of : ℕ → ℕ) where
  abbrev pub with_hub : PubSub → Option Hub → Option PubSub
  with_hub p none = none
  with_hub p (some h) = some (record p { hub = h })

  abbrev pub published : Option Envelope → Option PubSub → Option (PubSub × Option Envelope)
  published e none = none
  published e (some p) = some (p, e)

  -- The local delivery, then the message for the others, if Redis took it.
  unfoldable pub relay_seat_updates :
      Bool → ℕ → List SeatUpdate → PubSub → Option (PubSub × Option Envelope)
  relay_seat_updates taken event_id [] p = some (p, none)
  relay_seat_updates taken event_id (u ∷ us) p =
      published (if taken then some (sealed p.origin event_id (u ∷ us)) else none)
        (with_hub p (broadcast_seat_updates event_of event_id (u ∷ us) p.hub))

  -- An instance skips its own message.
  unfoldable pub deliver : Envelope → PubSub → Option PubSub
  deliver e p =
      if text_eq e.origin p.origin
      then some p
      else with_hub p (broadcast_seat_updates event_of e.event_id e.seats p.hub)

  abbrev pub cons_some : Option PubSub → Option (List PubSub) → Option (List PubSub)
  cons_some none ps = none
  cons_some (some p) none = none
  cons_some (some p) (some ps) = some (p ∷ ps)

  -- Every instance gets the message from Redis.
  unfoldable pub deliver_all : Envelope → List PubSub → Option (List PubSub)
  unfolding deliver
  deliver_all e [] = some []
  deliver_all e (p ∷ ps) = cons_some (deliver e p) (deliver_all e ps)

  -- The instance's hub has had this one broadcast, and no other.
  abbrev pub Once : ℕ → List SeatUpdate → PubSub → PubSub → Type 0
  Once event_id seats p p' =
      (p'.origin ≡ p.origin) × (broadcast_seat_updates event_of event_id seats p.hub ≡ some p'.hub)

  abbrev pub EachOnce : ℕ → List SeatUpdate → List PubSub → List PubSub → Type 0
  EachOnce event_id seats [] [] = Unit
  EachOnce event_id seats (p ∷ ps) (p' ∷ ps') =
      Once event_id seats p p' × EachOnce event_id seats ps ps'
  EachOnce event_id seats _ _ = ⊥

  deliver_all-EachOnce :
      (origin : Text) (event_id : ℕ) (u : SeatUpdate) (us : List SeatUpdate) (ps : List PubSub)
      → All (λ p. text_eq origin p.origin ≡ false) ps
      → All (λ p. WellFormed event_of p.hub) ps
      → (ps' : List PubSub) × (deliver_all (sealed origin event_id (u ∷ us)) ps ≡ some ps')
        × EachOnce event_id (u ∷ us) ps ps'
  unfolding deliver_all deliver
  deliver_all-EachOnce origin event_id u us [] d w = ([], refl, tt)
  deliver_all-EachOnce origin event_id u us (p ∷ ps) d w =
      let (h', e, well, each) = broadcast_seat_updates-Delivered event_of event_id u us p.hub w.0 in
      let (ps', es, once) = deliver_all-EachOnce origin event_id u us ps d.1 w.1 in
      (record p { hub = h' } ∷ ps', rw (d.0, e, es) refl, ((refl, e), once))

  -- Every instance shows an update once. If the hubs are well-formed and no other instance has the
  -- sender's identity, then after a broadcast that Redis takes, and its delivery to all instances, the
  -- sender among them, each instance's hub is where one broadcast of its own leads.
  pub relay-EachOnce :
      (event_id : ℕ) (u : SeatUpdate) (us : List SeatUpdate) (me : PubSub) (others : List PubSub)
      → All (λ p. text_eq me.origin p.origin ≡ false) others
      → WellFormed event_of me.hub
      → All (λ p. WellFormed event_of p.hub) others
      → (me' : PubSub) × (others' : List PubSub) × (relay_seat_updates true event_id (u ∷ us) me
          ≡ some (me', some (sealed me.origin event_id (u ∷ us))))
        × (deliver_all (sealed me.origin event_id (u ∷ us)) (me' ∷ others) ≡ some (me' ∷ others'))
        × EachOnce event_id (u ∷ us) (me ∷ others) (me' ∷ others')
  unfolding relay_seat_updates deliver_all deliver
  relay-EachOnce event_id u us me others distinct w ws =
      let (h', e, well, each) = broadcast_seat_updates-Delivered event_of event_id u us me.hub w in
      let (ps', es, once) = deliver_all-EachOnce me.origin event_id u us others distinct ws in
      (
        record me { hub = h' },
        ps',
        rw e refl,
        rw (text_eq_refl me.origin, es) refl,
        ((refl, e), once),
      )
