-- ===== src/Core/Storage/Events.antt =====
-- Storage: the table `events`, by which a delivery that comes twice is seen.
use review_agent_v.Prelude.{
  Text, text_eq, text_eq_iff, Bool, true, List, [], ◌∷◌, ◌++◌, any, map, if◌then◌else◌, ◌≡◌, ◌||◌,
  refl, arith,
}
use review_agent_v.Core.Storage.Tables.{Storage, Event}

unfoldable pub event_seen : Text → Storage → Bool
event_seen eid s = any (λ e. text_eq eid e.event_id) s.events

-- INSERT OR IGNORE
unfoldable pub record_event : Event → Storage → Storage
unfolding event_seen
record_event e s = if event_seen e.event_id s then s else record s { events = s.events ++ e ∷ [] }

abbrev handle_row : Text → Event → Event
handle_row eid e = if text_eq eid e.event_id then record e { handled = true } else e

unfoldable pub mark_event_handled : Text → Storage → Storage
mark_event_handled eid s = record s { events = map (handle_row eid) s.events }

any_snoc :
    (eid : Text) (e : Event) (events : List Event)
    → any (λ x. text_eq eid x.event_id) (events ++ e ∷ [])
      ≡ (any (λ x. text_eq eid x.event_id) events || text_eq eid e.event_id)
any_snoc eid e [] = ground arith
any_snoc eid e (x ∷ events) = ground (arith, any_snoc eid e events)

-- After an event is recorded exactly it and the events seen before are seen.
pub event_seen-record_event :
    (eid : Text) (e : Event) (s : Storage)
    → event_seen eid (record_event e s) ≡ (event_seen eid s || text_eq eid e.event_id)
unfolding record_event
event_seen-record_event eid e s =
    ground (arith, any_snoc eid e s.events, text_eq_iff eid e.event_id)

seen-map :
    (eid k : Text) (events : List Event)
    → any (λ x. text_eq eid x.event_id) (map (handle_row k) events)
      ≡ any (λ x. text_eq eid x.event_id) events
seen-map eid k [] = refl
seen-map eid k (x ∷ events) = ground (arith, seen-map eid k events)

pub event_seen-mark_event_handled :
    (eid k : Text) (s : Storage) → event_seen eid (mark_event_handled k s) ≡ event_seen eid s
unfolding event_seen mark_event_handled
event_seen-mark_event_handled eid k s = seen-map eid k s.events
