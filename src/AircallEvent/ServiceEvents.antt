-- ===== src/AircallEvent/ServiceEvents.antt =====
-- aircall-recording-event.mjs: the event that the decision service takes from a normalized webhook.
-- A key is a text: an object whose conversion to a text runs code of its own is left out.
use air_call_demo_recording.Base.{
  ◌≡◌, Bool, true, false, ◌&&◌, Option, none, some, [], ◌∷◌, arith, if◌then◌else◌, take,
}
use air_call_demo_recording.Base.Text.{Text, codes, text_eq}
use air_call_demo_recording.Base.Text.Laws.{text_eq_refl}
use air_call_demo_recording.Base.Text.Patterns.{is_opaque, is_phone, is_hash}
use air_call_demo_recording.Js.{
  Value, bool, str, ref, name, value, Descriptor, Proto, object_prototype, Kind, ordinary, proxy,
  HeapObject, Heap, deref, key_eq, find_property, own_descriptor,
}
use air_call_demo_recording.ConsentResolver.Leads.{Json}
use air_call_demo_recording.DecisionService.Envelope.{own_value}
use air_call_demo_recording.AircallEvent.{Input, Accepted, accepted, normalize_event}
use air_call_demo_recording.AircallEvent.Webhooks.{normalize_event-IsAuthentic}

pub record ServiceEvent : Type 0 where
  pub event_key : Text
  pub call_id : Text
  pub phone_digits : Text
  pub correlation : Text

abbrev is_object_prototype : Proto → Bool
is_object_prototype object_prototype = true
is_object_prototype _ = false

abbrev is_readable : Kind → Bool
is_readable proxy = false
is_readable _ = true

abbrev event_of : Value → Value → Value → Value → Value → Option ServiceEvent
event_of (bool true) (str key) (str call) (str phone) (str correlation) =
    if is_hash key && is_opaque call && is_phone phone && text_eq correlation (take 24 key)
    then some (record {
      event_key = key;
      call_id = call;
      phone_digits = phone;
      correlation = correlation;
    })
    else none
event_of _ _ _ _ _ = none

abbrev event_of_object : Option HeapObject → Option ServiceEvent
event_of_object none = none
event_of_object (some o) =
    if is_readable o.kind && is_object_prototype o.proto
    then event_of (own_value o (name (codes "accepted"))) (own_value o (name (codes "eventKey")))
        (own_value o (name (codes "callId"))) (own_value o (name (codes "phoneDigits")))
        (own_value o (name (codes "correlation")))
    else none

unfoldable pub to_decision_service_event : Heap → Value → Option ServiceEvent
to_decision_service_event h v = event_of_object (deref h v)

abbrev own : Value → Descriptor
own v = record { enumerable = true; content = value v }

-- The frozen object that an accepted webhook is given as.
abbrev pub accepted_object : Accepted → HeapObject
accepted_object a = record {
  kind = ordinary;
  proto = object_prototype;
  props =
      (name (codes "accepted"), own (bool true))
      ∷ (name (codes "eventName"), own (str a.event_name))
      ∷ (name (codes "callId"), own (str a.call_id))
      ∷ (name (codes "phoneDigits"), own (str a.phone_digits))
      ∷ (name (codes "eventKey"), own (str a.event_key))
      ∷ (name (codes "correlation"), own (str a.correlation))
      ∷ [];
}

to_decision_service_event-object :
    (a : Accepted)
    → is_hash a.event_key ≡ true
    → is_opaque a.call_id ≡ true
    → is_phone a.phone_digits ≡ true
    → a.correlation ≡ take 24 a.event_key
    → to_decision_service_event (accepted_object a ∷ []) (ref 0)
      ≡ some (record {
        event_key = a.event_key;
        call_id = a.call_id;
        phone_digits = a.phone_digits;
        correlation = a.correlation;
      })
unfolding to_decision_service_event deref own_value own_descriptor find_property key_eq text_eq
to_decision_service_event-object a key call phone same =
    let first : text_eq a.correlation (take 24 a.event_key) ≡ true =
      rw same (text_eq_refl (take 24 a.event_key)) in
    ground arith

-- If the keyed digest gives 64 hexadecimal digits, then what the normalization accepts is read back as
-- an event of the decision service, with its key, call, phone and correlation.
pub to_decision_service_event-normalize_event :
    (parse : Text → Option Json) (digest : Text → Text) (hmac : Text → Text → Text) (input : Input)
    (a : Accepted)
    → ((key t : Text) → is_hash (hmac key t) ≡ true)
    → normalize_event parse digest hmac input ≡ accepted a
    → to_decision_service_event (accepted_object a ∷ []) (ref 0)
      ≡ some (record {
        event_key = a.event_key;
        call_id = a.call_id;
        phone_digits = a.phone_digits;
        correlation = a.correlation;
      })
to_decision_service_event-normalize_event parse digest hmac input a hex e =
    let authentic = normalize_event-IsAuthentic parse digest hmac input a e in
    to_decision_service_event-object a (rw authentic.keyed (hex _ _)) authentic.id_opaque
      authentic.phone_valid authentic.correlated
