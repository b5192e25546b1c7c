-- ===== src/AuditReceiver/Requests.antt =====
-- audit-only-receiver.mjs: `handle` up to the wait for a body, `handle` from the body on, and the
-- receiver among its requests. `decode` is the fatal UTF-8 decoder, none where it throws; the others
-- are those of aircall-recording-event.mjs and consent-decision-service.mjs.
use air_call_demo_recording.AuditReceiver.Config.{Settings}
use air_call_demo_recording.Base.{
  ℕ, zero, suc, ◌+◌, ◌-◌, Bool, true, not, ◌&&◌, Option, none, some, List, [], ◌∷◌, leb,
  if◌then◌else◌, get_elem?,
}
use air_call_demo_recording.Base.Text.{Text, codes, text_eq}
use Prim.Native.String.{String}
use air_call_demo_recording.Js.{
  Value, Descriptor, HeapObject, ordinary, object_prototype, name, value, str, ref,
}
use air_call_demo_recording.ConsentResolver.Leads.{Json}
use air_call_demo_recording.DecisionService.{StoreMethods, Dependencies, process, ServiceOutcome}
use air_call_demo_recording.AircallEvent.{
  configuration, by_default, Normalized, accepted, rejected, RejectionReason, unauthenticated,
  normalize_event, Input,
}
use air_call_demo_recording.AircallEvent.ServiceEvents.{
  ServiceEvent, to_decision_service_event, accepted_object,
}
use air_call_demo_recording.AuditReceiver.{
  Reply, send, reject_request, json_content_type, content_length_too_large, BodyResult, whole,
  too_large, stream_error, read_body, Ending, public_decision, healthy, not_ok, refused_for,
  too_many_requests, not_found, unsupported_media_type, payload_too_large, bad_event,
  unauthenticated_event,
}

pub record Request : Type 0 where
  pub method : Text
  pub url : Text
  pub content_type : Option Text
  pub content_length : Option Text

-- The part of the configuration that requests meet.
pub record Limits : Type 0 where
  pub max_body_bytes : ℕ
  pub max_in_flight : ℕ
  pub expected_webhook_token : Text

abbrev pub limits_of : Settings → Limits
limits_of s = record {
  max_body_bytes = s.max_body_bytes;
  max_in_flight = s.max_in_flight;
  expected_webhook_token = s.expected_webhook_token;
}

-- What becomes of a request at once: a reply, the question of readiness, or the wait for its body.
pub data Admission : Type 0 where
  replied : Reply → Admission
  asks_readiness : Admission
  awaits_body : Admission

abbrev is_request : String → String → Request → Bool
is_request method url q = text_eq q.method (codes method) && text_eq q.url (codes url)

-- The tests between the counting of a request and its body.
unfoldable pub check_request : Limits → Request → Admission
check_request g q =
    if not (is_request "POST" "/aircall/recording/audit-events" q)
    then replied (reject_request 404 (refused_for not_found))
    else if not (json_content_type q.content_type)
    then replied (reject_request 415 (refused_for unsupported_media_type))
    else if content_length_too_large q.content_length g.max_body_bytes
    then replied (reject_request 413 (refused_for payload_too_large))
    else awaits_body

-- `handle` up to its first wait.
unfoldable pub admit : Limits → (closing : Bool) → (in_flight : ℕ) → Request → Admission
unfolding check_request
admit g closing in_flight q =
    if closing
    then replied (reject_request 503 not_ok)
    else if is_request "GET" "/health" q
    then replied (send 200 healthy)
    else if is_request "GET" "/ready" q
    then asks_readiness
    else if leb g.max_in_flight in_flight
    then replied (reject_request 429 (refused_for too_many_requests))
    else check_request g q

abbrev own : Value → Descriptor
own v = record { enumerable = true; content = value v }

-- The object that the receiver passes to `process`.
abbrev pub event_object : ServiceEvent → HeapObject
event_object e = record {
  kind = ordinary;
  proto = object_prototype;
  props =
      (name (codes "eventKey"), own (str e.event_key))
      ∷ (name (codes "callId"), own (str e.call_id))
      ∷ (name (codes "phoneDigits"), own (str e.phone_digits))
      ∷ [];
}

abbrev pub webhook_input : Limits → Text → Input
webhook_input g payload = configuration (record {
  payload_json = str payload;
  expected_webhook_token = str g.expected_webhook_token;
  allowed_events = by_default;
})

abbrev pub refusal : RejectionReason → Reply
refusal unauthenticated = send 401 (refused_for unauthenticated_event)
refusal _ = send 400 (refused_for bad_event)

module _ (hash : Text → Text) (parse : Text → Option Json) (digest : Text → Text)
    (hmac : Text → Text → Text) (decode : List ℕ → Option Text) {S : Type 0}
    (store : StoreMethods S) (d : Dependencies) (g : Limits) where
  abbrev pub normalize : Text → Normalized
  normalize payload = normalize_event parse digest hmac (webhook_input g payload)

  abbrev pub with_outcome : ServiceOutcome × S → Reply × S
  with_outcome (o, s) = (public_decision o, s)

  abbrev pub with_service_event : Option ServiceEvent → S → Reply × S
  with_service_event none s = (send 400 (refused_for bad_event), s)
  with_service_event (some e) s =
      with_outcome (process hash parse store d (event_object e ∷ []) (ref 0) s)

  abbrev pub with_normalized : Normalized → S → Reply × S
  with_normalized (rejected reason) s = (refusal reason, s)
  with_normalized (accepted a) s =
      with_service_event (to_decision_service_event (accepted_object a ∷ []) (ref 0)) s

  abbrev pub with_payload : Option Text → S → Reply × S
  with_payload none s = (send 400 (refused_for bad_event), s)
  with_payload (some payload) s = with_normalized (normalize payload) s

  abbrev pub with_body : BodyResult → S → Reply × S
  with_body too_large s = (reject_request 413 (refused_for payload_too_large), s)
  with_body stream_error s = (reject_request 400 (refused_for bad_event), s)
  with_body (whole bytes) s = with_payload (decode bytes) s

  -- `handle` from the body on.
  unfoldable pub answer_body : List (List ℕ) → Ending → S → Reply × S
  answer_body chunks ending s = with_body (read_body g.max_body_bytes chunks ending) s

-- The receiver: whether it closes, its count of requests in flight, and those requests.
pub record Receiver : Type 0 where
  pub closing : Bool
  pub in_flight : ℕ
  pub handling : List Request

pub data Step : Type 0 where
  arriving : Request → Step
  finishing : ℕ → Step
  closing_down : Step

abbrev pub admitted : Receiver → Request → Admission → Receiver
admitted r q awaits_body = record r { in_flight = r.in_flight + 1; handling = q ∷ r.handling }
admitted r q _ = r

abbrev pub remove_elem {ℓ} : {A : Type ℓ} → List A → ℕ → List A
remove_elem [] i = []
remove_elem (x ∷ xs) zero = xs
remove_elem (x ∷ xs) (suc i) = x ∷ remove_elem xs i

abbrev pub finished : Receiver → ℕ → Option Request → Receiver
finished r i none = r
finished r i (some q) = record r {
  in_flight = r.in_flight - 1;
  handling = remove_elem r.handling i;
}

-- A request that is answered at once leaves the count as it was. One that waits is counted until it
-- finishes, after its reply or after an error.
unfoldable pub receive : Limits → Step → Receiver → Receiver
receive g (arriving q) r = admitted r q (admit g r.closing r.in_flight q)
receive g (finishing i) r = finished r i (get_elem? r.handling i)
receive g closing_down r = record r { closing = true }

unfoldable pub receive_all : Limits → List Step → Receiver → Receiver
receive_all g [] r = r
receive_all g (e ∷ steps) r = receive_all g steps (receive g e r)
