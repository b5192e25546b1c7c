-- ===== src/AuditReceiver/Events.antt =====
-- audit-only-receiver.mjs with aircall-recording-event.mjs: the bodies that reach the decision service.
use air_call_demo_recording.Base.{
  ℕ, ◌≤◌, ◌<◌, ◌≡◌, refl, ◌⊎◌, inl, inr, true, Option, some, List, [], ◌∷◌, ◌++◌, arith, ltb,
  Bool-cases, Option-cases, length,
}
use air_call_demo_recording.Base.Text.{Text}
use air_call_demo_recording.Base.Text.Patterns.{is_hash}
use air_call_demo_recording.Js.{ref}
use air_call_demo_recording.ConsentResolver.Leads.{Json}
use air_call_demo_recording.DecisionService.{StoreMethods, Dependencies, process}
use air_call_demo_recording.AircallEvent.{Normalized, accepted, rejected, RejectionReason, Accepted}
use air_call_demo_recording.AircallEvent.Webhooks.{IsAuthentic, normalize_event-IsAuthentic}
use air_call_demo_recording.AircallEvent.ServiceEvents.{
  ServiceEvent, to_decision_service_event-normalize_event,
}
use air_call_demo_recording.AuditReceiver.{
  Reply, BodyResult, whole, too_large, stream_error, read_body, read_chunks, Ending, ended, broken,
  public_decision,
}
use air_call_demo_recording.AuditReceiver.Requests.{
  Limits, answer_body, with_body, with_normalized, normalize, event_object, webhook_input, refusal,
}

-- The service's event of an accepted webhook.
abbrev pub service_event : Accepted → ServiceEvent
service_event a = record {
  event_key = a.event_key;
  call_id = a.call_id;
  phone_digits = a.phone_digits;
  correlation = a.correlation;
}

read_chunks-length :
    (limit : ℕ) (bytes : List ℕ) (chunks : List (List ℕ)) (ending : Ending) (read : List ℕ)
    → length bytes ≤ limit
    → read_chunks limit bytes chunks ending ≡ whole read
    → length read ≤ limit
unfolding read_chunks
read_chunks-length limit bytes [] ended read h e = ground arith
read_chunks-length limit bytes [] broken read h e = ground arith
read_chunks-length limit bytes (chunk ∷ chunks) ending read h e =
    elim (Bool-cases (ltb limit (length (bytes ++ chunk)))) [
      | inl b ↦ absurd (let e' : too_large ≡ whole read = rw b at e in cc e')
      | inr b ↦
          read_chunks-length limit (bytes ++ chunk) chunks ending read (ground arith) (rw b at e)
    ]

-- A reply of the kind that a client has to blame itself for.
abbrev pub IsClientError : Reply → Type 0
IsClientError r = (400 ≤ r.status) × (r.status < 500)

module _ (hash : Text → Text) (parse : Text → Option Json) (digest : Text → Text)
    (hmac : Text → Text → Text) (decode : List ℕ → Option Text) {S : Type 0}
    (store : StoreMethods S) (d : Dependencies) (g : Limits) where
  -- A whole body of a size within the limit, which decodes to an authentic webhook, and the reply of
  -- the service's decision on its event.
  pub record IsProcessed (chunks : List (List ℕ)) (ending : Ending) (s : S) (r : Reply × S)
      : Type 0 where
    pub bytes : List ℕ
    pub body_read : read_body g.max_body_bytes chunks ending ≡ whole bytes
    pub size_bounded : length bytes ≤ g.max_body_bytes
    pub payload : Text
    pub decoded : decode bytes ≡ some payload
    pub webhook : Accepted
    pub authentic : IsAuthentic parse digest hmac (webhook_input g payload) webhook
    pub decided_on : r ≡ (
      public_decision
          (process hash parse store d (event_object (service_event webhook) ∷ []) (ref 0) s).0,
      (process hash parse store d (event_object (service_event webhook) ∷ []) (ref 0) s).1,
    )

  refusal-IsClientError : (reason : RejectionReason) → IsClientError (refusal reason)
  refusal-IsClientError reason = ground arith

  payload-cases :
      (chunks : List (List ℕ)) (ending : Ending) (s : S) (bytes : List ℕ) (payload : Text)
      → ((key t : Text) → is_hash (hmac key t) ≡ true)
      → read_body g.max_body_bytes chunks ending ≡ whole bytes
      → decode bytes ≡ some payload
      → (n : Normalized) → normalize hash parse digest hmac decode store d g payload ≡ n
      → IsProcessed chunks ending s (with_normalized hash parse digest hmac decode store d g n s)
        ⊎ (((with_normalized hash parse digest hmac decode store d g n s).1 ≡ s)
            × IsClientError (with_normalized hash parse digest hmac decode store d g n s).0)
  unfolding read_body
  payload-cases chunks ending s bytes payload hex read decoded (rejected reason) e =
      inr (refl, refusal-IsClientError reason)
  payload-cases chunks ending s bytes payload hex read decoded (accepted a) e =
      let taken =
        to_decision_service_event-normalize_event parse digest hmac (webhook_input g payload) a hex
          e in
      inl (record {
        bytes = bytes;
        body_read = read;
        size_bounded =
            read_chunks-length g.max_body_bytes [] chunks ending bytes (omega arith) read;
        payload = payload;
        decoded = decoded;
        webhook = a;
        authentic = normalize_event-IsAuthentic parse digest hmac (webhook_input g payload) a e;
        decided_on = rw taken refl;
      })

  body-cases :
      (chunks : List (List ℕ)) (ending : Ending) (s : S)
      → ((key t : Text) → is_hash (hmac key t) ≡ true)
      → (b : BodyResult) → read_body g.max_body_bytes chunks ending ≡ b
      → IsProcessed chunks ending s (with_body hash parse digest hmac decode store d g b s)
        ⊎ (((with_body hash parse digest hmac decode store d g b s).1 ≡ s)
            × IsClientError (with_body hash parse digest hmac decode store d g b s).0)
  body-cases chunks ending s hex too_large e = inr (refl, omega arith)
  body-cases chunks ending s hex stream_error e = inr (refl, omega arith)
  body-cases chunks ending s hex (whole bytes) e = elim (Option-cases (decode bytes)) [
    | inl n ↦ rw n (inr (refl, omega arith))
    | inr (payload, n) ↦ rw n (payload-cases chunks ending s bytes payload hex e n _ refl)
  ]

  -- If the keyed digest gives 64 hexadecimal digits, whatever the body, its parsing, the digests, the
  -- store and the lookups: either the body is whole and within the limit, decodes to an authentic
  -- webhook, and the reply and the store are those of the service's decision on just its event; or the
  -- reply has a status from 400 to 499 and the store was not touched.
  pub answer_body-cases :
      (chunks : List (List ℕ)) (ending : Ending) (s : S)
      → ((key t : Text) → is_hash (hmac key t) ≡ true)
      → IsProcessed chunks ending s
          (answer_body hash parse digest hmac decode store d g chunks ending s)
        ⊎ (((answer_body hash parse digest hmac decode store d g chunks ending s).1 ≡ s)
            × IsClientError (answer_body hash parse digest hmac decode store d g chunks ending s).0)
  unfolding answer_body
  answer_body-cases chunks ending s hex = body-cases chunks ending s hex _ refl
