-- ===== src/AircallEvent/Webhooks.antt =====
-- aircall-recording-event.mjs: what an accepted webhook guarantees.
use mathlib.Core.Option.{none}
use air_call_demo_recording.Base.Text.Laws.{text_eq→eq}
use air_call_demo_recording.Base.{◌≡◌, refl, true, Option, some, ◌∷◌, ◌++◌, arith, take}
use air_call_demo_recording.Base.Text.{Text, codes, text_eq}
use air_call_demo_recording.Base.Text.Patterns.{is_opaque, is_phone}
use air_call_demo_recording.Js.{str}
use air_call_demo_recording.ConsentResolver.Leads.{Json, text, Fields, get}
use air_call_demo_recording.AircallEvent.{
  Input, Config, Accepted, accepted, valid_event_name, includes, read_config, parse_payload,
  extract_single_call, accept, with_ids, with_token, with_payload, with_event, with_config,
  normalize_event, with_call,
}

module _ (parse : Text → Option Json) (digest : Text → Text) (hmac : Text → Text → Text) where
  -- An authenticated body with an allowed event and one call.
  pub record IsAuthentic (input : Input) (a : Accepted) : Type 0 where
    pub settings : Config
    pub settings_read : read_config input ≡ some settings
    pub payload : Fields
    pub parsed : parse_payload parse digest hmac settings.payload_json ≡ some payload
    pub token : Text
    pub token_given : get (codes "token") payload ≡ some (text token)
    pub same_digest : digest token ≡ digest settings.expected_webhook_token
    pub event_given : get (codes "event") payload ≡ some (text a.event_name)
    pub event_valid : valid_event_name a.event_name ≡ true
    pub event_allowed : includes settings.allowed_events (str a.event_name) ≡ true
    pub call : Fields
    pub call_given : extract_single_call payload ≡ some call
    pub id_given : get (codes "id") call ≡ some (text a.call_id)
    pub id_opaque : is_opaque a.call_id ≡ true
    pub phone_given : get (codes "raw_digits") call ≡ some (text a.phone_digits)
    pub phone_valid : is_phone a.phone_digits ≡ true
    pub keyed :
        a.event_key
        ≡ hmac settings.expected_webhook_token
            (codes "aircall-recording-v1" ++ (0 ∷ (a.event_name ++ (0 ∷ a.call_id))))
    pub correlated : a.correlation ≡ take 24 a.event_key

  with_ids-accepted :
      (c : Config) (event : Text) (i p : Option Json) (a : Accepted)
      → with_ids parse digest hmac c event i p ≡ accepted a
      → (call phone : Text) × (i ≡ some (text call))
        × (p ≡ some (text phone))
        × (is_opaque call ≡ true)
        × (is_phone phone ≡ true)
        × (a ≡ accept parse digest hmac c event call phone)
  with_ids-accepted c event (some (text call)) (some (text phone)) a e =
      (call, phone, refl, refl, ground arith, ground arith, ground arith)
  with_ids-accepted c event i p a e = absurd (ground arith)

  with_call-accepted :
      (c : Config) (event : Text) (o : Option Fields) (a : Accepted)
      → with_call parse digest hmac c event o ≡ accepted a
      → (call : Fields) × (i p : Text) × (o ≡ some call)
        × (get (codes "id") call ≡ some (text i))
        × (get (codes "raw_digits") call ≡ some (text p))
        × (is_opaque i ≡ true)
        × (is_phone p ≡ true)
        × (a ≡ accept parse digest hmac c event i p)
  with_call-accepted c event none a e = cc
  with_call-accepted c event (some call) a e =
      let (i, p, id, phone, opaque, valid, same) = with_ids-accepted c event _ _ a e in
      (call, i, p, refl, id, phone, opaque, valid, same)

  with_event-accepted :
      (c : Config) (payload : Fields) (o : Option Json) (a : Accepted)
      → with_event parse digest hmac c payload o ≡ accepted a
      → (event : Text) × (o ≡ some (text event))
        × (valid_event_name event ≡ true)
        × (includes c.allowed_events (str event) ≡ true)
        × (with_call parse digest hmac c event (extract_single_call payload) ≡ accepted a)
  with_event-accepted c payload (some (text event)) a e =
      (event, refl, ground arith, ground arith, ground arith)
  with_event-accepted c payload o a e = absurd (ground arith)

  with_token-accepted :
      (c : Config) (payload : Fields) (o : Option Json) (a : Accepted)
      → with_token parse digest hmac c payload o ≡ accepted a
      → (token : Text) × (o ≡ some (text token))
        × (text_eq (digest token) (digest c.expected_webhook_token) ≡ true)
        × (with_event parse digest hmac c payload (get (codes "event") payload) ≡ accepted a)
  with_token-accepted c payload (some (text token)) a e = (token, refl, ground arith, ground arith)
  with_token-accepted c payload o a e = absurd (ground arith)

  with_payload-IsAuthentic :
      (input : Input) (c : Config) (o : Option Fields) (a : Accepted)
      → read_config input ≡ some c
      → parse_payload parse digest hmac c.payload_json ≡ o
      → with_payload parse digest hmac c o ≡ accepted a
      → IsAuthentic input a
  with_payload-IsAuthentic input c none a read parsed e = cc
  with_payload-IsAuthentic input c (some payload) a read parsed e =
      let (token, given, same, event_left) = with_token-accepted c payload _ a e in
      let (event, named, valid, allowed, call_left) =
        with_event-accepted c payload _ a event_left in
      let (call, i, p, found, id, phone, opaque, dialled, is) =
        with_call-accepted c event _ a call_left in
      rw is (record {
        settings = c;
        settings_read = read;
        payload = payload;
        parsed = parsed;
        token = token;
        token_given = given;
        same_digest = text_eq→eq _ _ same;
        event_given = named;
        event_valid = valid;
        event_allowed = allowed;
        call = call;
        call_given = found;
        id_given = id;
        id_opaque = opaque;
        phone_given = phone;
        phone_valid = dialled;
        keyed = refl;
        correlated = refl;
      })

  with_config-IsAuthentic :
      (input : Input) (o : Option Config) (a : Accepted)
      → read_config input ≡ o
      → with_config parse digest hmac o ≡ accepted a
      → IsAuthentic input a
  with_config-IsAuthentic input none a read e = cc
  with_config-IsAuthentic input (some c) a read e = with_payload-IsAuthentic input c _ a read refl e

-- Whatever the body parses to and whatever the digests are: a webhook that is accepted had a readable
-- configuration and a bounded body whose token has the digest of the expected one; its event is
-- allowed by the configuration; its call is the single one at `data`, with an opaque id and a phone
-- of 10 to 15 digits; and its key is the keyed digest of just the event and the call's id, with the
-- first 24 units as its correlation.
pub normalize_event-IsAuthentic :
    (parse : Text → Option Json) (digest : Text → Text) (hmac : Text → Text → Text) (input : Input)
    (a : Accepted)
    → normalize_event parse digest hmac input ≡ accepted a
    → IsAuthentic parse digest hmac input a
unfolding normalize_event
normalize_event-IsAuthentic parse digest hmac input a e =
    with_config-IsAuthentic parse digest hmac input _ a refl e
