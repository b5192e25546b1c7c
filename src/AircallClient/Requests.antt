-- ===== src/AircallClient/Requests.antt =====
-- aircall-recording-client.mjs: what a request's outcome says, and which calls it addresses.
use air_call_demo_recording.Base.{
  ℕ, zero, suc, ◌+◌, ◌-◌, ◌*◌, Option, none, some, ltb, ◌≤◌, ◌≡◌, refl, ap, ◌↔◌, ◌⊎◌, inl, inr,
  Bool, true, false, ◌&&◌, ◌||◌, [], ◌∷◌, arith, leb, ◌==◌, if◌then◌else◌, Bool-cases, all, Attempt,
  returned,
}
use air_call_demo_recording.Base.Text.{Text}
use air_call_demo_recording.Base.Text.Patterns.{is_alnum, is_digit, is_opaque_unit}
use air_call_demo_recording.Js.{Value, str, bool, num, natural}
use air_call_demo_recording.AircallClient.{
  ClientError, aircall_network_failure, Response, readable, resumed, failed, is_safe_call_id,
  accepts_call_id, encode, request_url, response_category, classify_status, classify_response,
  after_fetch, resume_recording,
}

-- A response with the flag and the status.
abbrev pub answer : Bool → ℕ → Attempt Response
answer ok n = returned (readable (bool ok) (num (natural n)))

classify_status-resumed :
    (ok : Bool) (n : ℕ) → classify_status ok n ≡ resumed → (ok ≡ true) × (200 ≤ n) × (n ≤ 299)
classify_status-resumed true n e = ground arith
classify_status-resumed false n e = absurd (ground arith)

after_fetch-resumed :
    (a : Attempt Response)
    → after_fetch a ≡ resumed
    → (n : ℕ) × (a ≡ answer true n) × (200 ≤ n) × (n ≤ 299)
unfolding classify_response
after_fetch-resumed (returned (readable (bool ok) (num (natural n)))) e =
    let (is_ok, low, high) = classify_status-resumed ok n e in
    (n, ap (λ b. answer b n) is_ok, low, high)
after_fetch-resumed _ e = absurd (ground arith)

after_fetch-answer : (n : ℕ) → 200 ≤ n → n ≤ 299 → after_fetch (answer true n) ≡ resumed
unfolding classify_response
after_fetch-answer n low high = ground arith

-- What it takes for a recording to be resumed.
pub record IsResumed (fetch : Text → Attempt Response) (call_id : Value) : Type 0 where
  pub id : Text
  pub is_id : call_id ≡ str id
  pub accepted : accepts_call_id id ≡ true
  pub status : ℕ
  pub answered : fetch (request_url id) ≡ answer true status
  pub at_least : 200 ≤ status
  pub at_most : status ≤ 299

resume_recording-str :
    (fetch : Text → Attempt Response) (t : Text)
    → resume_recording fetch (str t) ≡ resumed
    → IsResumed fetch (str t)
unfolding resume_recording
resume_recording-str fetch t e = elim (Bool-cases (accepts_call_id t)) [
  | inl ok ↦
      let (n, answered, low, high) = after_fetch-resumed (fetch (request_url t)) (rw ok at e) in
      record {
        id = t;
        is_id = refl;
        accepted = ok;
        status = n;
        answered = answered;
        at_least = low;
        at_most = high;
      }
  | inr refused ↦ absurd (ground arith)
]

-- Whatever fetch does: the recording is resumed exactly if the call id is an accepted text and fetch
-- answers its address with a true `ok` and a status from 200 to 299.
pub resume_recording_iff :
    (fetch : Text → Attempt Response) (call_id : Value)
    → (resume_recording fetch call_id ≡ resumed) ↔ IsResumed fetch call_id
resume_recording_iff fetch call_id = (only call_id, enough)
  where
    only : (v : Value) → resume_recording fetch v ≡ resumed → IsResumed fetch v
    only (str t) e = resume_recording-str fetch t e
    only _ e = absurd (unfold resume_recording in ground arith)

    enough : IsResumed fetch call_id → resume_recording fetch call_id ≡ resumed
    enough r =
        let done : resume_recording fetch (str r.id) ≡ resumed =
          unfold resume_recording in
          rw (r.accepted, r.answered) (after_fetch-answer r.status r.at_least r.at_most) in
        rw r.is_id done

after_fetch-retryable :
    (a : Attempt Response) (error : ClientError)
    → after_fetch a ≡ failed error
    → error.retryable ≡ true
    → (error.code ≡ aircall_network_failure)
      ⊎ ((n : ℕ) × (a ≡ answer false n) × (500 ≤ n) × (n ≤ 599))
unfolding classify_response response_category
after_fetch-retryable (returned (readable (bool true) (num (natural n)))) error e r =
    inl (ground arith)
after_fetch-retryable (returned (readable (bool false) (num (natural n)))) error e r =
    elim (Bool-cases (leb 500 n && leb n 599)) [
      | inl server ↦ inr (n, refl, ground arith, ground arith)
      | inr other ↦ inl (ground arith)
    ]
after_fetch-retryable _ error e r = inl (ground arith)

-- A failure that may be retried is one of the network, an unsound response included, or the answer
-- of a status from 500 to 599 to the address of an accepted call id.
pub resume_recording-retryable :
    (fetch : Text → Attempt Response) (t : Text) (error : ClientError)
    → resume_recording fetch (str t) ≡ failed error
    → error.retryable ≡ true
    → (accepts_call_id t ≡ true)
      × ((error.code ≡ aircall_network_failure)
          ⊎ ((n : ℕ) × (fetch (request_url t) ≡ answer false n) × (500 ≤ n) × (n ≤ 599)))
unfolding resume_recording
resume_recording-retryable fetch t error e r = elim (Bool-cases (accepts_call_id t)) [
  | inl ok ↦ (ok, after_fetch-retryable (fetch (request_url t)) error (rw ok at e) r)
  | inr refused ↦ absurd (ground arith)
]

-- A hexadecimal digit, of either case.
unfoldable hex_value : ℕ → Option ℕ
hex_value c =
    if leb b'0' c && leb c b'9'
    then some (c - b'0')
    else if leb b'A' c && leb c b'F'
    then some (c - b'A' + 10)
    else if leb b'a' c && leb c b'f'
    then some (c - b'a' + 10)
    else none

abbrev byte_of : Option ℕ → Option ℕ → Option ℕ
byte_of (some high) (some low) = if ltb (16 * high + low) 128 then some (16 * high + low) else none
byte_of _ _ = none

-- The unit of an escape's two digits; an escape that is cut off, has another sign or stands for a part of
-- a longer sequence has none.
abbrev escape_value : Text → Option ℕ
unfolding hex_value
escape_value (high ∷ low ∷ t) = byte_of (hex_value high) (hex_value low)
escape_value _ = none

abbrev put_unit : Option ℕ → Option Text → Option Text
put_unit (some c) (some t) = some (c ∷ t)
put_unit _ _ = none

-- Percent-decoding (RFC 3986, section 2.1) of a text with escapes of ASCII units, as the receiver of a
-- path does it; the number is that of the signs to skip.
unfoldable pub decode_from : ℕ → Text → Option Text
unfolding hex_value
decode_from skip [] = some []
decode_from (suc skip) (c ∷ t) = decode_from skip t
decode_from zero (c ∷ t) =
    let escaped = decode_from 2 t in
    let rest = decode_from 0 t in
    if c == b'%' then put_unit (escape_value t) escaped else put_unit (some c) rest

decode_from-encode-all :
    (t : Text) → all is_opaque_unit t ≡ true → decode_from 0 (encode t) ≡ some t
unfolding decode_from hex_value encode is_opaque_unit is_alnum is_digit
decode_from-encode-all [] h = refl
decode_from-encode-all (c ∷ t) h = elim (Bool-cases (c == b':')) [
  | inl colon ↦ ground (arith, decode_from-encode-all t)
  | inr other ↦ ground (arith, decode_from-encode-all t)
]

is_safe_call_id-units : (t : Text) → is_safe_call_id t ≡ true → all is_opaque_unit t ≡ true
unfolding is_safe_call_id is_opaque_unit
is_safe_call_id-units [] h = refl
is_safe_call_id-units (c ∷ t) h = ground arith

-- The path segment of an accepted call id, percent-decoded, is the call id.
pub decode_from-encode : (t : Text) → accepts_call_id t ≡ true → decode_from 0 (encode t) ≡ some t
unfolding accepts_call_id
decode_from-encode t h = decode_from-encode-all t (is_safe_call_id-units t (ground arith))

-- Letters, digits, and the signs that cannot end the segment of a path.
abbrev pub is_segment_unit : ℕ → Bool
is_segment_unit c = is_alnum c || c == b'.' || c == b'_' || c == b'-' || c == b'%'

encode-segment-all :
    (t : Text) → all is_opaque_unit t ≡ true → all is_segment_unit (encode t) ≡ true
unfolding encode is_opaque_unit is_alnum is_digit
encode-segment-all [] h = refl
encode-segment-all (c ∷ t) h = elim (Bool-cases (c == b':')) [
  | inl colon ↦ ground (arith, encode-segment-all t)
  | inr other ↦ ground (arith, encode-segment-all t)
]

-- The encoding of an accepted call id has no unit that could end its segment of the path.
pub encode-segment : (t : Text) → accepts_call_id t ≡ true → all is_segment_unit (encode t) ≡ true
unfolding accepts_call_id
encode-segment t h = encode-segment-all t (is_safe_call_id-units t (ground arith))
