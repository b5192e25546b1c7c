-- ===== src/AircallClient.antt =====
-- aircall-recording-client.mjs: one request to resume the recording of a call. `fetch` is a function
-- of the address, since the method and the headers are the same for every call; a signal that is no
-- AbortSignal throws before anything is sent and is left out.
pub mod Requests
mod Examples
use air_call_demo_recording.Base.{
  ℕ, zero, suc, ◌+◌, ◌-◌, ◌*◌, ◌/◌, ◌%◌, ◌^◌, ◌≤◌, ◌<◌, ◌≡◌, refl, sym, ap, ◌∙◌, ◌≢◌, ◌↔◌, ◌⊎◌, inl,
  inr, Bool, true, false, not, ◌&&◌, ◌||◌, Option, none, some, List, [], ◌∷◌, ◌++◌, map, arith, ltb,
  leb, ◌==◌, if◌then◌else◌, ==_iff, Bool-cases, Option-cases, and-both, length, take, get_elem?,
  get_elem?-lt, all, any, All, Attempt, returned, thrown,
}
use air_call_demo_recording.Base.Text.{Text, codes, trim}
use air_call_demo_recording.Base.Text.Patterns.{is_alnum, is_opaque_unit}
use air_call_demo_recording.Js.{Value, str, bool, num, Number, natural}

pub data ErrorCode : Type 0 where
  invalid_call_id aircall_network_failure aircall_terminal_failure : ErrorCode
  aircall_server_failure aircall_client_failure : ErrorCode

pub data StatusCategory : Type 0 where
  invalid_input network_error terminal server_error client_error : StatusCategory

-- AircallRecordingClientError
pub record ClientError : Type 0 where
  pub code : ErrorCode
  pub status_category : StatusCategory
  pub retryable : Bool

-- What fetch answers: an object whose `ok` and `status` can be read, or none that can.
pub data Response : Type 0 where
  readable : (ok status : Value) → Response
  unreadable : Response

pub data Outcome : Type 0 where
  resumed : Outcome
  failed : ClientError → Outcome

abbrev pub network_failure : ClientError
network_failure = record {
  code = aircall_network_failure;
  status_category = network_error;
  retryable = true;
}

-- SAFE_OPAQUE_CALL_ID
unfoldable pub is_safe_call_id : Text → Bool
is_safe_call_id [] = false
is_safe_call_id (c ∷ t) = is_alnum c && all is_opaque_unit t && leb (length t) 255

-- Whether a unit is a letter of a pattern, which is in lower case, in either case.
abbrev pub matches_unit : ℕ → ℕ → Bool
matches_unit p c = c == p || leb b'A' c && c + 32 == p

unfoldable pub starts_with : Text → Text → Bool
starts_with [] t = true
starts_with (p ∷ ps) [] = false
starts_with (p ∷ ps) (c ∷ t) = matches_unit p c && starts_with ps t

abbrev pub schemes : List Text
schemes =
    codes "http:"
    ∷ codes "https:"
    ∷ codes "ftp:"
    ∷ codes "file:"
    ∷ codes "data:"
    ∷ codes "javascript:"
    ∷ []

-- `includes("://")`; no unit of this pattern has two cases.
unfoldable pub has_authority : Text → Bool
has_authority [] = false
has_authority (c ∷ t) = starts_with (codes "://") (c ∷ t) || has_authority t

-- The test of `encodeCallId`.
unfoldable pub accepts_call_id : Text → Bool
accepts_call_id t =
    is_safe_call_id t && not (any (λ s. starts_with s t) schemes) && not (has_authority t)

-- `encodeURIComponent` of a unit of a safe call id: of these it escapes the colon alone.
abbrev pub encode_unit : ℕ → Text
encode_unit c = if c == b':' then codes "%3A" else c ∷ []

unfoldable pub encode : Text → Text
encode [] = []
encode (c ∷ t) = encode_unit c ++ encode t

unfoldable pub request_url : Text → Text
request_url t = codes "https://api.aircall.io/v1/calls/" ++ (encode t ++ codes "/resume_recording")

unfoldable pub response_category : ℕ → ClientError
response_category n =
    if n == 404 || n == 409 || n == 422
    then record { code = aircall_terminal_failure; status_category = terminal; retryable = false }
    else if leb 500 n && leb n 599
    then record { code = aircall_server_failure; status_category = server_error; retryable = true }
    else record { code = aircall_client_failure; status_category = client_error; retryable = false }

abbrev pub bool_same : Bool → Bool → Bool
bool_same true b = b
bool_same false b = not b

-- `snapshotResponse` and what follows: a response is sound if its status is an integer from 100 to
-- 599 and its flag says whether the status is one of success.
abbrev pub classify_status : Bool → ℕ → Outcome
classify_status ok n =
    if leb 100 n && leb n 599 && bool_same ok (leb 200 n && leb n 299)
    then if ok then resumed else failed (response_category n)
    else failed network_failure

abbrev pub classify_number : Bool → Number → Outcome
classify_number ok (natural n) = classify_status ok n
classify_number ok _ = failed network_failure

unfoldable pub classify_response : Response → Outcome
classify_response (readable (bool ok) (num n)) = classify_number ok n
classify_response _ = failed network_failure

abbrev pub after_fetch : Attempt Response → Outcome
after_fetch thrown = failed network_failure
after_fetch (returned r) = classify_response r

abbrev pub invalid_id : Outcome
invalid_id =
    failed (record { code = invalid_call_id; status_category = invalid_input; retryable = false })

unfoldable pub resume_recording : (Text → Attempt Response) → Value → Outcome
resume_recording fetch (str t) =
    if accepts_call_id t then after_fetch (fetch (request_url t)) else invalid_id
resume_recording fetch _ = invalid_id
