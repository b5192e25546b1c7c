-- ===== src/AircallClient/Examples.antt =====
-- aircall-recording-client.mjs: a request that succeeds and one that may be retried.
use air_call_demo_recording.Base.{
  ℕ, some, none, ◌≤◌, ◌≡◌, refl, ◌↔◌, ◌⊎◌, true, false, if◌then◌else◌, Attempt,
}
use air_call_demo_recording.Base.Text.{Text, codes, text_eq}
use air_call_demo_recording.Base.Text.Patterns.{is_alnum, is_digit, is_opaque_unit}
use air_call_demo_recording.Js.{str}
use air_call_demo_recording.AircallClient.{
  ClientError, aircall_network_failure, aircall_server_failure, server_error, Response, resumed,
  failed, is_safe_call_id, starts_with, has_authority, accepts_call_id, encode, request_url,
  response_category, classify_response, resume_recording,
}
use air_call_demo_recording.AircallClient.Requests.{
  answer, IsResumed, resume_recording_iff, resume_recording-retryable, decode_from,
  decode_from-encode,
}

abbrev call_one : Text
call_one = codes "call:1"

abbrev call_two : Text
call_two = codes "2"

-- A server that knows one call.
abbrev server : Text → Attempt Response
server url = if text_eq url (request_url call_one) then answer true 204 else answer false 503

abbrev unavailable : ClientError
unavailable = record {
  code = aircall_server_failure;
  status_category = server_error;
  retryable = true;
}

resume_recording_iff_example :
    (resume_recording server (str call_one) ≡ resumed) ↔ IsResumed server (str call_one)
resume_recording_iff_example = resume_recording_iff server (str call_one)

resumed_run : resume_recording server (str call_one) ≡ resumed
unfolding resume_recording request_url encode accepts_call_id is_safe_call_id starts_with
    has_authority classify_response text_eq is_alnum is_digit is_opaque_unit
resumed_run = refl

failed_run : resume_recording server (str call_two) ≡ failed unavailable
unfolding resume_recording request_url encode accepts_call_id is_safe_call_id starts_with
    has_authority classify_response response_category text_eq is_alnum is_digit is_opaque_unit
failed_run = refl

resume_recording-retryable_example :
    (accepts_call_id call_two ≡ true)
    × ((aircall_server_failure ≡ aircall_network_failure)
        ⊎ ((n : ℕ) × (server (request_url call_two) ≡ answer false n) × (500 ≤ n) × (n ≤ 599)))
resume_recording-retryable_example =
    resume_recording-retryable server call_two unavailable failed_run refl

accepted_run : accepts_call_id call_one ≡ true
unfolding accepts_call_id is_safe_call_id starts_with has_authority is_alnum is_digit is_opaque_unit
accepted_run = refl

decode_from-encode_example : decode_from 0 (encode call_one) ≡ some call_one
decode_from-encode_example = decode_from-encode call_one accepted_run

decoded_slash : decode_from 0 (codes "a%2fb") ≡ some (codes "a/b")
unfolding decode_from
decoded_slash = refl

cut_off : decode_from 0 (codes "a%2") ≡ none
unfolding decode_from
cut_off = refl
