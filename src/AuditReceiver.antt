-- ===== src/AuditReceiver.antt =====
-- audit-only-receiver.mjs: what the receiver makes of one request and of its body. The server of
-- node:http, its sockets and timeouts, and the headers of the replies are left out.
pub mod Config
pub mod Requests
pub mod Bounds
pub mod Readiness
pub mod Accepted
pub mod Events
mod Examples
use air_call_demo_recording.Base.{
  ℕ, zero, suc, ◌+◌, ◌-◌, ◌*◌, ◌/◌, ◌%◌, ◌^◌, ◌≤◌, ◌<◌, ◌≡◌, refl, sym, ap, ◌∙◌, ◌≢◌, ◌↔◌, ◌⊎◌, inl,
  inr, Bool, true, false, not, ◌&&◌, ◌||◌, Option, none, some, List, [], ◌∷◌, ◌++◌, map, arith, ltb,
  leb, ◌==◌, if◌then◌else◌, ==_iff, Bool-cases, Option-cases, and-both, length, take, get_elem?,
  get_elem?-lt, all, any, All, Attempt, returned, thrown,
}
use air_call_demo_recording.Base.Text.{Text, codes, text_eq, is_space, trim_start}
use air_call_demo_recording.Base.Text.Patterns.{is_digit}
use air_call_demo_recording.DecisionService.{ServiceOutcome, decided}
use air_call_demo_recording.DecisionService
use air_call_demo_recording.ConsentStore.{DecisionReason, dependency_failure, invalid_event}

pub data ErrorCode : Type 0 where
  too_many_requests not_found unsupported_media_type payload_too_large : ErrorCode
  bad_event unauthenticated_event : ErrorCode

pub data ReplyBody : Type 0 where
  healthy ready_now not_ok duplicate_event failed_dependency : ReplyBody
  refused_for : ErrorCode → ReplyBody
  left_for : DecisionReason → ReplyBody

-- A reply; `closes` says that the connection is closed after it, as `rejectRequest` does.
pub record Reply : Type 0 where
  pub status : ℕ
  pub body : ReplyBody
  pub closes : Bool

abbrev pub send : ℕ → ReplyBody → Reply
send status body = record { status = status; body = body; closes = false }

abbrev pub reject_request : ℕ → ReplyBody → Reply
reject_request status body = record { status = status; body = body; closes = true }

-- The lower case of an ASCII letter, as the flag i folds it against an ASCII pattern.
abbrev fold_case : ℕ → ℕ
fold_case c = if leb b'A' c && leb c b'Z' then c + 32 else c

-- What follows a lower-case prefix, whatever its case.
unfoldable pub after_prefix : Text → Text → Option Text
after_prefix [] t = some t
after_prefix (p ∷ ps) [] = none
after_prefix (p ∷ ps) (c ∷ t) = if fold_case c == p then after_prefix ps t else none

infixl 5 ◌>>=◌
abbrev ◌>>=◌ {ℓ κ} : {A : Type ℓ} {B : Type κ} → Option A → (A → Option B) → Option B
none >>= k = none
some a >>= k = k a

abbrev is_end : Text → Bool
is_end [] = true
is_end _ = false

-- \s*;\s*charset\s*=\s*utf-8\s*
abbrev after_parameter : Text → Option Text
after_parameter t = do
  a ← after_prefix (codes ";") t
  b ← after_prefix (codes "charset") (trim_start a)
  c ← after_prefix (codes "=") (trim_start b)
  after_prefix (codes "utf-8") (trim_start c)

abbrev ends_blank : Option Text → Bool
ends_blank none = false
ends_blank (some t) = is_end (trim_start t)

abbrev after_type : Option Text → Bool
after_type none = false
after_type (some t) = is_end (trim_start t) || ends_blank (after_parameter (trim_start t))

-- `jsonContentType`; a header that is not there is none.
unfoldable pub json_content_type : Option Text → Bool
json_content_type none = false
json_content_type (some t) = after_type (after_prefix (codes "application/json") (trim_start t))

unfoldable pub decimal : ℕ → Text → ℕ
decimal n [] = n
decimal n (c ∷ t) = decimal (n * 10 + (c - b'0')) t

-- /^(?:0|[1-9][0-9]*)$/
abbrev is_decimal : Text → Bool
is_decimal [] = false
is_decimal (c ∷ t) = all is_digit (c ∷ t) && (not (c == b'0') || is_end t)

-- `contentLengthTooLarge`
unfoldable pub content_length_too_large : Option Text → ℕ → Bool
content_length_too_large none limit = false
content_length_too_large (some t) limit = is_decimal t && ltb limit (decimal 0 t)

-- How the stream of a body comes to its end.
pub data Ending : Type 0 where
  ended broken : Ending

pub data BodyResult : Type 0 where
  whole : List ℕ → BodyResult
  too_large stream_error : BodyResult

abbrev at_ending : List ℕ → Ending → BodyResult
at_ending bytes ended = whole bytes
at_ending bytes broken = stream_error

unfoldable pub read_chunks : ℕ → List ℕ → List (List ℕ) → Ending → BodyResult
read_chunks limit bytes [] ending = at_ending bytes ending
read_chunks limit bytes (chunk ∷ chunks) ending =
    let rest = read_chunks limit (bytes ++ chunk) chunks ending in
    if ltb limit (length (bytes ++ chunk)) then too_large else rest

-- `readBody`
unfoldable pub read_body : ℕ → List (List ℕ) → Ending → BodyResult
read_body limit chunks ending = read_chunks limit [] chunks ending

-- `publicDecision`
unfoldable pub public_decision : ServiceOutcome → Reply
public_decision DecisionService.duplicate = send 202 duplicate_event
public_decision (decided r) = elim r.reason [
  | dependency_failure ↦ send 503 failed_dependency
  | invalid_event ↦ send 503 failed_dependency
  | reason ↦ send 202 (left_for reason)
]
