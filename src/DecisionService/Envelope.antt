-- ===== src/DecisionService/Envelope.antt =====
-- consent-decision-service.mjs: the snapshots of an event and of what the store's `claim` answers.
use air_call_demo_recording.Base.{
  Bool, true, false, not, ◌&&◌, ◌||◌, Option, none, some, List, [], ◌∷◌, if◌then◌else◌, any,
}
use air_call_demo_recording.Base.Text.{Text, codes, text_eq, has}
use air_call_demo_recording.Base.Text.Patterns.{is_opaque, is_phone}
use air_call_demo_recording.Js.{
  Heap, HeapObject, Value, Key, name, index, symbol, Descriptor, value, accessor, Kind, Proto,
  array, proxy, object_prototype, null_prototype, str, bool, undefined, own_descriptor,
  has_symbol_key, plain_record,
}
use air_call_demo_recording.ConsentStore.{Lease}

pub record EventEnvelope : Type 0 where
  pub event_key : Text
  pub call_id : Text
  pub native_item_id : Value
  pub phone_digits : Value

infixl 5 ◌>>=◌
abbrev ◌>>=◌ {ℓ κ} : {A : Type ℓ} {B : Type κ} → Option A → (A → Option B) → Option B
none >>= k = none
some a >>= k = k a

abbrev value_of : Option Descriptor → Value
value_of none = undefined
value_of (some d) = elim d.content [ accessor ↦ undefined | value v ↦ v ]

-- `ownValue`
unfoldable pub own_value : HeapObject → Key → Value
own_value o k = value_of (own_descriptor o k)

-- EVENT_KEYS
abbrev event_keys : List Text
event_keys = codes "eventKey" ∷ codes "callId" ∷ codes "nativeItemId" ∷ codes "phoneDigits" ∷ []

abbrev is_event_key : Key → Bool
is_event_key (name t) = has event_keys t
is_event_key (index n) = false
is_event_key (symbol n) = false

abbrev opaque_of : Value → Option Text
opaque_of (str t) = if is_opaque t then some t else none
opaque_of _ = none

abbrev is_undefined : Value → Bool
is_undefined undefined = true
is_undefined _ = false

abbrev optional_item : Value → Bool
optional_item undefined = true
optional_item (str t) = is_opaque t
optional_item _ = false

abbrev optional_phone : Value → Bool
optional_phone undefined = true
optional_phone (str t) = is_phone t
optional_phone _ = false

abbrev pub envelope_of : Value → Value → Value → Value → Option EventEnvelope
envelope_of event_key call_id item phone = do
  key ← opaque_of event_key
  call ← opaque_of call_id
  if is_undefined item && is_undefined phone
        || not (optional_item item)
        || not (optional_phone phone)
      then none
      else some
          (record { event_key = key; call_id = call; native_item_id = item; phone_digits = phone })

-- `snapshotEvent`
unfoldable pub snapshot_event : Heap → Value → Option EventEnvelope
snapshot_event h event = do
  o ← plain_record h event
  if has_symbol_key o.props || any (λ p. not (is_event_key p.0)) o.props
      then none
      else envelope_of (own_value o (name (codes "eventKey"))) (own_value o (name (codes "callId")))
          (own_value o (name (codes "nativeItemId"))) (own_value o (name (codes "phoneDigits")))

-- The answer of `claim`: `malformed` keeps the lease that can be released safely.
pub data ClaimAnswer : Type 0 where
  duplicate_claim : ClaimAnswer
  claimed : Lease → ClaimAnswer
  malformed : Option Lease → ClaimAnswer

abbrev pub lease_of : Text → Value → Value → Value → Option Lease
lease_of expected (bool true) (str key) (str token) =
    if text_eq key expected && is_opaque key && is_opaque token
    then some (record { claimed = true; key = key; lease_token = token })
    else none
lease_of expected _ _ _ = none

abbrev pub readable : Kind → Bool
readable (array n) = false
readable proxy = false
readable _ = true

-- `snapshotLease`
unfoldable pub snapshot_lease : HeapObject → Text → Option Lease
unfolding own_value
snapshot_lease o expected =
    if readable o.kind
    then lease_of expected (own_value o (name (codes "claimed"))) (own_value o (name (codes "key")))
        (own_value o (name (codes "leaseToken")))
    else none

abbrev pub answer_of : Option Lease → Value → ClaimAnswer
answer_of lease (bool false) = duplicate_claim
answer_of (some lease) (bool true) = claimed lease
answer_of lease _ = malformed lease

abbrev pub is_plain : Proto → Bool
is_plain object_prototype = true
is_plain null_prototype = true
is_plain _ = false

-- `snapshotClaimResult`
unfoldable pub snapshot_claim_result : Option HeapObject → Text → ClaimAnswer
snapshot_claim_result none expected = malformed none
snapshot_claim_result (some o) expected =
    let lease = snapshot_lease o expected in
    if readable o.kind && is_plain o.proto
    then answer_of lease (own_value o (name (codes "claimed")))
    else malformed lease
