-- ===== src/AuditReceiver/Config.antt =====
-- audit-only-receiver.mjs: `snapshotConfig` on the heap of objects. A set whose prototype is not
-- `Set.prototype` itself is taken for none, and the getter of an array's element is taken to throw.
use air_call_demo_recording.Base.{
  ℕ, zero, suc, ◌+◌, Bool, true, false, not, ◌&&◌, Option, none, some, List, [], ◌∷◌, leb,
  if◌then◌else◌, length, all,
}
use air_call_demo_recording.Base.Text.{Text, codes, has}
use air_call_demo_recording.Js.{
  Value, undefined, null, num, str, function, natural, Key, index, name, symbol, value, accessor,
  Descriptor, Proto, object_prototype, array_prototype, set_prototype, Kind, array, proxy,
  HeapObject, Heap, deref, own_descriptor, has_symbol_key,
}

-- What the receiver keeps of its configuration.
pub record Settings : Type 0 where
  pub expected_webhook_token : Text
  pub canonical_board_id : Text
  pub state_column_id : Text
  pub state_source : Text
  pub phone_column_ids : List Value
  pub allowed_phone_column_types : Option (List Value)
  pub host : Text
  pub port : ℕ
  pub max_body_bytes : ℕ
  pub shutdown_timeout_ms : ℕ
  pub max_in_flight : ℕ
  pub readiness_timeout_ms : ℕ
  pub ready : Value
  pub initialize : Value

abbrev pub config_keys : List Text
config_keys =
    codes "expectedWebhookToken"
    ∷ codes "canonicalBoardId"
    ∷ codes "stateColumnId"
    ∷ codes "phoneColumnIds"
    ∷ codes "stateSource"
    ∷ codes "mondayQuery"
    ∷ codes "store"
    ∷ codes "ruleset"
    ∷ codes "approvedRulesetVersions"
    ∷ codes "allowedPhoneColumnTypes"
    ∷ codes "host"
    ∷ codes "port"
    ∷ codes "maxBodyBytes"
    ∷ codes "shutdownTimeoutMs"
    ∷ codes "maxInFlight"
    ∷ codes "readinessTimeoutMs"
    ∷ []

abbrev pub is_config_key : Key × Descriptor → Bool
is_config_key (name t, d) = has config_keys t
is_config_key (index n, d) = false
is_config_key (symbol n, d) = false

infixl 5 ◌>>=◌ ◌>>◌
abbrev pub ◌>>=◌ {ℓ κ} : {A : Type ℓ} {B : Type κ} → Option A → (A → Option B) → Option B
none >>= k = none
some a >>= k = k a

abbrev ◌>>◌ {ℓ} : {B : Type ℓ} → Option (Unit {0}) → Option B → Option B
m >> k = m >>= λ u. k

abbrev pub guard : Bool → Option (Unit {0})
guard true = some tt
guard false = none

abbrev is_object_prototype : Proto → Bool
is_object_prototype object_prototype = true
is_object_prototype _ = false

abbrev is_set_prototype : Proto → Bool
is_set_prototype set_prototype = true
is_set_prototype _ = false

abbrev is_array_prototype : Proto → Bool
is_array_prototype array_prototype = true
is_array_prototype _ = false

abbrev is_readable : Kind → Bool
is_readable proxy = false
is_readable _ = true

abbrev record_of : Option HeapObject → Option HeapObject
record_of none = none
record_of (some o) = if is_readable o.kind && is_object_prototype o.proto then some o else none

-- `plainRecord`, whose error on a proxy ends in the same refusal.
unfoldable pub plain_record : Heap → Value → Option HeapObject
plain_record h v = record_of (deref h v)

abbrev pub set_of_object : Option HeapObject → Bool
set_of_object none = false
set_of_object (some o) = is_readable o.kind && is_set_prototype o.proto

abbrev data_of : Option Descriptor → Option Value
data_of none = some undefined
data_of (some d) = elim d.content [ accessor ↦ none | value v ↦ some v ]

-- `value(name)`: none where it throws; a property that is not there reads as no value.
unfoldable pub read_value : HeapObject → Text → Option Value
read_value o t = data_of (own_descriptor o (name t))

abbrev or_undefined : Option Value → Value
or_undefined none = undefined
or_undefined (some v) = v

-- `ownData`
unfoldable pub own_data : HeapObject → Text → Value
unfolding read_value
own_data o t = or_undefined (read_value o t)

abbrev pub is_function : Value → Bool
is_function (function n) = true
is_function _ = false

abbrev is_optional_function : Value → Bool
is_optional_function undefined = true
is_optional_function v = is_function v

abbrev is_present : Value → Bool
is_present undefined = false
is_present null = false
is_present _ = true

-- `??`
abbrev pub or_else : Value → Value → Value
or_else undefined v = v
or_else null v = v
or_else v _ = v

abbrev pub is_some {ℓ} : {A : Type ℓ} → Option A → Bool
is_some none = false
is_some (some a) = true

abbrev pub nonempty : Value → Option Text
nonempty (str t) = if leb 1 (length t) then some t else none
nonempty _ = none

-- An integer between two bounds.
abbrev pub between : ℕ → ℕ → Value → Option ℕ
between lo hi (num (natural n)) = if leb lo n && leb n hi then some n else none
between lo hi _ = none

abbrev pub loopback : Value → Option Text
loopback (str t) = if has (codes "127.0.0.1" ∷ codes "::1" ∷ []) t then some t else none
loopback _ = none

unfoldable pub elements_from : HeapObject → ℕ → ℕ → Option (List Value)
elements_from o zero i = some []
elements_from o (suc n) i = do
  v ← data_of (own_descriptor o (index i))
  vs ← elements_from o n (i + 1)
  some (v ∷ vs)

abbrev array_elements : HeapObject → Kind → Option (List Value)
array_elements o (array n) = elements_from o n 0
array_elements o _ = none

abbrev array_of_object : Option HeapObject → Option (List Value)
array_of_object none = none
array_of_object (some o) = if is_array_prototype o.proto then array_elements o o.kind else none

-- `plainArray`, and the spread of such an array.
unfoldable pub plain_array : Heap → Value → Option (List Value)
unfolding elements_from
plain_array h v = array_of_object (deref h v)

abbrev pub optional_array : Heap → Value → Option (Option (List Value))
optional_array h undefined = some none
optional_array h v = plain_array h v >>= λ vs. some (some vs)

abbrev pub required : HeapObject → Text → Option Value
required o t = do v ← read_value o t; guard (is_present v); some v

-- The store's methods.
unfoldable pub check_store : HeapObject → Option (Value × Value)
check_store store = do
  guard (
      is_function (own_data store (codes "claim"))
      && is_function (own_data store (codes "finalize"))
      && is_function (own_data store (codes "release")))
  guard (is_optional_function (own_data store (codes "ready")))
  guard (is_optional_function (own_data store (codes "initialize")))
  some (own_data store (codes "ready"), own_data store (codes "initialize"))

unfoldable pub snapshot_fields : Heap → HeapObject → Option Settings
snapshot_fields h o = do
  guard (not (has_symbol_key o.props) && all is_config_key o.props)
  token ← required o (codes "expectedWebhookToken")
  board ← required o (codes "canonicalBoardId")
  column ← required o (codes "stateColumnId")
  phones ← required o (codes "phoneColumnIds")
  source ← required o (codes "stateSource")
  query ← required o (codes "mondayQuery")
  store ← required o (codes "store")
  rules ← required o (codes "ruleset")
  versions ← required o (codes "approvedRulesetVersions")
  types ← read_value o (codes "allowedPhoneColumnTypes")
  host ← read_value o (codes "host")
  port ← read_value o (codes "port")
  bytes ← read_value o (codes "maxBodyBytes")
  shutdown ← read_value o (codes "shutdownTimeoutMs")
  flights ← read_value o (codes "maxInFlight")
  readiness ← read_value o (codes "readinessTimeoutMs")
  expected_webhook_token ← nonempty token
  canonical_board_id ← nonempty board
  state_column_id ← nonempty column
  state_source ← nonempty source
  phone_column_ids ← plain_array h phones
  store_object ← plain_record h store
  guard (is_function query && is_some (plain_record h rules) && set_of_object (deref h versions))
  host_text ← loopback (or_else host (str (codes "127.0.0.1")))
  port_number ← between 0 65535 (or_else port (num (natural 0)))
  max_body_bytes ← between 1 131072 (or_else bytes (num (natural 131072)))
  shutdown_timeout_ms ← between 1 30000 (or_else shutdown (num (natural 30000)))
  max_in_flight ← between 1 32 (or_else flights (num (natural 32)))
  readiness_timeout_ms ← between 10 1000 (or_else readiness (num (natural 250)))
  allowed_phone_column_types ← optional_array h types
  methods ← check_store store_object
  some (record {
    expected_webhook_token = expected_webhook_token;
    canonical_board_id = canonical_board_id;
    state_column_id = state_column_id;
    state_source = state_source;
    phone_column_ids = phone_column_ids;
    allowed_phone_column_types = allowed_phone_column_types;
    host = host_text;
    port = port_number;
    max_body_bytes = max_body_bytes;
    shutdown_timeout_ms = shutdown_timeout_ms;
    max_in_flight = max_in_flight;
    readiness_timeout_ms = readiness_timeout_ms;
    ready = methods.0;
    initialize = methods.1;
  })

-- `snapshotConfig`
unfoldable pub snapshot_config : Heap → Value → Option Settings
snapshot_config h v = plain_record h v >>= snapshot_fields h
