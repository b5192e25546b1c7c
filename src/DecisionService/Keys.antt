-- ===== src/DecisionService/Keys.antt =====
-- consent-decision-service.mjs: a claim that the service holds is for the key that it asked for.
use air_call_demo_recording.Base.{◌≡◌, inl, inr, true, ◌&&◌, Option, none, some, arith, Bool-cases}
use air_call_demo_recording.Base.Text.{Text}
use air_call_demo_recording.Base.Text.Laws.{text_eq→eq}
use air_call_demo_recording.Base.Text.Patterns.{is_opaque}
use air_call_demo_recording.Js.{HeapObject, Value, bool, str}
use air_call_demo_recording.ConsentStore.{Lease}
use air_call_demo_recording.DecisionService.Envelope.{
  claimed, lease_of, answer_of, snapshot_lease, snapshot_claim_result, readable, is_plain,
}

-- A lease for the key, with texts that are opaque identifiers.
pub record IsLeaseFor (expected : Text) (lease : Lease) : Type 0 where
  pub is_claimed : lease.claimed ≡ true
  pub same_key : lease.key ≡ expected
  pub key_opaque : is_opaque lease.key ≡ true
  pub token_opaque : is_opaque lease.lease_token ≡ true

lease_of-IsLeaseFor :
    (expected : Text) (flag key token : Value) (lease : Lease)
    → lease_of expected flag key token ≡ some lease
    → IsLeaseFor expected lease
lease_of-IsLeaseFor expected (bool true) (str key) (str token) lease e =
    ground (arith, text_eq→eq key expected)
lease_of-IsLeaseFor expected flag key token lease e = absurd (ground arith)

answer_of-claimed :
    (lease : Option Lease) (v : Value) (l : Lease) → answer_of lease v ≡ claimed l → lease ≡ some l
answer_of-claimed lease v l e = ground arith

snapshot_lease-IsLeaseFor :
    (o : HeapObject) (expected : Text) (lease : Lease)
    → snapshot_lease o expected ≡ some lease
    → IsLeaseFor expected lease
unfolding snapshot_lease
snapshot_lease-IsLeaseFor o expected lease e = elim (Bool-cases (readable o.kind)) [
  | inl fine ↦ lease_of-IsLeaseFor expected _ _ _ lease (rw fine at e)
  | inr bad ↦ absurd (ground arith)
]

claimed-lease :
    (o : HeapObject) (expected : Text) (lease : Lease)
    → snapshot_claim_result (some o) expected ≡ claimed lease
    → snapshot_lease o expected ≡ some lease
unfolding snapshot_claim_result
claimed-lease o expected lease e = elim (Bool-cases (readable o.kind && is_plain o.proto)) [
  | inl fine ↦ answer_of-claimed _ _ lease (rw fine at e)
  | inr bad ↦ absurd (ground arith)
]

-- Whatever object the store answers: a claim that the service goes on with is a lease for the key
-- that it asked for.
pub snapshot_claim_result-IsLeaseFor :
    (raw : Option HeapObject) (expected : Text) (lease : Lease)
    → snapshot_claim_result raw expected ≡ claimed lease
    → IsLeaseFor expected lease
snapshot_claim_result-IsLeaseFor none expected lease e = unfold snapshot_claim_result in cc
snapshot_claim_result-IsLeaseFor (some o) expected lease e =
    snapshot_lease-IsLeaseFor o expected lease (claimed-lease o expected lease e)
