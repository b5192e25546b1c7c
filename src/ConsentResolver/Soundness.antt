-- ===== src/ConsentResolver/Soundness.antt =====
-- consent-resolver.mjs: what a resolved item guarantees.
use mathlib.Core.Path.{subst}
use air_call_demo_recording.Base.{
  ◌≡◌, refl, sym, ap, ◌∙◌, inl, inr, true, false, Option, none, some, arith, Bool-cases,
  Option-cases,
}
use air_call_demo_recording.Base.Text.{Text, codes, text_eq}
use air_call_demo_recording.Base.Text.Laws.{text_eq→eq}
use air_call_demo_recording.Base.Text.Patterns.{is_opaque}
use air_call_demo_recording.Consent.States.{normalize_text}
use air_call_demo_recording.ConsentResolver.Leads.{
  Json, flag, text, obj, Fields, Item, Method, resolved, validate_item, get, has_matching_phone,
  validated_state, opaque_text, snapshot_item, Snapshot, provenance, differs, checked_ids,
  checked_state,
}

-- A verified value of the state's source, whose text normalises to the state.
pub record IsProvenance (source : Text) (j : Json) (state : Text) : Type 0 where
  pub fields : Fields
  pub is_object : j ≡ obj fields
  pub value : Text
  pub value_read : get (codes "value") fields ≡ some (text value)
  pub normalised : normalize_text value ≡ some state
  pub source_read : get (codes "source") fields ≡ some (text source)
  pub verified : get (codes "verified") fields ≡ some (flag true)

-- An item of the JSON tree that is the given lead: its id and board are its own opaque texts, its
-- state normalises from a verified value of the state's source, and one of its phones is the given.
pub record IsLead (board source phone : Text) (item : Json) (lead : Item) : Type 0 where
  pub fields : Fields
  pub is_object : item ≡ obj fields
  pub id_read : get (codes "id") fields ≡ some (text lead.id)
  pub id_opaque : is_opaque lead.id ≡ true
  pub board_read : get (codes "boardId") fields ≡ some (text board)
  pub board_same : lead.board_id ≡ board
  pub state : Json
  pub state_read : get (codes "state") fields ≡ some state
  pub trusted : IsProvenance source state lead.state
  pub phone_matches : has_matching_phone fields phone ≡ true

opaque_text-some :
    (j : Json) (t : Text) → opaque_text j ≡ some t → (j ≡ text t) × (is_opaque t ≡ true)
unfolding opaque_text
opaque_text-some (text s) t e = ground arith
opaque_text-some _ t e = cc

snapshot_item-some :
    (fs : Fields) (s : Snapshot)
    → snapshot_item fs ≡ some s
    → (get (codes "id") fs ≡ some s.id)
      × (get (codes "boardId") fs ≡ some s.board_id)
      × (get (codes "state") fs ≡ some s.state)
unfolding snapshot_item
snapshot_item-some fs s e = ground arith

provenance-some :
    (source : Text) (v s k : Option Json) (state : Text)
    → provenance source v s k ≡ some state
    → (t : Text) × (v ≡ some (text t))
      × (normalize_text t ≡ some state)
      × (s ≡ some (text source))
      × (k ≡ some (flag true))
provenance-some source (some (text t)) (some (text s)) (some (flag true)) state e =
    elim (Bool-cases (text_eq s source)) [
      | inl same ↦ (t, refl, ground arith, ap (λ u. some (text u)) (text_eq→eq s source same), refl)
      | inr differs ↦ absurd (ground arith)
    ]
provenance-some source v s k state e = absurd (ground arith)

validated_state-some :
    (source : Text) (j : Json) (state : Text)
    → validated_state source j ≡ some state
    → IsProvenance source j state
unfolding validated_state
validated_state-some source (obj fs) state e =
    let (t, given, normal, from, verified) = provenance-some source _ _ _ state e in
    record {
      fields = fs;
      is_object = refl;
      value = t;
      value_read = given;
      normalised = normal;
      source_read = from;
      verified = verified;
    }
validated_state-some source _ state e = cc

module _ (board source : Text) (m : Method) (expected : Option Text) (phone : Text) where
  checked_state-resolved :
      (fs : Fields) (id : Text) (state : Option Text) (m' : Method) (lead : Item)
      → checked_state board source m expected phone fs id state ≡ resolved m' lead
      → (state ≡ some lead.state)
        × (has_matching_phone fs phone ≡ true)
        × (m' ≡ m)
        × (lead.id ≡ id)
        × (lead.board_id ≡ board)
  checked_state-resolved fs id state m' lead e = ground arith

  checked_ids-resolved :
      (fs : Fields) (s : Snapshot) (b i : Option Text) (m' : Method) (lead : Item)
      → checked_ids board source m expected phone fs s b i ≡ resolved m' lead
      → (b ≡ some board)
        × (i ≡ some lead.id)
        × (differs expected lead.id ≡ false)
        × (checked_state board source m expected phone fs lead.id (validated_state source s.state)
            ≡ resolved m' lead)
  checked_ids-resolved fs s none i m' lead e = cc
  checked_ids-resolved fs s (some b) none m' lead e = cc
  checked_ids-resolved fs s (some b) (some i) m' lead e = elim (Bool-cases (text_eq b board)) [
    | inl same ↦ elim (Bool-cases (differs expected i)) [
      | inl other_id ↦ absurd (ground arith)
      | inr same_id ↦
          let state = rw (same, same_id) at e in
          let id_eq =
            sym (checked_state-resolved fs i (validated_state source s.state) m' lead state).3 in
          (
            ap some (text_eq→eq b board same),
            ap some id_eq,
            subst (λ x. differs expected x ≡ false) id_eq same_id,
            subst
                (λ x.
                  checked_state board source m expected phone fs x (validated_state source s.state)
                  ≡ resolved m' lead)
                id_eq state,
          )
    ]
    | inr other_board ↦ absurd (ground arith)
  ]

pub validate_item-resolved :
    (item : Json) (board source : Text) (m : Method) (expected : Option Text) (phone : Text)
    (m' : Method) (lead : Item)
    → validate_item item board source m expected phone ≡ resolved m' lead
    → IsLead board source phone item lead × (m' ≡ m) × (differs expected lead.id ≡ false)
unfolding validate_item
validate_item-resolved (obj fs) board source m expected phone m' lead e =
    elim (Option-cases (snapshot_item fs)) [
      | inl unread ↦ absurd (ground arith)
      | inr (s, read) ↦
          let (b, i, same, rest) =
            checked_ids-resolved board source m expected phone fs s (opaque_text s.board_id)
              (opaque_text s.id) m' lead (rw read at e) in
          let (state, phones, by, _, on) =
            checked_state-resolved board source m expected phone fs lead.id _ m' lead rest in
          let (id_read, board_read, state_read) = snapshot_item-some fs s read in
          let (id_text, id_opaque) = opaque_text-some s.id lead.id i in
          let (board_text, _) = opaque_text-some s.board_id board b in
          (
            record {
              fields = fs;
              is_object = refl;
              id_read = id_read ∙ ap some id_text;
              id_opaque = id_opaque;
              board_read = board_read ∙ ap some board_text;
              board_same = on;
              state = s.state;
              state_read = state_read;
              trusted = validated_state-some source s.state lead.state state;
              phone_matches = phones;
            },
            by,
            same,
          )
    ]
validate_item-resolved _ board source m expected phone m' lead e = cc
