-- ===== src/ConsentResolver/Resolved.antt =====
-- consent-resolver.mjs: what a resolution that gives an item guarantees.
use air_call_demo_recording.Base.Text.Laws.{text_eq→eq}
use air_call_demo_recording.Base.{
  ◌≡◌, refl, ap, ◌∙◌, ◌≢◌, ◌⊎◌, inl, inr, false, Option, none, some, List, [], ◌∷◌, arith,
  Bool-cases, Option-cases, Attempt, returned, thrown,
}
use mathlib.Core.Path.{subst}
use air_call_demo_recording.Base.Text.{Text, text_eq}
use air_call_demo_recording.ConsentResolver.Leads.{
  Json, arr, Elements, elements, Item, Method, unique_phone, Resolution, resolved, no_record,
  validate_item, differs, opaque_identifier, normalized_phone,
}
use air_call_demo_recording.ConsentResolver.Soundness.{IsLead, validate_item-resolved}
use air_call_demo_recording.ConsentResolver.{
  Payload, text_payload, parse_phone_payload, by_phone, as_array, no_match, native_or, compare_ids,
  only_candidate, phone_payload, resolve_canonical_consent, Fields, Config, parse_native_payload,
  as_record, by_native, config, null_payload, obj, after_native, native_identifier, NativeId, other,
  native, with_board, absent, native_item, native_payload, native_lookup, missing, with_phone,
  native_item_id,
}

-- What the phone lookup found, beside what the native lookup gave.
pub record IsFound (parse : Text → Option Json) (board source phone : Text)
    (lookup : Option (Text → Attempt Payload)) (native_result : Option Item) (m : Method)
    (lead : Item) : Type 0 where
  pub find : Text → Attempt Payload
  pub find_given : lookup ≡ some find
  pub payload : Text
  pub answered : find phone ≡ returned (text_payload payload)
  pub list : Elements
  pub parsed : parse payload ≡ some (arr list)
  pub candidate : Json
  pub only : elements list ≡ candidate ∷ []
  pub found : Item
  pub is_lead : IsLead board source phone candidate found
  pub matches : no_match native_result found ≡ false
  pub chosen : native_or native_result unique_phone found ≡ resolved m lead

as_array-some :
    (j : Option Json) (items : List Json)
    → as_array j ≡ some items
    → (list : Elements) × (j ≡ some (arr list)) × (elements list ≡ items)
as_array-some none items e = cc
as_array-some (some (arr list)) items e = (list, refl, ground arith)
as_array-some (some _) items e = cc

module _ (board source phone : Text) (native_result : Option Item) (m : Method) (lead : Item) where
  compare_ids-resolved :
      (r : Resolution)
      → compare_ids native_result r ≡ resolved m lead
      → (m' : Method) × (found : Item) × (r ≡ resolved m' found)
        × (no_match native_result found ≡ false)
        × (native_or native_result m' found ≡ resolved m lead)
  compare_ids-resolved (no_record m' r) e = cc
  compare_ids-resolved (resolved m' found) e = elim (Bool-cases (no_match native_result found)) [
    | inl bad ↦ absurd (ground arith)
    | inr ok ↦ (m', found, refl, ok, rw ok at e)
  ]

  only_candidate-resolved :
      (items : List Json)
      → only_candidate board source phone native_result items ≡ resolved m lead
      → (candidate : Json) × (found : Item) × (items ≡ candidate ∷ [])
        × IsLead board source phone candidate found
        × (no_match native_result found ≡ false)
        × (native_or native_result unique_phone found ≡ resolved m lead)
  only_candidate-resolved [] e = cc
  only_candidate-resolved (item ∷ []) e =
      let (m', found, valid, ok, chosen) =
        compare_ids-resolved (validate_item item board source unique_phone none phone) e in
      let (is_lead, by, _) =
        validate_item-resolved item board source unique_phone none phone m' found valid in
      (
        item,
        found,
        refl,
        is_lead,
        ok,
        subst (λ x. native_or native_result x found ≡ resolved m lead) by chosen,
      )
  only_candidate-resolved (item ∷ other_item ∷ items) e = cc

module _ (parse : Text → Option Json) where
  parse_phone_payload-some :
      (p : Payload) (items : List Json)
      → parse_phone_payload parse p ≡ some items
      → (t : Text) × (list : Elements) × (p ≡ text_payload t)
        × (parse t ≡ some (arr list))
        × (elements list ≡ items)
  unfolding parse_phone_payload
  parse_phone_payload-some (text_payload t) items e =
      let (list, is_array, same) = as_array-some (parse t) items e in
      (t, list, refl, is_array, same)
  parse_phone_payload-some _ items e = cc

  module _ (board source phone : Text) (native_result : Option Item) (m : Method)
      (lead : Item) where
    by_phone-IsFound :
        (lookup : Option (Text → Attempt Payload))
        → by_phone parse board source phone lookup native_result ≡ resolved m lead
        → IsFound parse board source phone lookup native_result m lead
    by_phone-IsFound none e = unfold by_phone in cc
    by_phone-IsFound (some find) e = answered_by (find phone) refl (unfold by_phone in e)
      where
        answered_by :
            (a : Attempt Payload)
            → find phone ≡ a
            → phone_payload parse board source phone native_result a ≡ resolved m lead
            → IsFound parse board source phone (some find) native_result m lead
        answered_by thrown is e = cc
        answered_by (returned p) is e = elim (Option-cases (parse_phone_payload parse p)) [
          | inl bad ↦ absurd (ground arith)
          | inr (items, good) ↦
              let (t, list, is_text, parsed, same) = parse_phone_payload-some p items good in
              let (candidate, found, only, is_lead, ok, chosen) =
                only_candidate-resolved board source phone native_result m lead items
                  (rw good at e) in
              record {
                find = find;
                find_given = refl;
                payload = t;
                answered = is ∙ ap returned is_text;
                list = list;
                parsed = parsed;
                candidate = candidate;
                only = same ∙ only;
                found = found;
                is_lead = is_lead;
                matches = ok;
                chosen = chosen;
              }
        ]

-- What the native lookup gave: nothing, since no id is given or the adapter answers null; or a lead
-- on the canonical board with the given id and the call's phone.
abbrev pub NativeGave : (Text → Option Json) → Text → Text → Text → Config → Option Item → Type 0
NativeGave parse board source phone c none =
    (native_identifier c.native_item_id ≡ absent)
    ⊎ ((id : Text) × (lookup : Text → Attempt Payload) × (native_identifier c.native_item_id
          ≡ native id)
        × (c.get_consent_lead_by_id ≡ some lookup)
        × (lookup id ≡ returned null_payload))
NativeGave parse board source phone c (some item) =
    (id : Text) × (lookup : Text → Attempt Payload) × (payload : Text) × (fs : Fields)
    × (native_identifier c.native_item_id ≡ native id)
    × (c.get_consent_lead_by_id ≡ some lookup)
    × (lookup id ≡ returned (text_payload payload))
    × (parse payload ≡ some (obj fs))
    × IsLead board source phone (obj fs) item
    × (item.id ≡ id)

-- What a resolution that gives an item guarantees.
pub record IsResolved (parse : Text → Option Json) (c : Config) (m : Method) (lead : Item)
    : Type 0 where
  pub board : Text
  pub board_given : opaque_identifier c.canonical_board_id ≡ some board
  pub source : Text
  pub source_given : opaque_identifier c.state_source ≡ some source
  pub phone : Text
  pub phone_given : normalized_phone c.phone_digits ≡ some phone
  pub native_result : Option Item
  pub native_gave : NativeGave parse board source phone c native_result
  pub found : IsFound parse board source phone c.find_consent_leads_by_phone native_result m lead

differs-false : (t id : Text) → differs (some t) id ≡ false → id ≡ t
differs-false t id e = elim (Bool-cases (text_eq id t)) [
  | inl same ↦ text_eq→eq id t same
  | inr other_id ↦ absurd (ground arith)
]

as_record-some : (j : Option Json) (fs : Fields) → as_record j ≡ some (some fs) → j ≡ some (obj fs)
as_record-some (some (obj gs)) fs e = ground arith
as_record-some none fs e = cc
as_record-some (some _) fs e = cc

as_record-ne_none : (j : Option Json) → as_record j ≢ some none
as_record-ne_none (some (obj gs)) e = ground arith
as_record-ne_none none e = cc
as_record-ne_none (some _) e = cc

module _ (parse : Text → Option Json) where
  parse_native_payload-null :
      (p : Payload) → parse_native_payload parse p ≡ some none → p ≡ null_payload
  unfolding parse_native_payload
  parse_native_payload-null null_payload e = refl
  parse_native_payload-null (text_payload t) e = absurd (as_record-ne_none (parse t) e)
  parse_native_payload-null other e = cc

  parse_native_payload-some :
      (p : Payload) (fs : Fields)
      → parse_native_payload parse p ≡ some (some fs)
      → (t : Text) × (p ≡ text_payload t) × (parse t ≡ some (obj fs))
  unfolding parse_native_payload
  parse_native_payload-some null_payload fs e = absurd (ground arith)
  parse_native_payload-some (text_payload t) fs e = (t, refl, as_record-some (parse t) fs e)
  parse_native_payload-some other fs e = cc

  module _ (board source phone : Text) (c : Config) (m : Method) (lead : Item) where
    abbrev Found : Option Item → Type 0
    Found r = IsFound parse board source phone c.find_consent_leads_by_phone r m lead

    abbrev Gave : Type 0
    Gave = (r : Option Item) × NativeGave parse board source phone c r × Found r

    after_native-resolved :
        (r : Resolution)
        → after_native parse board source phone c r ≡ resolved m lead
        → (m' : Method) × (item : Item) × (r ≡ resolved m' item) × Found (some item)
    after_native-resolved (no_record m' r) e = cc
    after_native-resolved (resolved m' item) e = (
      m',
      item,
      refl,
      by_phone-IsFound parse board source phone (some item) m lead c.find_consent_leads_by_phone e,
    )

    module _ (id : Text) (lookup : Text → Attempt Payload)
        (given : native_identifier c.native_item_id ≡ native id)
        (has_lookup : c.get_consent_lead_by_id ≡ some lookup) where
      native_item-gave :
          (p : Payload) (parsed : Option (Option Fields))
          → lookup id ≡ returned p
          → parse_native_payload parse p ≡ parsed
          → native_item parse board source phone c id parsed ≡ resolved m lead
          → Gave
      native_item-gave p none at is e = cc
      native_item-gave p (some none) at is e = (
        none,
        inr (id, lookup, given, has_lookup, at ∙ ap returned (parse_native_payload-null p is)),
        by_phone-IsFound parse board source phone none m lead c.find_consent_leads_by_phone e,
      )
      native_item-gave p (some (some fs)) at is e =
          let (t, is_text, is_obj) = parse_native_payload-some p fs is in
          let (m', item, valid, found) = after_native-resolved _ e in
          let (is_lead, _, same) =
            validate_item-resolved (obj fs) board source native_item_id (some id) phone m' item
              valid in
          (
            some item,
            (
              id,
              lookup,
              t,
              fs,
              given,
              has_lookup,
              at ∙ ap returned is_text,
              is_obj,
              is_lead,
              differs-false id item.id same,
            ),
            found,
          )

      native_payload-gave :
          (a : Attempt Payload)
          → lookup id ≡ a
          → native_payload parse board source phone c id a ≡ resolved m lead
          → Gave
      native_payload-gave thrown at e = cc
      native_payload-gave (returned p) at e = native_item-gave p _ at refl e

    native_lookup-gave :
        (id : Text) (l : Option (Text → Attempt Payload))
        → native_identifier c.native_item_id ≡ native id
        → c.get_consent_lead_by_id ≡ l
        → native_lookup parse board source phone c id l ≡ resolved m lead
        → Gave
    native_lookup-gave id none given has e = cc
    native_lookup-gave id (some lookup) given has e =
        native_payload-gave id lookup given has (lookup id) refl e

    by_native-gave :
        (n : NativeId)
        → native_identifier c.native_item_id ≡ n
        → by_native parse board source phone c n ≡ resolved m lead
        → Gave
    unfolding by_native
    by_native-gave missing given e = cc
    by_native-gave absent given e = (
      none,
      inl given,
      by_phone-IsFound parse board source phone none m lead c.find_consent_leads_by_phone e,
    )
    by_native-gave (native id) given e = native_lookup-gave id c.get_consent_lead_by_id given refl e

  module _ (c : Config) (m : Method) (lead : Item) where
    with_phone-resolved :
        (board source : Text) (p : Option Text)
        → opaque_identifier c.canonical_board_id ≡ some board
        → opaque_identifier c.state_source ≡ some source
        → normalized_phone c.phone_digits ≡ p
        → with_phone parse c board source p ≡ resolved m lead
        → IsResolved parse c m lead
    with_phone-resolved board source none b s is e = cc
    with_phone-resolved board source (some phone) b s is e =
        let (r, gave, found) = by_native-gave board source phone c m lead _ refl e in
        record {
          board = board;
          board_given = b;
          source = source;
          source_given = s;
          phone = phone;
          phone_given = is;
          native_result = r;
          native_gave = gave;
          found = found;
        }

    with_board-resolved :
        (b s : Option Text)
        → opaque_identifier c.canonical_board_id ≡ b
        → opaque_identifier c.state_source ≡ s
        → with_board parse c b ≡ resolved m lead
        → IsResolved parse c m lead
    with_board-resolved none s is_b is_s e = cc
    with_board-resolved (some board) none is_b is_s e = absurd (ground arith)
    with_board-resolved (some board) (some source) is_b is_s e =
        with_phone-resolved board source _ is_b is_s refl (rw is_s at e)

-- Whatever the adapters answer and however their payloads parse: a resolution that gives an item was
-- given an opaque board and source and a phone of 10 to 15 digits; the phone lookup answered an
-- array of exactly one candidate, which is a lead on that board with that phone and with a verified
-- state; and the item is that lead, or the lead that the native lookup gave under the native id of
-- the call, which then has the same id as the candidate.
pub resolve_canonical_consent-IsResolved :
    (parse : Text → Option Json) (c : Config) (m : Method) (lead : Item)
    → resolve_canonical_consent parse (config c) ≡ resolved m lead
    → IsResolved parse c m lead
unfolding resolve_canonical_consent
resolve_canonical_consent-IsResolved parse c m lead e =
    with_board-resolved parse c m lead _ _ refl refl e
