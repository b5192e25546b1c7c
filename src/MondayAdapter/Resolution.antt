-- ===== src/MondayAdapter/Resolution.antt =====
-- monday-callback-adapter.mjs with consent-resolver.mjs: the resolution of a call whose phone has one
-- lead.
use air_call_demo_recording.Base.{
  ℕ, ◌≡◌, refl, sym, ap, ◌∙◌, inl, inr, true, Option, none, some, List, [], ◌∷◌, arith, leb,
  Bool-cases, Option-cases, length, Attempt, returned, thrown,
}
use air_call_demo_recording.Base.Text.Patterns.{is_phone}
use mathlib.Core.Path.{subst}
use air_call_demo_recording.Base.Text.{Text, codes, text_eq}
use air_call_demo_recording.Base.Text.Laws.{text_eq_refl}
use air_call_demo_recording.ConsentResolver.Leads.{Json, arr, nil, cons, get, opaque_text}
use air_call_demo_recording.MondayAdapter.{
  AdapterConfig, RawItem, Lead, canonical_object, bounded_items, bounded_item, each, guard, ◌>>=◌,
}
use air_call_demo_recording.MondayAdapter.Lookup.{Query, page_items, find_consent_leads_by_phone}
use air_call_demo_recording.Base.Text.Patterns.{is_opaque}
use air_call_demo_recording.MondayAdapter.{own_value, as_object, as_array}
use air_call_demo_recording.MondayAdapter.Lookup.{lead_tree, column_limit}
use air_call_demo_recording.MondayAdapter.Evidence.{IsAmong, find_consent_leads_by_phone-IsFound}
use air_call_demo_recording.ConsentResolver.{
  compare_ids, Payload, text_payload, Config, config, resolve_canonical_consent, by_phone,
  by_native, parse_phone_payload, native_identifier,
}
use air_call_demo_recording.ConsentResolver.Leads.{
  Elements, resolved, unique_phone, validate_item, snapshot_item, validated_state,
  has_matching_phone, opaque_identifier, normalized_phone,
}
use air_call_demo_recording.Consent.States.{normalize_text}
use air_call_demo_recording.Js.{str, undefined}

bounded_item-is_opaque :
    (limit : ℕ) (j : Json) (item : RawItem)
    → bounded_item limit j ≡ some item
    → is_opaque item.id ≡ true
unfolding bounded_item opaque_text
bounded_item-is_opaque limit j item e = ground arith

each-IsAmong :
    (limit : ℕ) (js : List Json) (items : List RawItem) (item : RawItem)
    → each (bounded_item limit) js ≡ some items
    → IsAmong item items
    → is_opaque item.id ≡ true
unfolding each
each-IsAmong limit [] [] item e among = absurd among
each-IsAmong limit [] (x ∷ items) item e among = cc
each-IsAmong limit (j ∷ js) items item e among = elim (Option-cases (bounded_item limit j)) [
  | inl n ↦ absurd (let e' : none ≡ some items = rw n at e in cc e')
  | inr (first, f) ↦ elim (Option-cases (each (bounded_item limit) js)) [
    | inl n ↦ absurd (let e' : none ≡ some items = rw n at (rw f at e) in cc e')
    | inr (rest, r) ↦
        let whole : items ≡ first ∷ rest = cc (rw r at (rw f at e)) in
        elim (let a : IsAmong item (first ∷ rest) = subst (IsAmong item) whole among in a) [
          | inl here ↦ rw here (bounded_item-is_opaque limit j first f)
          | inr later ↦ each-IsAmong limit js rest item r later
        ]
  ]
]

unfoldable pub trees : Text → List Lead → Elements
trees phone [] = nil
trees phone (lead ∷ leads) = cons (lead_tree (some phone) lead) (trees phone leads)

-- What the resolver is handed.
abbrev pub as_payload : (Json → Text) → Text → Attempt (List Lead) → Attempt Payload
as_payload stringify phone thrown = thrown
as_payload stringify phone (returned leads) =
    returned (text_payload (stringify (arr (trees phone leads))))

validate_item-fields :
    (id board value source phone state : Text) (phones : List Text)
    → is_opaque id ≡ true
    → is_opaque board ≡ true
    → is_phone phone ≡ true
    → normalize_text value ≡ some state
    → validate_item
        (lead_tree (some phone) (record {
          id = id;
          board_id = board;
          state_value = value;
          source = source;
          phones = phones;
        }))
        board
        source
        unique_phone
        none
        phone
      ≡ resolved unique_phone (record { id = id; board_id = board; state = state })
unfolding validate_item lead_tree snapshot_item get text_eq opaque_text validated_state
    has_matching_phone
validate_item-fields id board value source phone state [] opaque on valid normal =
    ground (arith, text_eq_refl board, text_eq_refl source, text_eq_refl phone)
validate_item-fields id board value source phone state (t ∷ phones) opaque on valid normal =
    ground (arith, text_eq_refl board, text_eq_refl source, text_eq_refl phone)

canonical_object-parts :
    (g : AdapterConfig) (item : RawItem) (lead : Lead)
    → canonical_object g item ≡ some lead
    → (lead.id ≡ item.id) × (lead.board_id ≡ g.canonical_board_id) × (lead.source ≡ g.state_source)
unfolding canonical_object
canonical_object-parts g item lead e = ground arith

>>=-some {ℓ κ} :
    {A : Type ℓ} {B : Type κ} (m : Option A) (f : A → Option B) (b : B)
    → (m >>= f) ≡ some b
    → (a : A) × (m ≡ some a) × (f a ≡ some b)
>>=-some none f b e = cc
>>=-some (some a) f b e = (a, refl, e)

bounded_items-is_opaque :
    (limit item_limit : ℕ) (j : Json) (items : List RawItem) (item : RawItem)
    → bounded_items limit item_limit j ≡ some items
    → IsAmong item items
    → is_opaque item.id ≡ true
unfolding bounded_items
bounded_items-is_opaque limit item_limit j items item e among =
    let (listed, l, e1) = >>=-some (as_array j) _ items e in
    let (done, small, e2) = >>=-some (guard (leb (length listed) item_limit)) _ items e1 in
    each-IsAmong limit listed items item e2 among

page-is_opaque :
    (g : AdapterConfig) (response : Json) (items : List RawItem) (item : RawItem)
    → page_items g response ≡ some items
    → IsAmong item items
    → is_opaque item.id ≡ true
unfolding page_items
page-is_opaque g response items item e among =
    let (body, b, e1) = >>=-some (own_value (codes "data") response) _ items e in
    let (page, p, e2) =
      >>=-some (own_value (codes "items_page_by_column_values") body) _ items e1 in
    let (page_object, o, e3) = >>=-some (as_object page) _ items e2 in
    let (listed, l, e4) = >>=-some (own_value (codes "items") page_object) _ items e3 in
    bounded_items-is_opaque (column_limit g) 2 listed items item e4 among

find-is_phone :
    (query : Query → Attempt Json) (g : AdapterConfig) (phone : Text) (lead : Lead)
    → find_consent_leads_by_phone query g phone ≡ returned (lead ∷ [])
    → is_phone phone ≡ true
unfolding find_consent_leads_by_phone
find-is_phone query g phone lead e = elim (Bool-cases (is_phone phone)) [
  | inl valid ↦ valid
  | inr invalid ↦ absurd (let e' : returned [] ≡ returned (lead ∷ []) = rw invalid at e in cc e')
]

module _ (query : Query → Attempt Json) (g : AdapterConfig) (parse : Text → Option Json)
    (stringify : Json → Text) (phone : Text) where
  -- The resolver's argument for a phone and no native item, with the adapter's lookup.
  abbrev pub adapter_config : Config
  adapter_config = record {
    canonical_board_id = str g.canonical_board_id;
    state_source = str g.state_source;
    native_item_id = undefined;
    phone_digits = str phone;
    get_consent_lead_by_id = none;
    find_consent_leads_by_phone =
        some (λ p. as_payload stringify p (find_consent_leads_by_phone query g p));
  }

  resolve-payload :
      (payload : Attempt (List Lead)) (lead : Lead) (state : Text)
      → payload ≡ returned (lead ∷ [])
      → find_consent_leads_by_phone query g phone ≡ payload
      → parse (stringify (arr (trees phone (lead ∷ [])))) ≡ some (arr (trees phone (lead ∷ [])))
      → is_opaque g.canonical_board_id ≡ true
      → is_opaque g.state_source ≡ true
      → is_phone phone ≡ true
      → validate_item
          (lead_tree (some phone) lead)
          g.canonical_board_id
          g.state_source
          unique_phone
          none
          phone
        ≡ resolved unique_phone
            (record { id = lead.id; board_id = g.canonical_board_id; state = state })
      → resolve_canonical_consent parse (config adapter_config)
        ≡ resolved unique_phone
            (record { id = lead.id; board_id = g.canonical_board_id; state = state })
  unfolding resolve_canonical_consent opaque_identifier normalized_phone native_identifier by_native
      by_phone parse_phone_payload trees
  resolve-payload payload lead state e found law board source valid item =
      rw board (rw source (rw valid (rw (found ∙ e) (rw law (ap (compare_ids none) item)))))

  -- If the printed list of the one lead parses back, the board and the source are opaque, the lookup gives one lead for
  -- the phone, and its state has a normal form: the resolver gives that lead's id on the board with that
  -- state, for a call with the phone and no native item.
  pub resolve-find_consent_leads_by_phone :
      (lead : Lead) (state : Text)
      → parse (stringify (arr (trees phone (lead ∷ [])))) ≡ some (arr (trees phone (lead ∷ [])))
      → is_opaque g.canonical_board_id ≡ true
      → is_opaque g.state_source ≡ true
      → find_consent_leads_by_phone query g phone ≡ returned (lead ∷ [])
      → normalize_text lead.state_value ≡ some state
      → resolve_canonical_consent parse (config adapter_config)
        ≡ resolved unique_phone
            (record { id = lead.id; board_id = g.canonical_board_id; state = state })
  resolve-find_consent_leads_by_phone lead state law board source found normal =
      let valid = find-is_phone query g phone lead found in
      let evidence = find_consent_leads_by_phone-IsFound query g phone (lead ∷ []) found in
      let f = evidence.0.0 in
      let (same_id, same_board, same_source) = canonical_object-parts g f.item lead f.canonical in
      let opaque : is_opaque lead.id ≡ true =
        rw same_id (page-is_opaque g f.response f.items f.item f.page f.listed) in
      let item =
        validate_item-fields lead.id g.canonical_board_id lead.state_value g.state_source phone
          state lead.phones opaque board valid normal in
      resolve-payload (returned (lead ∷ [])) lead state refl found law board source valid (
        subst
          (λ b.
            validate_item
              (lead_tree (some phone) (record {
                id = lead.id;
                board_id = b;
                state_value = lead.state_value;
                source = lead.source;
                phones = lead.phones;
              }))
              g.canonical_board_id g.state_source unique_phone none phone
            ≡ resolved unique_phone
                (record { id = lead.id; board_id = g.canonical_board_id; state = state }))
          (sym same_board)
          (subst
            (λ b.
              validate_item
                (lead_tree (some phone) (record {
                  id = lead.id;
                  board_id = g.canonical_board_id;
                  state_value = lead.state_value;
                  source = b;
                  phones = lead.phones;
                }))
                g.canonical_board_id g.state_source unique_phone none phone
              ≡ resolved unique_phone
                  (record { id = lead.id; board_id = g.canonical_board_id; state = state }))
            (sym same_source) item))
