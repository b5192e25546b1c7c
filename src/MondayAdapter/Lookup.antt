-- ===== src/MondayAdapter/Lookup.antt =====
-- monday-callback-adapter.mjs: the two lookups of leads, and the tree of a lead.
use air_call_demo_recording.Base.{
  ℕ, ◌+◌, Bool, true, false, not, ◌&&◌, ◌||◌, Option, none, some, List, [], ◌∷◌, ◌++◌,
  if◌then◌else◌, length, Attempt, returned, thrown,
}
use air_call_demo_recording.Base.Text.{Text, codes, text_eq}
use air_call_demo_recording.Base.Text.Patterns.{is_opaque, is_phone}
use air_call_demo_recording.ConsentResolver.Leads.{
  Json, text, flag, arr, obj, Elements, nil, cons, Fields, field, end,
}
use air_call_demo_recording.MondayAdapter.{
  AdapterConfig, ◌>>=◌, RawItem, own_value, as_object, bounded_items, Lead, canonical_object,
  matching_phone,
}

-- What Monday is asked.
pub data Query : Type 0 where
  by_item : (item : Text) → Query
  by_phone_column : (column phone : Text) → Query

abbrev pub column_limit : AdapterConfig → ℕ
column_limit g = 1 + length g.phone_column_ids

-- The items of a page of the lookup by phone.
unfoldable pub page_items : AdapterConfig → Json → Option (List RawItem)
page_items g response = do
  body ← own_value (codes "data") response
  page ← own_value (codes "items_page_by_column_values") body
  page_object ← as_object page
  items ← own_value (codes "items") page_object
  bounded_items (column_limit g) 2 items

abbrev only_requested : AdapterConfig → Text → List RawItem → Option Lead
only_requested g id (item ∷ []) = if text_eq item.id id then canonical_object g item else none
only_requested g id _ = none

abbrev native_lead : AdapterConfig → Text → Json → Option Lead
native_lead g id response = do
  body ← own_value (codes "data") response
  items ← own_value (codes "items") body
  listed ← bounded_items (column_limit g) 500 items
  only_requested g id listed

abbrev after_native_query : AdapterConfig → Text → Attempt Json → Attempt (Option Lead)
after_native_query g id thrown = thrown
after_native_query g id (returned response) = returned (native_lead g id response)

-- `getConsentLeadById`
unfoldable pub get_consent_lead_by_id :
    (Query → Attempt Json) → AdapterConfig → Text → Attempt (Option Lead)
get_consent_lead_by_id query g id =
    if is_opaque id then after_native_query g id (query (by_item id)) else returned none

unfoldable pub has_lead : Text → List Lead → Bool
has_lead id [] = false
has_lead id (m ∷ matches) = text_eq m.id id || has_lead id matches

abbrev pub add_lead : Bool → Option Lead → List Lead → List Lead
add_lead matched none matches = matches
add_lead matched (some lead) matches =
    if matched && not (has_lead lead.id matches) then matches ++ lead ∷ [] else matches

-- The items of one page; the matches stand in the order in which they are found.
unfoldable pub match_items : AdapterConfig → Text → Text → List RawItem → List Lead → List Lead
match_items g column phone [] matches = matches
match_items g column phone (item ∷ items) matches =
    match_items g column phone items
      (add_lead (matching_phone g column phone item.columns) (canonical_object g item) matches)

-- What follows a page; the lookup stops without a lead where the page is not as it should be.
abbrev pub after_page :
    Option (List RawItem) → (List RawItem → Attempt (List Lead)) → Attempt (List Lead)
after_page none k = returned []
after_page (some items) k = k items

abbrev pub after_query :
    AdapterConfig → Attempt Json → (List RawItem → Attempt (List Lead)) → Attempt (List Lead)
after_query g thrown k = thrown
after_query g (returned response) k = after_page (page_items g response) k

unfoldable pub match_columns :
    (Query → Attempt Json) → AdapterConfig → Text → List Text → List Lead → Attempt (List Lead)
match_columns query g phone [] matches = returned matches
match_columns query g phone (column ∷ columns) matches =
    after_query g (query (by_phone_column column phone)) λ (items : List RawItem).
      match_columns query g phone columns (match_items g column phone items matches)

-- `findConsentLeadsByPhone`; each match has the requested phone beside it.
unfoldable pub find_consent_leads_by_phone :
    (Query → Attempt Json) → AdapterConfig → Text → Attempt (List Lead)
find_consent_leads_by_phone query g phone =
    if is_phone phone then match_columns query g phone g.phone_column_ids [] else returned []

unfoldable pub texts : List Text → Elements
texts [] = nil
texts (t ∷ ts) = cons (text t) (texts ts)

abbrev pub phones_field : List Text → Fields → Fields
phones_field [] rest = rest
phones_field (t ∷ ts) rest = field (codes "phones") (arr (texts (t ∷ ts))) rest

abbrev phone_field : Option Text → Fields
phone_field none = end
phone_field (some phone) = field (codes "phoneDigits") (text phone) end

-- The tree of a lead, with the phone that it was found by.
unfoldable pub lead_tree : Option Text → Lead → Json
lead_tree phone lead = obj (
    field (codes "id") (text lead.id) (
      field (codes "boardId") (text lead.board_id) (
        field (codes "state")
          (obj (
            field (codes "value") (text lead.state_value) (
              field (codes "source") (text lead.source)
                (field (codes "verified") (flag true) end))))
          (phones_field lead.phones (phone_field phone)))))
