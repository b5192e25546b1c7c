-- ===== src/MondayAdapter/Examples.antt =====
-- monday-callback-adapter.mjs: an item that Monday gives for a phone, and its resolution.
use air_call_demo_recording.Base.{
  ◌≡◌, refl, true, Option, none, some, [], ◌∷◌, if◌then◌else◌, All, Attempt, returned,
}
use air_call_demo_recording.Base.Text.Patterns.{is_phone}
use air_call_demo_recording.Base.Text.{
  Text, codes, text_eq, has, trim, trim_start, trim_end, is_space, to_upper, upper_unit,
}
use air_call_demo_recording.ConsentResolver.Leads.{
  Json, text, arr, obj, nil, cons, field, end, get, opaque_text,
}
use air_call_demo_recording.MondayAdapter.{
  AdapterConfig, Lead, canonical_object, matching_phone, bounded_items, bounded_item,
  bounded_column, each, columns_of, is_type_name, digits_of, phones_of, column_phones,
}
use air_call_demo_recording.MondayAdapter.Lookup.{
  Query, page_items, has_lead, match_items, match_columns, find_consent_leads_by_phone,
}
use air_call_demo_recording.Base.Text.Patterns.{is_opaque}
use air_call_demo_recording.MondayAdapter.Lookup.{lead_tree}
use air_call_demo_recording.MondayAdapter.Evidence.{
  ids_distinct, IsFound, find_consent_leads_by_phone-IsFound,
}
use air_call_demo_recording.ConsentResolver.{config, resolve_canonical_consent}
use air_call_demo_recording.ConsentResolver.Leads.{resolved, unique_phone}
use air_call_demo_recording.Consent.States.{normalize_text}
use air_call_demo_recording.Base.Text.Patterns.{is_digit, is_opaque_unit, is_alnum}
use air_call_demo_recording.MondayAdapter.Resolution.{
  resolve-find_consent_leads_by_phone, adapter_config,
}
use air_call_demo_recording.MondayAdapter.Resolution.{trees}
use air_call_demo_recording.Consent.States.{us_state_abbreviations}

abbrev a_config : AdapterConfig
a_config = record {
  canonical_board_id = codes "board";
  state_column_id = codes "state";
  phone_column_ids = codes "phone" ∷ [];
  allowed_phone_column_types = codes "phone" ∷ [];
  state_source = codes "column";
}

abbrev column_tree : Text → Text → Text → Json
column_tree id content kind = obj (
    field (codes "id") (text id)
      (field (codes "text") (text content) (field (codes "type") (text kind) end)))

abbrev item_tree : Json
item_tree = obj (
    field (codes "id") (text (codes "lead1")) (
      field (codes "board") (obj (field (codes "id") (text (codes "board")) end)) (
        field (codes "column_values")
          (arr (
            cons (column_tree (codes "state") (codes " GA ") (codes "Text"))
              (cons (column_tree (codes "phone") (codes "404 555 0100") (codes "phone")) nil)))
          end)))

abbrev page_tree : Json
page_tree = obj (
    field (codes "data")
      (obj (
        field (codes "items_page_by_column_values")
          (obj (field (codes "items") (arr (cons item_tree nil)) end)) end))
      end)

abbrev a_query : Query → Attempt Json
a_query q = returned page_tree

abbrev a_phone : Text
a_phone = codes "4045550100"

abbrev a_lead : Lead
a_lead = record {
  id = codes "lead1";
  board_id = codes "board";
  state_value = codes "GA";
  source = codes "column";
  phones = a_phone ∷ [];
}

a_lead_found : find_consent_leads_by_phone a_query a_config a_phone ≡ returned (a_lead ∷ [])
unfolding find_consent_leads_by_phone match_columns match_items page_items bounded_items
    bounded_item bounded_column each canonical_object columns_of phones_of column_phones
    matching_phone has_lead digits_of is_type_name get text_eq has opaque_text is_opaque
    is_opaque_unit is_alnum is_digit is_phone trim trim_start trim_end is_space
a_lead_found = refl

find_consent_leads_by_phone-IsFound_example :
    All (IsFound a_query a_config a_phone) (a_lead ∷ []) × (ids_distinct (a_lead ∷ []) ≡ true)
find_consent_leads_by_phone-IsFound_example =
    find_consent_leads_by_phone-IsFound a_query a_config a_phone (a_lead ∷ []) a_lead_found

-- A stand-in for JSON, of the one list that is printed.
abbrev the_list : Json
the_list = arr (cons (lead_tree (some a_phone) a_lead) nil)

abbrev parse_list : Text → Option Json
parse_list t = if text_eq t (codes "list") then some the_list else none

abbrev print_list : Json → Text
print_list j = codes "list"

list_parsed :
    parse_list (print_list (arr (trees a_phone (a_lead ∷ []))))
    ≡ some (arr (trees a_phone (a_lead ∷ [])))
unfolding trees text_eq
list_parsed = refl

board_opaque : is_opaque (codes "board") ≡ true
unfolding is_opaque is_opaque_unit is_alnum is_digit
board_opaque = refl

column_opaque : is_opaque (codes "column") ≡ true
unfolding is_opaque is_opaque_unit is_alnum is_digit
column_opaque = refl

state_normal : normalize_text (codes "GA") ≡ some (codes "GA")
unfolding normalize_text trim trim_start trim_end is_space to_upper upper_unit text_eq has
    us_state_abbreviations
state_normal = refl

resolve-find_consent_leads_by_phone_example :
    resolve_canonical_consent parse_list
      (config (adapter_config a_query a_config parse_list print_list a_phone))
    ≡ resolved unique_phone
        (record { id = codes "lead1"; board_id = codes "board"; state = codes "GA" })
resolve-find_consent_leads_by_phone_example =
    resolve-find_consent_leads_by_phone a_query a_config parse_list print_list a_phone a_lead
      (codes "GA") list_parsed board_opaque column_opaque a_lead_found state_normal
