-- ===== src/StateRuntime/Examples.antt =====
-- simple-state-recording-runtime.mjs: a call of two parties, delivered once, twice and after a restart.
use air_call_demo_recording.Base.{
  ◌≤◌, ◌≡◌, refl, ◌⊎◌, Bool, true, false, Option, none, some, List, [], ◌∷◌, ◌++◌, if◌then◌else◌,
  Attempt, returned,
}
use air_call_demo_recording.Base.Text.Patterns.{is_opaque}
use air_call_demo_recording.Base.Text.{Text, codes, text_eq, has}
use air_call_demo_recording.Js.{natural}
use air_call_demo_recording.ConsentResolver.Leads.{Json, text, obj, field, end, get}
use air_call_demo_recording.StateRuntime.{
  Control, EligibleCall, classify_control_event, normalize_phone, digits_of, is_phone_unit,
}
use air_call_demo_recording.StateRuntime.Lookup.{
  BoardItem, StateItem, resolve_item, match_candidates, match_columns, match_items, match_item,
  put_match, find_value,
}
use air_call_demo_recording.StateRuntime.Handler.{
  answered, Outside, Runtime, looking_up, begin_event, finish_event, handle_event,
}
use air_call_demo_recording.Base.Text.Patterns.{is_digit, is_phone, is_opaque_unit, is_alnum}
use air_call_demo_recording.Base.Text.{trim, trim_start, trim_end, is_space, to_upper, upper_unit}
use mathlib.Core.Logic.{◌⊎◌}
use air_call_demo_recording.StateRuntime.Once.{
  Turn, event, restarting, take_turns, count_pauses, count_pauses-take_turns,
}
use air_call_demo_recording.StateRuntime.Authority.{IsAuthorized, handle_event-IsAuthorized}
use air_call_demo_recording.StateRuntime.Overlap.{finish_event-twice}

abbrev a_token : Text
a_token = codes "secret-of-16-characters"

abbrev a_payload : Json
a_payload = obj (
    field (codes "event") (text (codes "call.answered")) (
      field (codes "token") (text a_token) (
        field (codes "data")
          (obj (
            field (codes "id") (text (codes "call1")) (
              field (codes "direction") (text (codes "outbound")) (
                field (codes "raw_digits") (text (codes "+1 404-555-0100")) (
                  field (codes "user") (obj (field (codes "id") (text (codes "7")) end)) (
                    field (codes "number") (obj (field (codes "id") (text (codes "9")) end))
                      end))))))
          end)))

-- `String` of a text.
abbrev show_text : Json → Text
show_text (text t) = t
show_text _ = []

abbrev a_digest : Text → Text
a_digest t = codes "h" ++ t

abbrev some_states : Text → Option Bool
some_states t =
    if text_eq t (codes "CA")
    then some false
    else if text_eq t (codes "GA")
    then some true
    else none

abbrev a_control : Control
a_control = record { token = a_token; scope = codes "7:9" ∷ []; enabled = true }

abbrev an_item : BoardItem
an_item = record {
  id = codes "item1";
  board_id = some (codes "7727339040");
  values =
      record {
        id = codes "phone__1";
        content = some (codes "+1 (404) 555 0100");
        kind = codes "phone";
      }
      ∷ record { id = codes "text_2"; content = some (codes " ca "); kind = codes "text" }
      ∷ [];
}

-- The first column has the phone.
abbrev a_query : Text → Text → Attempt (List BoardItem)
a_query column candidate = returned (if text_eq column (codes "phone__1") then an_item ∷ [] else [])

abbrev all_works : Outside
all_works = record {
  query = a_query;
  first_audit = true;
  pause = answered true (natural 200);
  second_audit = true;
  writer = some true;
  third_audit = true;
  last_audit = true;
}

abbrev at_rest : Runtime
at_rest = record { seen = []; audit = []; pauses = [] }

abbrev a_call : EligibleCall
a_call = record { id = codes "call1"; phone_digits = codes "14045550100" }

a_payload_begun :
    begin_event show_text a_digest some_states a_control at_rest (some a_payload)
    ≡ looking_up a_call
unfolding begin_event classify_control_event text_eq has get normalize_phone digits_of is_phone_unit
    is_digit is_phone is_opaque is_opaque_unit is_alnum
a_payload_begun = refl

abbrev found_item : StateItem
found_item = record { id = codes "item1"; state = codes "CA" }

found_item_found : resolve_item a_query (codes "14045550100") ≡ returned (some found_item)
unfolding resolve_item match_candidates match_columns match_items match_item find_value put_match
    text_eq digits_of is_digit trim trim_start trim_end is_space to_upper upper_unit
found_item_found = refl

finish_event-twice_example :
    let first =
      (finish_event show_text a_digest some_states a_control a_call all_works at_rest).1 in
    (finish_event show_text a_digest some_states a_control a_call all_works first).1.pauses
    ≡ codes "call1" ∷ codes "call1" ∷ []
unfolding text_eq
finish_event-twice_example =
    finish_event-twice show_text a_digest some_states a_control (some a_payload) a_call found_item
      all_works at_rest a_payload_begun found_item_found refl refl

abbrev two_deliveries : List Turn
two_deliveries =
    event (some a_payload) all_works ∷ restarting ∷ event (some a_payload) all_works ∷ []

count_pauses-take_turns_example :
    count_pauses a_digest
      (codes "hcall1")
      (take_turns show_text a_digest some_states a_control two_deliveries at_rest).pauses
    ≤ 1
count_pauses-take_turns_example =
    count_pauses-take_turns show_text a_digest some_states a_control two_deliveries at_rest refl
      (codes "hcall1")

handle_event-IsAuthorized_example :
    let s =
      (handle_event show_text a_digest some_states a_control
        (some a_payload)
        all_works
        at_rest).1 in
    (s.pauses ≡ [])
    ⊎ IsAuthorized show_text a_digest some_states a_control (some a_payload) all_works at_rest s
handle_event-IsAuthorized_example =
    handle_event-IsAuthorized show_text a_digest some_states a_control (some a_payload) all_works
      at_rest
