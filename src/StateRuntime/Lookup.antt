-- ===== src/StateRuntime/Lookup.antt =====
-- simple-state-recording-runtime.mjs: `resolveItem`. What one query of Monday gives is a parameter,
-- the items of one phone column and one candidate or an error.
use air_call_demo_recording.Base.{
  Bool, false, ◌&&◌, Option, none, some, List, [], ◌∷◌, ◌==◌, if◌then◌else◌, length, Attempt,
  returned, thrown,
}
use air_call_demo_recording.Base.Text.{Text, codes, text_eq, trim, to_upper}
use air_call_demo_recording.StateRuntime.{digits_of}

pub record ColumnValue : Type 0 where
  pub id : Text
  pub content : Option Text
  pub kind : Text

pub record BoardItem : Type 0 where
  pub id : Text
  pub board_id : Option Text
  pub values : List ColumnValue

-- The state of the one item that matches.
pub record StateItem : Type 0 where
  pub id : Text
  pub state : Text

unfoldable pub find_value : Text → List ColumnValue → Option ColumnValue
find_value id [] = none
find_value id (v ∷ values) = if text_eq v.id id then some v else find_value id values

abbrev board_is : Option Text → Text → Bool
board_is none board = false
board_is (some b) board = text_eq b board

abbrev state_text : Option ColumnValue → Option Text
state_text none = none
state_text (some v) = v.content

abbrev matched : BoardItem → Option Text → Bool → Option StateItem
matched item none same = none
matched item (some state) same =
    if same then some (record { id = item.id; state = to_upper (trim state) }) else none

-- The phone column of an item of the board; a phone with no text throws.
abbrev match_phone :
    BoardItem → Text → Option ColumnValue → Option ColumnValue → Attempt (Option StateItem)
match_phone item candidate none state = returned none
match_phone item candidate (some v) state =
    if text_eq v.kind (codes "phone")
    then elim v.content [
      | none ↦ thrown
      | some t ↦ returned (matched item (state_text state) (text_eq (digits_of t) candidate))
    ]
    else returned none

unfoldable pub match_item : Text → Text → Text → BoardItem → Attempt (Option StateItem)
match_item board column candidate item =
    if board_is item.board_id board
    then match_phone item candidate (find_value column item.values)
        (find_value (codes "text_2") item.values)
    else returned none

-- `matches.set`
unfoldable pub put_match : StateItem → List StateItem → List StateItem
put_match item [] = item ∷ []
put_match item (m ∷ matches) =
    if text_eq m.id item.id then item ∷ matches else m ∷ put_match item matches

abbrev put_if_any : Option StateItem → List StateItem → List StateItem
put_if_any none matches = matches
put_if_any (some item) matches = put_match item matches

infixl 5 ◌>>=◌
abbrev pub ◌>>=◌ {ℓ κ} : {A : Type ℓ} {B : Type κ} → Attempt A → (A → Attempt B) → Attempt B
returned a >>= k = k a
thrown >>= k = thrown

unfoldable pub match_items :
    Text → Text → Text → List BoardItem → List StateItem → Attempt (List StateItem)
match_items board column candidate [] matches = returned matches
match_items board column candidate (item ∷ items) matches = do
  m ← match_item board column candidate item
  match_items board column candidate items (put_if_any m matches)

unfoldable pub match_columns :
    (Text → Text → Attempt (List BoardItem))
    → Text
    → Text
    → List Text
    → List StateItem
    → Attempt (List StateItem)
match_columns query board candidate [] matches = returned matches
match_columns query board candidate (column ∷ columns) matches = do
  items ← query column candidate
  found ← match_items board column candidate items matches
  match_columns query board candidate columns found

unfoldable pub match_candidates :
    (Text → Text → Attempt (List BoardItem))
    → Text
    → List Text
    → List Text
    → List StateItem
    → Attempt (List StateItem)
match_candidates query board columns [] matches = returned matches
match_candidates query board columns (candidate ∷ candidates) matches = do
  found ← match_columns query board candidate columns matches
  match_candidates query board columns candidates found

abbrev board_id : Text
board_id = codes "7727339040"

abbrev phone_columns : List Text
phone_columns = codes "phone__1" ∷ codes "dup__of_phone7__1" ∷ codes "phone_mkrgdn4" ∷ []

abbrev without_one : Text → List Text
without_one [] = []
without_one (c ∷ t) = if c == b'1' && length t == 10 then t ∷ [] else []

abbrev only_one : List StateItem → Option StateItem
only_one (item ∷ []) = some item
only_one _ = none

-- `resolveItem`
unfoldable pub resolve_item :
    (Text → Text → Attempt (List BoardItem)) → Text → Attempt (Option StateItem)
resolve_item query phone = do
  matches ← match_candidates query board_id phone_columns (phone ∷ without_one phone) []
  returned (only_one matches)
