-- ===== src/MondayAdapter/Evidence.antt =====
-- monday-callback-adapter.mjs: the evidence behind each lead that the lookup by phone gives.
use air_call_demo_recording.Base.{
  ◌≡◌, refl, ◌⊎◌, inl, inr, Bool, true, false, not, ◌&&◌, ◌||◌, Option, none, some, List, [], ◌∷◌,
  ◌++◌, arith, Bool-cases, Option-cases, All, Attempt, returned, thrown,
}
use air_call_demo_recording.Base.Text.Patterns.{is_phone}
use mathlib.Core.Path.{subst}
use air_call_demo_recording.Base.Text.{Text, text_eq, has}
use air_call_demo_recording.Base.Text.Laws.{text_eq→eq, text_eq_refl}
use air_call_demo_recording.ConsentResolver.Leads.{Json}
use air_call_demo_recording.MondayAdapter.{
  AdapterConfig, RawItem, Lead, canonical_object, matching_phone,
}
use air_call_demo_recording.MondayAdapter.Lookup.{
  Query, by_phone_column, page_items, has_lead, add_lead, match_items, match_columns,
  find_consent_leads_by_phone,
}

-- No two leads of one id.
unfoldable pub ids_distinct : List Lead → Bool
ids_distinct [] = true
ids_distinct (m ∷ matches) = not (has_lead m.id matches) && ids_distinct matches

returned-injective {ℓ} : {A : Type ℓ} {a b : A} → returned a ≡ returned b → a ≡ b
returned-injective e = cc

Attempt-cases {ℓ} : {A : Type ℓ} (m : Attempt A) → (m ≡ thrown) ⊎ ((a : A) × (m ≡ returned a))
Attempt-cases thrown = inl refl
Attempt-cases (returned a) = inr (a, refl)

abbrev pub IsAmong : RawItem → List RawItem → Type 0
IsAmong item [] = ⊥
IsAmong item (x ∷ items) = (item ≡ x) ⊎ IsAmong item items

module _ (query : Query → Attempt Json) (g : AdapterConfig) (phone : Text) where
  -- An item that Monday gave for the phone in one of the phone columns, with that phone in that column.
  pub record IsFound (lead : Lead) : Type 0 where
    pub column : Text
    pub configured : has g.phone_column_ids column ≡ true
    pub response : Json
    pub given : query (by_phone_column column phone) ≡ returned response
    pub items : List RawItem
    pub page : page_items g response ≡ some items
    pub item : RawItem
    pub listed : IsAmong item items
    pub canonical : canonical_object g item ≡ some lead
    pub phone_there : matching_phone g column phone item.columns ≡ true

  record AreGood (matches : List Lead) : Type 0 where
    found : All IsFound matches
    distinct_ids : ids_distinct matches ≡ true

  All-append_one :
      (matches : List Lead) (lead : Lead)
      → All IsFound matches
      → IsFound lead
      → All IsFound (matches ++ lead ∷ [])
  All-append_one [] lead h f = (f, tt)
  All-append_one (m ∷ matches) lead (h, hs) f = (h, All-append_one matches lead hs f)

  has_lead-append :
      (id : Text) (matches : List Lead) (lead : Lead)
      → has_lead id (matches ++ lead ∷ []) ≡ (has_lead id matches || text_eq lead.id id)
  unfolding has_lead
  has_lead-append id [] lead = ground arith
  has_lead-append id (m ∷ matches) lead = ground (arith, has_lead-append id matches lead)

  ids_distinct-append :
      (matches : List Lead) (lead : Lead)
      → ids_distinct matches ≡ true
      → has_lead lead.id matches ≡ false
      → ids_distinct (matches ++ lead ∷ []) ≡ true
  unfolding ids_distinct has_lead
  ids_distinct-append [] lead h f = refl
  ids_distinct-append (m ∷ matches) lead h f = ground (
    arith,
    ids_distinct-append matches lead,
    has_lead-append m.id matches lead,
    text_eq→eq lead.id m.id,
    text_eq→eq m.id lead.id,
    text_eq_refl m.id,
  )

  AreGood-append :
      (matches : List Lead) (lead : Lead)
      → AreGood matches
      → IsFound lead
      → has_lead lead.id matches ≡ false
      → AreGood (matches ++ lead ∷ [])
  AreGood-append matches lead h f fresh = record {
    found = All-append_one matches lead h.found f;
    distinct_ids = ids_distinct-append matches lead h.distinct_ids fresh;
  }

  add_lead-AreGood :
      (b : Bool) (o : Option Lead) (matches : List Lead)
      → AreGood matches
      → ((lead : Lead) → o ≡ some lead → b ≡ true → IsFound lead)
      → AreGood (add_lead b o matches)
  add_lead-AreGood b none matches h f = h
  add_lead-AreGood false (some lead) matches h f = h
  add_lead-AreGood true (some lead) matches h f = elim (Bool-cases (has_lead lead.id matches)) [
    | inl seen ↦ rw seen h
    | inr fresh ↦ rw fresh (AreGood-append matches lead h (f lead refl refl) fresh)
  ]

  match_items-AreGood :
      (column : Text) (response : Json) (page rest : List RawItem) (matches : List Lead)
      → has g.phone_column_ids column ≡ true
      → query (by_phone_column column phone) ≡ returned response
      → page_items g response ≡ some page
      → ((item : RawItem) → IsAmong item rest → IsAmong item page)
      → AreGood matches
      → AreGood (match_items g column phone rest matches)
  unfolding match_items
  match_items-AreGood column response page [] matches c q p inside h = h
  match_items-AreGood column response page (item ∷ rest) matches c q p inside h =
      match_items-AreGood column response page rest _ c q p (λ x among. inside x (inr among))
        (add_lead-AreGood _ _ matches h λ lead is there. record {
          column = column;
          configured = c;
          response = response;
          given = q;
          items = page;
          page = p;
          item = item;
          listed = inside item (inl refl);
          canonical = is;
          phone_there = there;
        })

  no_leads : AreGood []
  unfolding ids_distinct
  no_leads = record { found = tt; distinct_ids = refl }

  -- What is left of the columns stays among the configured ones.
  match_columns-AreGood :
      (columns : List Text) (matches leads : List Lead)
      → ((c : Text) → has columns c ≡ true → has g.phone_column_ids c ≡ true)
      → AreGood matches
      → match_columns query g phone columns matches ≡ returned leads
      → AreGood leads
  unfolding match_columns has
  match_columns-AreGood [] matches leads inside h e = subst AreGood (returned-injective e) h
  match_columns-AreGood (column ∷ columns) matches leads inside h e =
      elim (Attempt-cases (query (by_phone_column column phone))) [
        | inl t ↦ absurd (let e' : thrown ≡ returned leads = rw t at e in cc e')
        | inr (response, q) ↦ elim (Option-cases (page_items g response)) [
          | inl n ↦ subst AreGood (returned-injective (rw n at (rw q at e))) no_leads
          | inr (page, p) ↦
              match_columns-AreGood columns _ leads (λ c there. inside c (ground arith))
                (match_items-AreGood column response page page matches
                  (inside column (rw (text_eq_refl column) refl)) q p (λ x among. among) h)
                (rw p at (rw q at e))
        ]
      ]

  -- Whatever Monday answers: each lead that the lookup by phone gives comes from an item that Monday gave
  -- for that phone in one of the configured columns, on a page as it should be, whose canonical form it
  -- is and which has that phone in that column; and no two of the leads have one id.
  pub find_consent_leads_by_phone-IsFound :
      (leads : List Lead)
      → find_consent_leads_by_phone query g phone ≡ returned leads
      → All IsFound leads × (ids_distinct leads ≡ true)
  unfolding find_consent_leads_by_phone
  find_consent_leads_by_phone-IsFound leads e = elim (Bool-cases (is_phone phone)) [
    | inl valid ↦
        let good =
          match_columns-AreGood g.phone_column_ids [] leads (λ c there. there) no_leads
            (rw valid at e) in
        (good.found, good.distinct_ids)
    | inr invalid ↦
        let good = subst AreGood (returned-injective (rw invalid at e)) no_leads in
        (good.found, good.distinct_ids)
  ]
