-- ===== src/Accept/Contacts.antt =====
-- mergeMessageContacts of messages/accept/contacts.ts, over the map of contacts by email in the order
-- of insertion. Trimming and lowering an address are a parameter.
pub mod Merging
use relayit.Prelude.{
  String, Bool, true, false, Option, none, some, List, [], ◌∷◌, ◌++◌, map, str_eq, if◌then◌else◌,
  or_else,
}
use relayit.Accept.{MessageContact}

abbrev pub Contacts : Type 0
Contacts = List (String × MessageContact)

-- `byEmail.get(email)`
unfoldable pub get : String → Contacts → Option MessageContact
get email [] = none
get email ((e, c) ∷ rest) = let found = get email rest in if str_eq e email then some c else found

-- `byEmail.set(email, contact)`: a present key keeps its place.
unfoldable pub set : String → MessageContact → Contacts → Contacts
set email contact [] = (email, contact) ∷ []
set email contact ((e, c) ∷ rest) =
    let rest' = set email contact rest in
    if str_eq e email then (e, contact) ∷ rest else (e, c) ∷ rest'

-- `existing ?? candidate`, left out when it is empty.
unfoldable pub first_text : Option String → Option String → Option String
first_text existing candidate = elim existing [
  | none ↦ elim candidate [ none ↦ none | some text ↦ if str_eq text "" then none else some text ]
  | some text ↦ if str_eq text "" then none else some text
]

unfoldable pub assign : List (String × String) → String × String → List (String × String)
assign [] entry = entry ∷ []
assign ((k, v) ∷ entries) (key, value) =
    let rest = assign entries (key, value) in
    if str_eq k key then (k, value) ∷ entries else (k, v) ∷ rest

-- `{ ...a, ...b }`
unfoldable pub spread : List (String × String) → List (String × String) → List (String × String)
spread a [] = a
spread a (entry ∷ entries) = spread (assign a entry) entries

abbrev pub merged_properties : MessageContact → MessageContact → Option (List (String × String))
merged_properties existing candidate =
    elim (spread (or_else candidate.properties []) (or_else existing.properties [])) [
      | [] ↦ none
      | entry ∷ entries ↦ some (entry ∷ entries)
    ]

unfoldable pub merged : String → MessageContact → MessageContact → MessageContact
merged email existing candidate = record {
  email = email;
  first_name = first_text existing.first_name candidate.first_name;
  last_name = first_text existing.last_name candidate.last_name;
  properties = merged_properties existing candidate;
}

-- What a turn of the loop stores, by what it finds.
unfoldable pub entry_for : String → MessageContact → Option MessageContact → MessageContact
entry_for email candidate none = record candidate { email = email }
entry_for email candidate (some existing) = merged email existing candidate

module _ (normalize_contact_email : String → String) where
  -- One turn of the loop.
  unfoldable pub add : MessageContact → Contacts → Contacts
  add candidate by_email =
      let email = normalize_contact_email candidate.email in
      set email (entry_for email candidate (get email by_email)) by_email

  unfoldable pub add_all : List MessageContact → Contacts → Contacts
  add_all [] by_email = by_email
  add_all (candidate ∷ rest) by_email = add_all rest (add candidate by_email)

  unfoldable pub merge_message_contacts : List MessageContact → List MessageContact
  merge_message_contacts contacts = map (λ (e : String × MessageContact). e.1) (add_all contacts [])
