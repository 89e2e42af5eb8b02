-- ===== src/Accept/Contacts/Merging.antt =====
-- The contacts that a merge leaves: mergeMessageContacts of messages/accept/contacts.ts.
use relayit.Prelude.{
  ℕ, ◌+◌, ◌≤◌, ◌≡◌, refl, sym, ◌∙◌, String, Option, none, some, List, [], ◌∷◌, map, arith, str_eq,
  eq_iff, if◌then◌else◌, Bool-cases, inl, inr, All, ◌==◌, ◌&&◌,
}
use relayit.Prelude.Counts.{count}
use relayit.Accept.{MessageContact}
use relayit.Accept.Contacts.{
  Contacts, get, set, merged, entry_for, add, add_all, merge_message_contacts,
}

abbrev pub emails : List MessageContact → List String
emails cs = map (λ (c : MessageContact). c.email) cs

abbrev keys : Contacts → List String
keys l = map (λ (e : String × MessageContact). e.0) l

-- One, where there is any.
abbrev pub once : ℕ → ℕ
once n = if n == 0 then 0 else 1

-- Every contact stands under its own email.
abbrev AllKeyed : Contacts → Type 0
AllKeyed l = All (λ (e : String × MessageContact). e.0 ≡ e.1.email) l

count-set :
    (email x : String) (c : MessageContact) (l : Contacts)
    → count x (keys (set email c l))
      ≡ count x (keys l) + (if str_eq email x && count email (keys l) == 0 then 1 else 0)
unfolding set
count-set email x c [] = ground arith
count-set email x c ((e, d) ∷ l) = ground (arith, count-set email x c l)

AllKeyed-set :
    (email : String) (c : MessageContact) (l : Contacts)
    → c.email ≡ email
    → AllKeyed l
    → AllKeyed (set email c l)
unfolding set
AllKeyed-set email c [] h a = (sym h, tt)
AllKeyed-set email c ((e, d) ∷ l) h (p, a) = elim (Bool-cases (str_eq e email)) [
  | inl same ↦
      rw same ((let eq : e ≡ email = ground (arith, same, eq_iff e email) in eq ∙ sym h), a)
  | inr other ↦ rw other (p, AllKeyed-set email c l h a)
]

email-entry_for :
    (email : String) (c : MessageContact) (found : Option MessageContact)
    → (entry_for email c found).email ≡ email
unfolding entry_for merged
email-entry_for email c none = refl
email-entry_for email c (some d) = refl

module _ (normalize : String → String) where
  abbrev pub normalized : List MessageContact → List String
  normalized cs = map (λ (c : MessageContact). normalize c.email) cs

  count-add :
      (c : MessageContact) (l : Contacts) (x : String)
      → count x (keys (add normalize c l))
        ≡ count x (keys l)
          + (if str_eq (normalize c.email) x && count (normalize c.email) (keys l) == 0
              then 1
              else 0)
  unfolding add
  count-add c l x = count-set (normalize c.email) x _ l

  -- The same, by the email that is counted.
  count-add_same :
      (c : MessageContact) (l : Contacts) (x : String)
      → count x (keys (add normalize c l))
        ≡ count x (keys l)
          + (if str_eq (normalize c.email) x && count x (keys l) == 0 then 1 else 0)
  count-add_same c l x = elim (Bool-cases (str_eq (normalize c.email) x)) [
    | inl same ↦
        let eq : normalize c.email ≡ x = ground (arith, same, eq_iff (normalize c.email) x) in
        let counted : count (normalize c.email) (keys l) ≡ count x (keys l) = rw eq refl in
        ground (arith, same, counted, count-add c l x)
    | inr other ↦ ground (arith, other, count-add c l x)
  ]

  count-add_all :
      (cs : List MessageContact) (l : Contacts) (x : String)
      → count x (keys l) ≤ 1
      → count x (keys (add_all normalize cs l)) ≡ once (count x (keys l) + count x (normalized cs))
  unfolding add_all
  count-add_all [] l x h = ground (arith, h)
  count-add_all (c ∷ cs) l x h =
      let step = count-add_same c l x in
      ground (arith, h, step, count-add_all cs (add normalize c l) x (ground (arith, h, step)))

  AllKeyed-add : (c : MessageContact) (l : Contacts) → AllKeyed l → AllKeyed (add normalize c l)
  unfolding add
  AllKeyed-add c l a =
      AllKeyed-set (normalize c.email) _ l
        (email-entry_for (normalize c.email) c (get (normalize c.email) l)) a

  AllKeyed-add_all :
      (cs : List MessageContact) (l : Contacts) → AllKeyed l → AllKeyed (add_all normalize cs l)
  unfolding add_all
  AllKeyed-add_all [] l a = a
  AllKeyed-add_all (c ∷ cs) l a = AllKeyed-add_all cs (add normalize c l) (AllKeyed-add c l a)

  emails-keys :
      (l : Contacts) → AllKeyed l → emails (map (λ (e : String × MessageContact). e.1) l) ≡ keys l
  emails-keys [] a = refl
  emails-keys ((e, c) ∷ l) (p, a) = rw (p, emails-keys l a) refl

  -- A merge leaves one contact for each email that some contact has in normal form, and no other:
  -- an email occurs once in the result where it occurs in the input, and not at all where it does
  -- not.
  pub count-merge_message_contacts :
      (cs : List MessageContact) (x : String)
      → count x (emails (merge_message_contacts normalize cs)) ≡ once (count x (normalized cs))
  unfolding merge_message_contacts
  count-merge_message_contacts cs x =
      rw (emails-keys (add_all normalize cs []) (AllKeyed-add_all cs [] tt))
        (ground (arith, count-add_all cs [] x (omega arith)))
