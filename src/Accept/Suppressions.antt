-- ===== src/Accept/Suppressions.antt =====
-- filterSuppressedContacts of messages/suppressions.ts. A row of the table of contacts has the address
-- and whether its severity is "all".
use relayit.Prelude.{
  ◌+◌, ◌≡◌, String, Bool, true, false, not, ◌&&◌, List, [], ◌∷◌, map, Result, ok, err, arith,
  str_eq, eq_iff, eq_refl, if◌then◌else◌, All, All-map, ◌∙◌, Bool-cases, inl, inr,
}
use relayit.Prelude.Counts.{count}
use relayit.Accept.{MessageContact}
use relayit.Accept.Contacts.Merging.{emails}

pub record ContactRow : Type 0 where
  pub email : String
  pub organization_app_environment_id : String
  pub suppresses_all : Bool

pub record Filtered : Type 0 where
  pub kept : List MessageContact
  pub stripped : List MessageContact

-- `new Set(…).has(email)`
unfoldable pub has : String → List String → Bool
has x [] = false
has x (y ∷ ys) = let rest = has x ys in if str_eq y x then true else rest

module _ (normalize_contact_email lower : String → String) where
  -- The query: the rows of the environment that suppress everything, by the lower form of the
  -- address.
  unfoldable pub suppressed_of : String → List String → List ContactRow → List String
  suppressed_of environment normalized [] = []
  suppressed_of environment normalized (row ∷ rows) =
      let rest = suppressed_of environment normalized rows in
      if str_eq row.organization_app_environment_id environment
        && (row.suppresses_all && has (lower row.email) normalized)
      then normalize_contact_email row.email ∷ rest
      else rest

  unfoldable pub keep : List String → List MessageContact → List MessageContact
  keep suppressed [] = []
  keep suppressed (r ∷ recipients) =
      let rest = keep suppressed recipients in
      if not (has (normalize_contact_email r.email) suppressed) then r ∷ rest else rest

  unfoldable pub strip : List String → List MessageContact → List MessageContact
  strip suppressed [] = []
  strip suppressed (r ∷ recipients) =
      let rest = strip suppressed recipients in
      if has (normalize_contact_email r.email) suppressed then r ∷ rest else rest

  unfoldable pub filter_suppressed_contacts :
      Bool → String → List ContactRow → List MessageContact → Result (Unit {0}) Filtered
  filter_suppressed_contacts query_ok environment rows [] = ok record { kept = []; stripped = [] }
  filter_suppressed_contacts query_ok environment rows (r ∷ recipients) =
      let normalized =
        map (λ (c : MessageContact). normalize_contact_email c.email) (r ∷ recipients) in
      let suppressed = suppressed_of environment normalized rows in
      if query_ok
      then ok record {
        kept = keep suppressed (r ∷ recipients);
        stripped = strip suppressed (r ∷ recipients);
      }
      else err tt

  count-keep-strip :
      (suppressed : List String) (recipients : List MessageContact) (x : String)
      → count x (emails (keep suppressed recipients))
          + count x (emails (strip suppressed recipients))
        ≡ count x (emails recipients)
  unfolding keep strip
  count-keep-strip suppressed [] x = omega arith
  count-keep-strip suppressed (r ∷ recipients) x =
      ground (arith, count-keep-strip suppressed recipients x)

  -- The address of a row that suppresses it for an environment.
  abbrev pub Suppresses : String → ContactRow → MessageContact → Type 0
  Suppresses environment row r =
      (row.organization_app_environment_id ≡ environment)
      × (row.suppresses_all ≡ true)
      × (normalize_contact_email row.email ≡ normalize_contact_email r.email)

  has_more : (x y : String) (ys : List String) → has x ys ≡ true → has x (y ∷ ys) ≡ true
  unfolding has
  has_more x y ys h = ground (arith, h)

  listed :
      (recipients : List MessageContact)
      → All
          (λ (r : MessageContact).
            has
              (normalize_contact_email r.email)
              (map (λ (c : MessageContact). normalize_contact_email c.email) recipients)
            ≡ true)
          recipients
  unfolding has
  listed [] = tt
  listed (r ∷ recipients) = (
    ground (arith, eq_refl (normalize_contact_email r.email)),
    All-map
        (λ (c : MessageContact).
          has_more (normalize_contact_email c.email) (normalize_contact_email r.email) _)
        recipients (listed recipients),
  )

  All-keep :
      (P : MessageContact → Type 0) (suppressed : List String) (recipients : List MessageContact)
      → All P recipients
      → All
          (λ r. P r × (has (normalize_contact_email r.email) suppressed ≡ false))
          (keep suppressed recipients)
  unfolding keep
  All-keep P suppressed [] a = tt
  All-keep P suppressed (r ∷ recipients) (p, a) =
      elim (Bool-cases (has (normalize_contact_email r.email) suppressed)) [
        | inl out ↦ rw out (All-keep P suppressed recipients a)
        | inr stays ↦ rw stays ((p, stays), All-keep P suppressed recipients a)
      ]

  -- The addresses of contacts are stored in normal form.
  abbrev pub IsStored : ContactRow → Type 0
  IsStored row = lower row.email ≡ normalize_contact_email row.email

  suppressed_of-has :
      (environment : String) (normalized : List String) (r : MessageContact)
      (rows : List ContactRow)
      → has (normalize_contact_email r.email) normalized ≡ true
      → All IsStored rows
      → All
          (λ row.
            Suppresses environment row r
            → has (normalize_contact_email r.email) (suppressed_of environment normalized rows)
              ≡ true)
          rows
  unfolding suppressed_of has
  suppressed_of-has environment normalized r [] there stored = tt
  suppressed_of-has environment normalized r (row ∷ rows) there (s, stored) = (
    (λ (e, a, n).
        (let same : lower row.email ≡ normalize_contact_email r.email = s ∙ n in
          let found : has (lower row.email) normalized ≡ true = rw same there in
          ground (
            arith,
            found,
            a,
            eq_iff row.organization_app_environment_id environment,
            e,
            n,
            eq_iff (normalize_contact_email row.email) (normalize_contact_email r.email),
          ))),
    All-map (λ x k p. ground (arith, k p)) rows
        (suppressed_of-has environment normalized r rows there stored),
  )

  -- A filter that succeeds divides the recipients: every address stands among those kept and those
  -- stripped together as often as among the recipients; and where the addresses of contacts are
  -- stored in normal form, no row of the environment that suppresses everything has the address of
  -- a recipient who is kept.
  pub filter_suppressed_contacts-ok :
      (environment : String) (rows : List ContactRow) (recipients : List MessageContact)
      (query_ok : Bool) (f : Filtered)
      → filter_suppressed_contacts query_ok environment rows recipients ≡ ok f
      → All IsStored rows
      → ((x : String)
          → count x (emails f.kept) + count x (emails f.stripped) ≡ count x (emails recipients))
        × All (λ r. All (λ row. ¬ Suppresses environment row r) rows) f.kept
  unfolding filter_suppressed_contacts
  filter_suppressed_contacts-ok environment rows [] query_ok f h stored =
      let same : record { kept = []; stripped = [] } ≡ f = ground (arith, h) in
      rw (← same) ((λ x. omega arith), tt)
  filter_suppressed_contacts-ok environment rows (r ∷ recipients) false f h stored = cc
  filter_suppressed_contacts-ok environment rows (r ∷ recipients) true f h stored =
      let normalized =
        map (λ (c : MessageContact). normalize_contact_email c.email) (r ∷ recipients) in
      let suppressed = suppressed_of environment normalized rows in
      let answer : Filtered = record {
        kept = keep suppressed (r ∷ recipients);
        stripped = strip suppressed (r ∷ recipients);
      } in
      let same : answer ≡ f = cc in
      rw (← same) (
        count-keep-strip suppressed (r ∷ recipients),
        All-map
            (λ c (there, unsuppressed).
              All-map (λ row k p. (let on = k p in ground (arith, on, unsuppressed))) rows
                (suppressed_of-has environment normalized c rows there stored))
            (keep suppressed (r ∷ recipients))
            (All-keep _ suppressed (r ∷ recipients) (listed (r ∷ recipients))),
      )
