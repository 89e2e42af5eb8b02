-- ===== src/Webhooks/Emit/Matching.antt =====
-- Which endpoints listen to an event: endpointMatches of emit.ts against its description.
use relayit.Prelude.{
  ap, ◌<◌, ◌≡◌, ◌↔◌, refl, String, Bool, true, ◌&&◌, Option, none, some, List, [], ◌∷◌, arith,
  eq_iff, eq_refl, or_else, All, Option-cases, inl, inr,
}
use relayit.Prelude.Counts.{count}
use relayit.Webhooks.Emit.{includes, tag, has_tag, every_tag, endpoint_matches}

-- An enabled endpoint that names the type, and whose filter the message's tags satisfy.
pub record Listens (enabled : Bool) (event_types : List String)
    (tags filter : List (String × String)) (type : String) : Type 0 where
  pub is_enabled : enabled ≡ true
  pub has_type : 0 < count type event_types
  pub has_tags : All (λ (e : String × String). tag tags e.0 ≡ some e.1) filter

includes-count : (x : String) (xs : List String) → includes x xs ≡ true → 0 < count x xs
unfolding includes
includes-count x [] h = cc
includes-count x (y ∷ ys) h = ground (arith, h, includes-count x ys)

count-includes : (x : String) (xs : List String) → 0 < count x xs → includes x xs ≡ true
unfolding includes
count-includes x [] h = ground (arith, h)
count-includes x (y ∷ ys) h = ground (arith, h, count-includes x ys)

has_tag-some :
    (tags : List (String × String)) (e : String × String)
    → has_tag tags e ≡ true
    → tag tags e.0 ≡ some e.1
has_tag-some tags (k, v) h = elim (Option-cases (tag tags k)) [
  | inl missing ↦ ground (arith, missing, h)
  | inr (w, found) ↦
      (let same : w ≡ v = ground (arith, found, h, eq_iff w v) in rw found (ap some same))
]

some-has_tag :
    (tags : List (String × String)) (e : String × String)
    → tag tags e.0 ≡ some e.1
    → has_tag tags e ≡ true
some-has_tag tags (k, v) h = ground (arith, h, eq_refl v)

every_tag-All :
    (tags filter : List (String × String))
    → every_tag tags filter ≡ true
    → All (λ (e : String × String). tag tags e.0 ≡ some e.1) filter
unfolding every_tag
every_tag-All tags [] h = tt
every_tag-All tags (e ∷ es) h =
    (has_tag-some tags e (ground (arith, h)), every_tag-All tags es (ground (arith, h)))

All-every_tag :
    (tags filter : List (String × String))
    → All (λ (e : String × String). tag tags e.0 ≡ some e.1) filter
    → every_tag tags filter ≡ true
unfolding every_tag
All-every_tag tags [] a = refl
All-every_tag tags (e ∷ es) (p, a) = ground (arith, some-has_tag tags e p, All-every_tag tags es a)

endpoint_matches-and :
    (enabled : Bool) (event_types : List String) (tags filter : Option (List (String × String)))
    (type : String)
    → endpoint_matches enabled event_types tags filter type
      ≡ (enabled && (includes type event_types && every_tag (or_else tags []) (or_else filter [])))
unfolding endpoint_matches every_tag
endpoint_matches-and enabled event_types tags none type = ground arith
endpoint_matches-and enabled event_types tags (some []) type = ground arith
endpoint_matches-and enabled event_types tags (some (e ∷ es)) type = ground arith

-- An endpoint matches an event exactly when it is enabled, names the event's type, and every entry
-- of its tag filter, none standing for an empty one, is a tag of the message.
pub endpoint_matches-Listens :
    (enabled : Bool) (event_types : List String) (tags filter : Option (List (String × String)))
    (type : String)
    → (endpoint_matches enabled event_types tags filter type ≡ true)
      ↔ Listens enabled event_types (or_else tags []) (or_else filter []) type
endpoint_matches-Listens enabled event_types tags filter type =
    let all = endpoint_matches-and enabled event_types tags filter type in
    (
      λ h. record {
        is_enabled = ground (arith, all, h);
        has_type = includes-count type event_types (ground (arith, all, h));
        has_tags = every_tag-All (or_else tags []) (or_else filter []) (ground (arith, all, h));
      },
      λ l. ground (
        arith,
        all,
        l.is_enabled,
        count-includes type event_types l.has_type,
        All-every_tag (or_else tags []) (or_else filter []) l.has_tags,
      ),
    )
