-- ===== src/Prelude/Tables.antt =====
-- Tables of the database as lists of their rows: the rows that a condition selects, and an UPDATE of
-- them.
use mathlib.Core.Path.{◌≡◌, refl, sym}
use mathlib.Core.Bool.{Bool, true}
use mathlib.Core.Option.{Option, none, some}
use mathlib.Core.List.{List, [], ◌∷◌, ◌++◌, Memᴰ}
use native.Mathlib.Omega.{arith}
use mathlib.Core.Logic.{inl, inr}
use relayit.Prelude.Lists.{All}
use relayit.Prelude.Tests.{if◌then◌else◌, Bool-cases}

module _ {A : Type 0} where
  unfoldable pub update_where : (A → Bool) → (A → A) → List A → List A
  update_where test change [] = []
  update_where test change (row ∷ rows) =
      let rest = update_where test change rows in if test row then change row ∷ rest else row ∷ rest

  -- The first row that a condition selects.
  unfoldable pub find_where : (A → Bool) → List A → Option A
  find_where test [] = none
  find_where test (row ∷ rows) =
      let rest = find_where test rows in if test row then some row else rest

  unfoldable pub select_where : (A → Bool) → List A → List A
  select_where test [] = []
  select_where test (row ∷ rows) =
      let rest = select_where test rows in if test row then row ∷ rest else rest

  -- A predicate that the change keeps on the selected rows holds of all rows after the update.
  pub All-update_where :
      (P : A → Type 0) (test : A → Bool) (change : A → A) (rows : List A)
      → ((row : A) → test row ≡ true → P row → P (change row))
      → All P rows
      → All P (update_where test change rows)
  unfolding update_where
  All-update_where P test change [] k a = tt
  All-update_where P test change (row ∷ rows) k (p, a) = elim (Bool-cases (test row)) [
    | inl e ↦ rw e (k row e p, All-update_where P test change rows k a)
    | inr e ↦ rw e (p, All-update_where P test change rows k a)
  ]

  -- What a row becomes.
  abbrev pub updated : (A → Bool) → (A → A) → A → A
  updated test change row = if test row then change row else row

  -- The row that a condition finds after an update which the condition does not see.
  pub find-update_where :
      (wanted test : A → Bool) (change : A → A) (rows : List A)
      → ((row : A) → wanted (change row) ≡ wanted row)
      → find_where wanted (update_where test change rows)
        ≡ elim (find_where wanted rows) [ none ↦ none | some row ↦ some (updated test change row) ]
  unfolding find_where update_where
  find-update_where wanted test change [] k = refl
  find-update_where wanted test change (row ∷ rows) k =
      ground (arith, k row, find-update_where wanted test change rows k)

  pub find_where-holds :
      (wanted : A → Bool) (rows : List A) (row : A)
      → find_where wanted rows ≡ some row
      → wanted row ≡ true
  unfolding find_where
  find_where-holds wanted [] row h = cc
  find_where-holds wanted (x ∷ rows) row h = ground (arith, h, find_where-holds wanted rows row)

  -- The row that is found is one of the rows.
  pub find_where-Memᴰ :
      (wanted : A → Bool) (rows : List A) (row : A)
      → find_where wanted rows ≡ some row
      → Memᴰ row rows
  unfolding find_where
  find_where-Memᴰ wanted [] row h = cc
  find_where-Memᴰ wanted (x ∷ rows) row h = elim (Bool-cases (wanted x)) [
    | inl e ↦ Memᴰ.head (sym (ground (arith, e, h)))
    | inr e ↦ Memᴰ.tail (find_where-Memᴰ wanted rows row (ground (arith, e, h)))
  ]

  pub All-find_where :
      (P : A → Type 0) (wanted : A → Bool) (rows : List A) (row : A)
      → All P rows
      → find_where wanted rows ≡ some row
      → P row
  unfolding find_where
  All-find_where P wanted [] row a h = cc
  All-find_where P wanted (x ∷ rows) row (p, a) h = elim (Bool-cases (wanted x)) [
    | inl e ↦ (let same : x ≡ row = ground (arith, e, h) in rw (← same) p)
    | inr e ↦ All-find_where P wanted rows row a (ground (arith, e, h))
  ]

  -- A row that is appended where the condition found none.
  pub find_where-append :
      (wanted : A → Bool) (rows : List A) (row : A)
      → find_where wanted rows ≡ none
      → find_where wanted (rows ++ row ∷ []) ≡ (if wanted row then some row else none)
  unfolding find_where
  find_where-append wanted [] row h = refl
  find_where-append wanted (x ∷ rows) row h = ground (arith, h, find_where-append wanted rows row)
