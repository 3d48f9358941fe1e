-- ===== src/DataSource/Tables.antt =====
-- The two tables of the schema, and what the statements of Sqlite mean for them.
use text.Mathlib.Text.{◌==◌ as str_eq}
use text.Mathlib.TextEquality.{eq_iff}
use daqs.Base.{
  ℕ, ◌+◌, ◌^◌, ◌<◌, Bool, true, ◌&&◌, String, Option, none, some, List, [], ◌∷◌, ◌++◌, ◌==◌,
  if◌then◌else◌, All, ◌≡◌, refl, ap, inl, inr, Bool-cases,
}
use daqs.Base.Int.{ℤ, pos, leb_ℤ}
use daqs.DataModel.{Variable, VarValue, default_variable}

pub record VariableRow : Type 0 where
  pub id : ℕ
  pub name : String
  pub color : String

pub record ValueRow (W : Type 0) : Type 0 where
  pub val : W
  pub timestamp : ℕ
  pub variable_id : ℕ

-- `none` is a table that does not exist.
pub record Tables (W : Type 0) : Type 0 where
  pub variables : Option (List VariableRow)
  pub values : Option (List (ValueRow W))
  pub next_id : ℕ

-- SELECT ID FROM VARIABLE WHERE NAME = name
unfoldable pub id_of : String → List VariableRow → Option ℕ
id_of name [] = none
id_of name (v ∷ vs) = if str_eq v.name name then some v.id else id_of name vs

abbrev pub always : ℕ → Bool
always t = true

-- TIMESTAMP >= lo AND TIMESTAMP <= hi
abbrev pub between : ℤ → ℤ → ℕ → Bool
between lo hi t = leb_ℤ lo (pos t) && leb_ℤ (pos t) hi

module _ {W : Type 0} where
  -- A statement's effect; `none` is an error, with nothing changed.
  abbrev pub create_variable : Tables W → Option (Tables W)
  create_variable t = elim t.variables [
    | none ↦ some (record t { variables = some [] })
    | some vs ↦ none
  ]

  abbrev pub create_value : Tables W → Option (Tables W)
  create_value t = elim t.values [ none ↦ some (record t { values = some [] }) | some ws ↦ none ]

  -- NAME is UNIQUE.
  abbrev pub insert_variable : String → String → Tables W → Option (Tables W)
  insert_variable name color t = elim t.variables [
    | none ↦ none
    | some vs ↦ elim (id_of name vs) [
      | some i ↦ none
      | none ↦ some (record t {
        variables = some (vs ++ record { id = t.next_id; name = name; color = color } ∷ []);
        next_id = t.next_id + 1;
      })
    ]
  ]

  -- VARIABLE_ID is NOT NULL, so the subquery must find the name.
  abbrev pub insert_value : W → ℕ → String → Tables W → Option (Tables W)
  insert_value val timestamp name t = elim t.variables [
    | none ↦ none
    | some vs ↦ elim (id_of name vs) [
      | none ↦ none
      | some i ↦ elim t.values [
        | none ↦ none
        | some ws ↦ some (record t {
          values = some (ws ++ record { val = val; timestamp = timestamp; variable_id = i } ∷ []);
        })
      ]
    ]
  ]

  -- The same for the number that is written; without one the text is no statement.
  abbrev pub insert_written : Option W → ℕ → String → Tables W → Option (Tables W)
  insert_written none timestamp name t = none
  insert_written (some val) timestamp name t = insert_value val timestamp name t

  -- WHERE VARIABLE_ID = i AND the timestamp passes
  unfoldable pub of_variable : ℕ → (ℕ → Bool) → List (ValueRow W) → List (ValueRow W)
  of_variable i test [] = []
  of_variable i test (w ∷ ws) =
      if w.variable_id == i && test w.timestamp
      then w ∷ of_variable i test ws
      else of_variable i test ws

  -- A comparison with NULL selects nothing.
  abbrev pub chosen : Option ℕ → (ℕ → Bool) → List (ValueRow W) → List (ValueRow W)
  chosen none test ws = []
  chosen (some i) test ws = of_variable i test ws

  abbrev pub select_from :
      String
      → (ℕ → Bool)
      → Option (List VariableRow)
      → Option (List (ValueRow W))
      → Option (List (ValueRow W))
  select_from name test none ws = none
  select_from name test (some vs) none = none
  select_from name test (some vs) (some ws) = some (chosen (id_of name vs) test ws)

  unfoldable pub select_values : String → (ℕ → Bool) → Tables W → Option (List (ValueRow W))
  select_values name test t = select_from name test t.variables t.values

  -- What the program sees of a row: no variable.
  abbrev pub seen : ValueRow W → VarValue W
  seen w = record { variable = default_variable; val = w.val; timestamp = w.timestamp }

  -- The column is a signed integer of 64 bits.
  abbrev pub IsBounded : List (ValueRow W) → Type 0
  IsBounded ws = All (λ w. w.timestamp < 2 ^ 63) ws

  abbrev pub IsInRange : Option (List (ValueRow W)) → Type 0
  IsInRange none = Unit
  IsInRange (some ws) = IsBounded ws

  of_variable-IsBounded :
      (i : ℕ) (test : ℕ → Bool) (ws : List (ValueRow W))
      → IsBounded ws
      → IsBounded (of_variable i test ws)
  unfolding of_variable
  of_variable-IsBounded i test [] h = tt
  of_variable-IsBounded i test (w ∷ ws) (h, hs) =
      elim (Bool-cases (w.variable_id == i && test w.timestamp)) [
        | inl e ↦ rw (of_variable, e) (h, of_variable-IsBounded i test ws hs)
        | inr e ↦ rw (of_variable, e) (of_variable-IsBounded i test ws hs)
      ]

  chosen-IsBounded :
      (o : Option ℕ) (test : ℕ → Bool) (ws : List (ValueRow W))
      → IsBounded ws
      → IsBounded (chosen o test ws)
  chosen-IsBounded none test ws h = tt
  chosen-IsBounded (some i) test ws h = of_variable-IsBounded i test ws h

  pub select_values-IsInRange :
      (name : String) (test : ℕ → Bool) (t : Tables W)
      → IsInRange t.values
      → IsInRange (select_values name test t)
  unfolding select_values
  select_values-IsInRange name test t h = go t.variables t.values h
    where
      go :
          (vs : Option (List VariableRow)) (ws : Option (List (ValueRow W)))
          → IsInRange ws
          → IsInRange (select_from name test vs ws)
      go none ws h = tt
      go (some vs) none h = tt
      go (some vs) (some ws) h = chosen-IsBounded (id_of name vs) test ws h

  pub of_variable-append :
      (i : ℕ) (ws us : List (ValueRow W))
      → of_variable i always (ws ++ us) ≡ of_variable i always ws ++ of_variable i always us
  unfolding of_variable
  of_variable-append i [] us = refl
  of_variable-append i (w ∷ ws) us = elim (Bool-cases (w.variable_id == i && true)) [
    | inl e ↦ rw (of_variable, e) (ap (◌∷◌ w) (of_variable-append i ws us))
    | inr e ↦ rw (of_variable, e) (of_variable-append i ws us)
  ]

abbrev pub seen_variable : VariableRow → Variable
seen_variable v = record { name = v.name; color = v.color }

pub id_of-last :
    (v : VariableRow) (vs : List VariableRow)
    → id_of v.name vs ≡ none
    → id_of v.name (vs ++ v ∷ []) ≡ some v.id
unfolding id_of
id_of-last v [] h = rw ((eq_iff v.name v.name).1 refl) refl
id_of-last v (u ∷ vs) h = elim (Bool-cases (str_eq u.name v.name)) [
  | inl e ↦ cc
  | inr e ↦ rw e (id_of-last v vs (rw e at h))
]
