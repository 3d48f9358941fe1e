-- ===== src/DataSource/History.antt =====
-- What the database is for: variables in the order in which they were added, each with its values in
-- the order in which they were saved. The tables are seen as such a history, if they are valid.
use text.Mathlib.Text.{◌==◌ as str_eq}
use text.Mathlib.TextEquality.{eq_iff}
use mathlib.Core.Path.{ap₂}
use daqs.Base.{
  ℕ, ◌<◌, ◌≡◌, ◌≢◌, refl, sym, ap, ◌∙◌, Bool, true, false, String, none, some, List, [], ◌∷◌, ◌++◌,
  map, ◌==◌, if◌then◌else◌, All, inl, inr, Bool-cases, arith, append-nil, map-append,
}
use daqs.DataModel.{VarValue, Variable}
use daqs.DataSource.Tables.{
  VariableRow, ValueRow, seen, id_of, of_variable, of_variable-append, always,
}

pub record Entry (W : Type 0) : Type 0 where
  pub variable : Variable
  pub values : List (VarValue W)

abbrev pub History : Type 0 → Type 0
History W = List (Entry W)

-- Each variable has its own id and name.
abbrev pub IsApart : VariableRow → VariableRow → Type 0
IsApart v u = (u.id ≢ v.id) × (u.name ≢ v.name)

abbrev pub IsDistinct : List VariableRow → Type 0
IsDistinct [] = Unit
IsDistinct (v ∷ vs) = All (IsApart v) vs × IsDistinct vs

str_ne : (a b : String) → a ≢ b → str_eq a b ≡ false
str_ne a b h = elim (Bool-cases (str_eq a b)) [ inl e ↦ absurd (h ((eq_iff a b).0 e)) | inr e ↦ e ]

-- The others of a variable that has the id and the name.
apart_other :
    (name : String) (v : VariableRow) (i : ℕ)
    → i ≡ v.id
    → str_eq v.name name ≡ true
    → (vs : List VariableRow) → All (IsApart v) vs
    → All (λ u. (i ≢ u.id) × (str_eq u.name name ≡ false)) vs
apart_other name v i same e [] h = tt
apart_other name v i same e (u ∷ vs) ((other, named), hs) = (
  (λ p. other (sym p ∙ same), str_ne u.name name (λ p. named (p ∙ sym ((eq_iff v.name name).0 e)))),
  apart_other name v i same e vs hs,
)

id_of-apart :
    (name : String) (v : VariableRow) (vs : List VariableRow) (i : ℕ)
    → All (IsApart v) vs
    → id_of name vs ≡ some i
    → i ≢ v.id
unfolding id_of
id_of-apart name v [] i h p = cc
id_of-apart name v (u ∷ vs) i ((other, _), hs) p = elim (Bool-cases (str_eq u.name name)) [
  | inl e ↦ let q = rw e at p in λ same. other cc
  | inr e ↦ id_of-apart name v vs i hs (rw e at p)
]

module _ {W : Type 0} where
  unfoldable pub has_name : String → History W → Bool
  has_name name [] = false
  has_name name (en ∷ h) =
      let rest = has_name name h in if str_eq en.variable.name name then true else rest

  -- The values of a variable; none if it is unknown.
  unfoldable pub values_of : String → History W → List (VarValue W)
  values_of name [] = []
  values_of name (en ∷ h) =
      let rest = values_of name h in if str_eq en.variable.name name then en.values else rest

  abbrev pub new_entry : Variable → Entry W
  new_entry var = record { variable = var; values = [] }

  -- A value behind the others of its variable.
  abbrev pub entry_with : String → VarValue W → Entry W → Entry W
  entry_with name v en =
      if str_eq en.variable.name name then record en { values = en.values ++ v ∷ [] } else en

  abbrev pub history_with : String → VarValue W → History W → History W
  history_with name v h = map (entry_with name v) h

  abbrev pub IsValid : List VariableRow → List (ValueRow W) → ℕ → Type 0
  IsValid vs ws next_id =
      IsDistinct vs × All (λ v. v.id < next_id) vs × All (λ w. w.variable_id < next_id) ws

  abbrev pub entry_of : List (ValueRow W) → VariableRow → Entry W
  entry_of ws v = record {
    variable = record { name = v.name; color = v.color };
    values = map seen (of_variable v.id always ws);
  }

  unfoldable pub view : List VariableRow → List (ValueRow W) → History W
  view vs ws = map (entry_of ws) vs

  -- Looking for a name in the table and in the history.
  pub has_name-view :
      (name : String) (vs : List VariableRow) (ws : List (ValueRow W))
      → (id_of name vs ≡ none → has_name name (view vs ws) ≡ false)
        × ((i : ℕ) → id_of name vs ≡ some i → has_name name (view vs ws) ≡ true)
  unfolding has_name view id_of
  has_name-view name [] ws = (λ e. refl, λ i e. cc)
  has_name-view name (v ∷ vs) ws = elim (Bool-cases (str_eq v.name name)) [
    | inl e ↦ rw e (λ p. cc, λ i p. refl)
    | inr e ↦ rw e (has_name-view name vs ws)
  ]

  pub values_of-view :
      (name : String) (vs : List VariableRow) (ws : List (ValueRow W))
      → (id_of name vs ≡ none → values_of name (view vs ws) ≡ [])
        × ((i : ℕ)
            → id_of name vs ≡ some i
            → values_of name (view vs ws) ≡ map seen (of_variable i always ws))
  unfolding values_of view id_of
  values_of-view name [] ws = (λ e. refl, λ i e. cc)
  values_of-view name (v ∷ vs) ws = elim (Bool-cases (str_eq v.name name)) [
    | inl e ↦ rw e (λ p. cc, λ i p. ap (λ j. map seen (of_variable j always ws)) cc)
    | inr e ↦ rw e (values_of-view name vs ws)
  ]

  of_variable-fresh :
      (i : ℕ) (ws : List (ValueRow W))
      → All (λ w. w.variable_id < i) ws
      → of_variable i always ws ≡ []
  unfolding of_variable
  of_variable-fresh i [] h = refl
  of_variable-fresh i (w ∷ ws) (h, hs) =
      let other : (w.variable_id == i) ≡ false = ground arith in
      rw other (of_variable-fresh i ws hs)

  pub view-last :
      (v : VariableRow) (vs : List VariableRow) (ws : List (ValueRow W))
      → All (λ w. w.variable_id < v.id) ws
      → view (vs ++ v ∷ []) ws
        ≡ view vs ws ++ new_entry (record { name = v.name; color = v.color }) ∷ []
  unfolding view
  view-last v vs ws h =
      map-append (entry_of ws) vs (v ∷ [])
      ∙ ap
          (λ rows.
            map (entry_of ws) vs
            ++ record {
              variable = record { name = v.name; color = v.color };
              values = map seen rows;
            }
              ∷ [])
          (of_variable-fresh v.id ws h)

  module _ (name : String) (w : ValueRow W) (ws : List (ValueRow W)) where
    abbrev more : List (ValueRow W)
    more = ws ++ w ∷ []

    abbrev added_to : ℕ → List (ValueRow W)
    added_to i = of_variable i always (w ∷ [])

    -- A row is seen behind the others of its variable, and nowhere else.
    added-same : (i : ℕ) → w.variable_id ≡ i → map seen (added_to i) ≡ seen w ∷ []
    unfolding of_variable
    added-same i same = let test : (w.variable_id == i) ≡ true = ground arith in rw test refl

    added-other : (i : ℕ) → w.variable_id ≢ i → map seen (added_to i) ≡ []
    unfolding of_variable
    added-other i other = let test : (w.variable_id == i) ≡ false = ground arith in rw test refl

    seen-more :
        (i : ℕ)
        → map seen (of_variable i always more)
          ≡ map seen (of_variable i always ws) ++ map seen (added_to i)
    seen-more i =
        ap (map seen) (of_variable-append i ws (w ∷ []))
        ∙ map-append seen (of_variable i always ws) (added_to i)

    abbrev entry : VariableRow → List (VarValue W) → Entry W
    entry v vals = record { variable = record { name = v.name; color = v.color }; values = vals }

    entry_same :
        (v : VariableRow)
        → w.variable_id ≡ v.id
        → str_eq v.name name ≡ true
        → entry_of more v ≡ entry_with name (seen w) (entry_of ws v)
    entry_same v same e = rw e (
        ap (entry v) (
          seen-more v.id
          ∙ ap (◌++◌ (map seen (of_variable v.id always ws))) (added-same v.id same)))

    entry_other :
        (v : VariableRow)
        → w.variable_id ≢ v.id
        → str_eq v.name name ≡ false
        → entry_of more v ≡ entry_with name (seen w) (entry_of ws v)
    entry_other v other e = rw e (
        ap (entry v) (
          seen-more v.id
          ∙ ap (◌++◌ (map seen (of_variable v.id always ws))) (added-other v.id other)
          ∙ append-nil (map seen (of_variable v.id always ws))))

    view_other :
        (vs : List VariableRow)
        → All (λ v. (w.variable_id ≢ v.id) × (str_eq v.name name ≡ false)) vs
        → view vs more ≡ history_with name (seen w) (view vs ws)
    unfolding view
    view_other [] h = refl
    view_other (v ∷ vs) ((other, e), hs) = ap₂ ◌∷◌ (entry_other v other e) (view_other vs hs)

    -- In valid tables a new value is the last of its variable, and the other variables keep theirs.
    pub view-more :
        (vs : List VariableRow)
        → IsDistinct vs
        → id_of name vs ≡ some w.variable_id
        → view vs more ≡ history_with name (seen w) (view vs ws)
    unfolding view id_of
    view-more [] h p = cc
    view-more (v ∷ vs) (apart, distinct) p = elim (Bool-cases (str_eq v.name name)) [
      | inl e ↦
          let first : v.id ≡ w.variable_id = let q = rw e at p in cc in
          ap₂ ◌∷◌ (entry_same v (sym first) e)
            (view_other vs (apart_other name v w.variable_id (sym first) e vs apart))
      | inr e ↦
          let later : id_of name vs ≡ some w.variable_id = rw e at p in
          ap₂ ◌∷◌ (entry_other v (id_of-apart name v vs w.variable_id apart later) e)
            (view-more vs distinct later)
    ]
