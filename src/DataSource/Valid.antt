-- ===== src/DataSource/Valid.antt =====
-- What the statements that insert do to tables that are there; they keep them valid.
use text.Mathlib.Text.{◌==◌ as str_eq}
use text.Mathlib.TextEquality.{eq_iff}
use daqs.Base.{
  ℕ, ◌+◌, ◌<◌, ◌≤◌, ◌≡◌, refl, sym, String, none, some, List, [], ◌∷◌, ◌++◌, All, All-append, inl,
  inr, Bool-cases, arith,
}
use daqs.DataSource.Tables.{Tables, VariableRow, ValueRow, id_of, insert_value, insert_variable}
use daqs.DataSource.History.{IsApart, IsDistinct, IsValid}

All-lt :
    {A : Type 0} (f : A → ℕ) (n m : ℕ) (xs : List A)
    → n ≤ m
    → All (λ x. f x < n) xs
    → All (λ x. f x < m) xs
All-lt f n m [] h p = tt
All-lt f n m (x ∷ xs) h (p, ps) = (omega arith, All-lt f n m xs h ps)

-- A row with an id above all others and a name that is free.
All-IsApart_last :
    (v : VariableRow) (vs : List VariableRow)
    → All (λ u. u.id < v.id) vs
    → id_of v.name vs ≡ none
    → All (λ u. IsApart u v) vs
unfolding id_of
All-IsApart_last v [] h p = tt
All-IsApart_last v (u ∷ vs) (lt, hs) p = elim (Bool-cases (str_eq u.name v.name)) [
  | inl e ↦ let q = rw e at p in cc
  | inr e ↦ (
    (λ same. omega arith, λ same. let q = (eq_iff u.name v.name).1 (sym same) in cc),
    All-IsApart_last v vs hs (rw e at p),
  )
]

IsDistinct-last :
    (v : VariableRow) (vs : List VariableRow)
    → IsDistinct vs
    → All (λ u. IsApart u v) vs
    → IsDistinct (vs ++ v ∷ [])
IsDistinct-last v [] h a = (tt, tt)
IsDistinct-last v (u ∷ vs) (apart, distinct) (a, as') =
    (All-append (IsApart u) vs (v ∷ []) apart (a, tt), IsDistinct-last v vs distinct as')

id_of-lt :
    (name : String) (vs : List VariableRow) (i n : ℕ)
    → All (λ v. v.id < n) vs
    → id_of name vs ≡ some i
    → i < n
unfolding id_of
id_of-lt name [] i n h p = cc
id_of-lt name (v ∷ vs) i n (lt, hs) p = elim (Bool-cases (str_eq v.name name)) [
  | inl e ↦ let q = rw e at p in let same : v.id ≡ i = cc in omega arith
  | inr e ↦ id_of-lt name vs i n hs (rw e at p)
]

module _ {W : Type 0} where
  pub IsValid-variable :
      (name color : String) (n : ℕ) (vs : List VariableRow) (ws : List (ValueRow W))
      → IsValid vs ws n
      → id_of name vs ≡ none
      → IsValid (vs ++ record { id = n; name = name; color = color } ∷ []) ws (n + 1)
  IsValid-variable name color n vs ws (distinct, ids, owners) free =
      let v : VariableRow = record { id = n; name = name; color = color } in
      (
        IsDistinct-last v vs distinct (All-IsApart_last v vs ids free),
        All-append (λ u. u.id < n + 1) vs (v ∷ [])
            (All-lt (λ u. u.id) n (n + 1) vs (omega arith) ids) (omega arith, tt),
        All-lt (λ w. w.variable_id) n (n + 1) ws (omega arith) owners,
      )

  pub IsValid-value :
      (name : String) (w : ValueRow W) (n : ℕ) (vs : List VariableRow) (ws : List (ValueRow W))
      → IsValid vs ws n
      → id_of name vs ≡ some w.variable_id
      → IsValid vs (ws ++ w ∷ []) n
  IsValid-value name w n vs ws (distinct, ids, owners) known = (
    distinct,
    ids,
    All-append (λ u. u.variable_id < n) ws (w ∷ []) owners
        (id_of-lt name vs w.variable_id n ids known, tt),
  )

  abbrev pub filled : List VariableRow → List (ValueRow W) → ℕ → Tables W
  filled vs ws next = record { variables = some vs; values = some ws; next_id = next }

  pub insert_value-filled :
      (name : String) (i n next : ℕ) (x : W) (vs : List VariableRow) (ws : List (ValueRow W))
      → id_of name vs ≡ some i
      → insert_value x n name (filled vs ws next)
        ≡ some (filled vs (ws ++ record { val = x; timestamp = n; variable_id = i } ∷ []) next)
  insert_value-filled name i n next x vs ws known = rw (insert_value, known) refl

  pub insert_value-unknown :
      (name : String) (n next : ℕ) (x : W) (vs : List VariableRow) (ws : List (ValueRow W))
      → id_of name vs ≡ none
      → insert_value x n name (filled vs ws next) ≡ none
  insert_value-unknown name n next x vs ws free = rw (insert_value, free) refl

  pub insert_variable-filled :
      (name color : String) (next : ℕ) (vs : List VariableRow) (ws : List (ValueRow W))
      → id_of name vs ≡ none
      → insert_variable name color (filled vs ws next)
        ≡ some (filled (vs ++ record { id = next; name = name; color = color } ∷ []) ws (next + 1))
  insert_variable-filled name color next vs ws free = rw (insert_variable, free) refl

  pub insert_variable-taken :
      (name color : String) (i next : ℕ) (vs : List VariableRow) (ws : List (ValueRow W))
      → id_of name vs ≡ some i
      → insert_variable name color (filled vs ws next) ≡ none
  insert_variable-taken name color i next vs ws taken = rw (insert_variable, taken) refl
