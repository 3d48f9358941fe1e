-- ===== src/DataSource/Reading.antt =====
-- What the callbacks of Sqlite make of the rows that the engine gives.
use text.Mathlib.Text.{◌==◌ as str_eq}
use text.Mathlib.TextEquality.{eq_iff}
use daqs.Base.{
  inl, inr, Bool-cases, ℕ, ◌+◌, ◌^◌, ◌<◌, ◌≡◌, refl, sym, ap, ◌∙◌, some, List, [], ◌∷◌, map, arith,
  length, String,
}
use daqs.DataModel.{VarValue, Variable}
use daqs.DataModel.Floats.{Double}
use daqs.DataSource.Engine.{Engine, Reply, Row, goes_on}
use daqs.DataSource.Tables.{ValueRow, VariableRow, IsBounded, seen, seen_variable}
use daqs.DataSource.Sql.{IsSql, walk, done, value_cells, variable_cells, count_cells}
use daqs.DataSource.Sqlite.{
  cell_text, variable_callback, variable_row, value_callback, value_row, count_callback,
}

-- The calls of a callback for the items in order, with the index that counts from `index`.
unfoldable pub deliver : {X A : Type 0} → (X → ℕ → A → A) → ℕ → List X → A → A
deliver send_vale index [] a = a
deliver send_vale index (x ∷ xs) a = deliver send_vale (index + 1) xs (send_vale x index a)

-- The same where the index is always 0.
unfoldable pub deliver_0 : {X A : Type 0} → (X → ℕ → A → A) → List X → A → A
deliver_0 send_vale [] a = a
deliver_0 send_vale (x ∷ xs) a = deliver_0 send_vale xs (send_vale x 0 a)

cell_text-some : (t : String) → cell_text (some t) ≡ t
cell_text-some t = elim (Bool-cases (str_eq t "")) [
  | inl e ↦ rw e (sym ((eq_iff t "").0 e))
  | inr e ↦ rw e refl
]

walk_on :
    {A : Type 0} (callback : Row → A → Reply A) (r : Row) (rows : List Row) (a a' : A)
    → callback r a ≡ goes_on a'
    → walk callback (r ∷ rows) a ≡ walk callback rows a'
unfolding walk
walk_on callback r rows a a' e = rw (walk, e) refl

module _ {W S : Type 0} ⦃d : Double W⦄ (e : Engine W S) (sql : IsSql e) where
  open sql use {val_text, number_text, stod_text, stoull_text}

  value_callback-cells :
      {A : Type 0} (send_vale : VarValue W → ℕ → A → A) (w : ValueRow W) (index : ℕ) (a : A)
      → w.timestamp < 2 ^ 63
      → value_callback e send_vale (value_cells val_text number_text w) (index, a)
        ≡ goes_on (index + 1, send_vale (seen w) index a)
  unfolding value_callback value_row
  value_callback-cells send_vale w index a h =
      rw (stod_text w.val, stoull_text w.timestamp (omega arith)) refl

  pub walk-values :
      {A : Type 0} (send_vale : VarValue W → ℕ → A → A) (ws : List (ValueRow W)) (index : ℕ) (a : A)
      → IsBounded ws
      → walk (value_callback e send_vale) (map (value_cells val_text number_text) ws) (index, a)
        ≡ done (index + length ws, deliver send_vale index (map seen ws) a)
  unfolding walk deliver
  walk-values send_vale [] index a h = ap (λ n. done (n, a)) (omega arith)
  walk-values send_vale (w ∷ ws) index a (h, hs) =
      walk_on (value_callback e send_vale) _ _ (index, a) _
        (value_callback-cells send_vale w index a h)
      ∙ (walk-values send_vale ws (index + 1) (send_vale (seen w) index a) hs
          ∙ ap
              (λ n.
                done (n, deliver send_vale (index + 1) (map seen ws) (send_vale (seen w) index a)))
              (omega arith))

  pub walk-variables :
      {A : Type 0} (send_vale : Variable → ℕ → A → A) (vs : List VariableRow) (a : A)
      → walk (variable_callback e send_vale) (map variable_cells vs) a
        ≡ done (deliver_0 send_vale (map seen_variable vs) a)
  unfolding walk deliver_0 variable_callback variable_row
  walk-variables send_vale [] a = refl
  walk-variables send_vale (v ∷ vs) a =
      rw (cell_text-some v.name, cell_text-some v.color)
        (walk-variables send_vale vs (send_vale (seen_variable v) 0 a))

  pub walk-count :
      {A : Type 0} (send_count : ℕ → A → A) (ws : List (ValueRow W)) (a : A)
      → length ws < 2 ^ 64
      → walk (count_callback e send_count) (count_cells number_text ws) a
        ≡ done (send_count (length ws) a)
  unfolding walk count_callback
  walk-count send_count ws a h = rw (stoull_text (length ws) h) refl
