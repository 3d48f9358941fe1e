-- ===== src/Hmi/Laws.antt =====
-- The setters of `VarModel` (src/hmi/model/varmodel.h).
use text.Mathlib.Text.{◌==◌ as str_eq}
use text.Mathlib.TextEquality.{eq_iff}
use daqs.Base.{◌≡◌, ◌≢◌, refl, sym, inl, inr, ◌⊎◌, true, false, Bool-cases, String, [], ◌∷◌}
use daqs.Hmi.{QColor, VarModel, name_changed, color_changed, set_name, set_color}

module _ {C : Type 0} where
  module _ (q : QColor C) where
    set_name_lem :
        (m : VarModel C) (name : String)
        → let (m', out) = set_name q name m in
          (m'.name ≡ name)
          × (m'.color ≡ m.color)
          × ((out ≡ []) ⊎ ((name ≢ m.name) × (out ≡ name_changed name ∷ [])))
          × (set_name q name m' ≡ (m', []))
    unfolding set_name
    set_name_lem m name = elim (Bool-cases (str_eq name m.name)) [
      | inl e ↦ rw (e, e) (sym ((eq_iff name m.name).0 e), refl, inl refl, refl)
      | inr e ↦
          rw (e, (eq_iff name name).1 refl)
            (refl, refl, inr (λ p. cc ((eq_iff name m.name).1 p), refl), refl)
    ]

    set_color_lem :
        ((c : C) → q.same c c ≡ true)
        → (m : VarModel C) (color : C)
        → let (m', out) = set_color q color m in
          (q.same color m'.color ≡ true)
          × (m'.name ≡ m.name)
          × ((out ≡ []) ⊎ ((q.same color m.color ≡ false) × (out ≡ color_changed color ∷ [])))
          × (set_color q color m' ≡ (m', []))
    unfolding set_color
    set_color_lem same_refl m color = elim (Bool-cases (q.same color m.color)) [
      | inl e ↦ rw (e, e) (refl, refl, inl refl, refl)
      | inr e ↦ rw (e, same_refl color) (refl, refl, inr (refl, refl), refl)
    ]

    -- If Qt takes each color for the same as itself: after a setter the model has the new name (the new
    -- color, or one that is the same to Qt), the other field is as before, and the setter called again
    -- changes nothing and emits nothing. It emits once if the value is another, and else not at all.
    pub setters_twice :
        ((c : C) → q.same c c ≡ true)
        → (m : VarModel C) (name : String) (color : C)
        → let (m', out) = set_name q name m in
          let (m'', out') = set_color q color m in
          ((m'.name ≡ name)
            × (m'.color ≡ m.color)
            × ((out ≡ []) ⊎ ((name ≢ m.name) × (out ≡ name_changed name ∷ [])))
            × (set_name q name m' ≡ (m', [])))
          × ((q.same color m''.color ≡ true)
              × (m''.name ≡ m.name)
              × ((out' ≡ []) ⊎ ((q.same color m.color ≡ false) × (out' ≡ color_changed color ∷ [])))
              × (set_color q color m'' ≡ (m'', [])))
    setters_twice same_refl m name color = (set_name_lem m name, set_color_lem same_refl m color)
