-- ===== src/DataSource/Grows.antt =====
-- A history that goes on: nothing that it holds is lost or changed.
use text.Mathlib.Text.{◌==◌ as str_eq}
use daqs.Base.{
  ◌≡◌, refl, ap, ◌∙◌, Bool-cases, inl, inr, String, List, [], ◌∷◌, ◌++◌, append-nil, append_assoc,
  sym,
}
use daqs.DataModel.{VarValue}
use daqs.DataSource.History.{Entry, History, entry_with, history_with}

module _ {W : Type 0} where
  -- The entry of a variable has at most more values at its end.
  abbrev pub Goes : Entry W → Entry W → Type 0
  Goes en en' =
      (en'.variable ≡ en.variable) × ((new : List (VarValue W)) × (en'.values ≡ en.values ++ new))

  -- The entries stay in their places, and there are at most more at the end.
  abbrev pub Grows : History W → History W → Type 0
  Grows [] h' = Unit
  Grows (en ∷ h) [] = ⊥
  Grows (en ∷ h) (en' ∷ h') = Goes en en' × Grows h h'

  Goes-refl : (en : Entry W) → Goes en en
  Goes-refl en = (refl, ([], sym (append-nil en.values)))

  Goes-trans : (en en' en'' : Entry W) → Goes en en' → Goes en' en'' → Goes en en''
  Goes-trans en en' en'' (p, (new, q)) (p', (new', q')) =
      (p' ∙ p, (new ++ new', q' ∙ (ap (λ vs. vs ++ new') q ∙ append_assoc en.values new new')))

  pub Grows-refl : (h : History W) → Grows h h
  Grows-refl [] = tt
  Grows-refl (en ∷ h) = (Goes-refl en, Grows-refl h)

  pub Grows-trans : (h h' h'' : History W) → Grows h h' → Grows h' h'' → Grows h h''
  Grows-trans [] h' h'' g g' = tt
  Grows-trans (en ∷ h) [] h'' g g' = absurd g
  Grows-trans (en ∷ h) (en' ∷ h') [] g g' = absurd g'
  Grows-trans (en ∷ h) (en' ∷ h') (en'' ∷ h'') (g, gs) (g', gs') =
      (Goes-trans en en' en'' g g', Grows-trans h h' h'' gs gs')

  pub Grows-append : (h more : History W) → Grows h (h ++ more)
  Grows-append [] more = tt
  Grows-append (en ∷ h) more = (Goes-refl en, Grows-append h more)

  entry_with-Goes : (name : String) (v : VarValue W) (en : Entry W) → Goes en (entry_with name v en)
  entry_with-Goes name v en = elim (Bool-cases (str_eq en.variable.name name)) [
    | inl e ↦ rw e (refl, (v ∷ [], refl))
    | inr e ↦ rw e (Goes-refl en)
  ]

  pub history_with-Grows :
      (name : String) (v : VarValue W) (h : History W) → Grows h (history_with name v h)
  history_with-Grows name v [] = tt
  history_with-Grows name v (en ∷ h) = (entry_with-Goes name v en, history_with-Grows name v h)
