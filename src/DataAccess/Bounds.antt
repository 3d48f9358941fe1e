-- ===== src/DataAccess/Bounds.antt =====
-- How many values a fetch with a limit returns, and at which times.
use mathlib.Core.Path.{subst}
use mathlib.Core.List.{flatten, Sublistᴰ}
use daqs.Base.{
  ℕ, zero, suc, ◌*◌, ◌/◌, ◌%◌, ◌^◌, ◌≤◌, ◌<◌, ◌≡◌, refl, sym, ap, ◌∙◌, inl, inr, String, some, List,
  [], ◌∷◌, ◌++◌, map, arith, length, get_elem?, get_elem?-lt, All, map-append,
}
use daqs.DataModel.{VarValue}
use daqs.DataModel.Floats.{Double, IsIeee}
use daqs.DataSource.{DataSource, SourceErr}
use daqs.DataAccess.{fetch_variable_values, push_back}
use daqs.DataAccess.Interface.{AccessErr}
use daqs.DataAccess.Compress.Chunks.{IsNear}
use daqs.DataAccess.Compress.Rounds.{summary, middle_time}
use daqs.DataAccess.Fetch.{Shows, fetch-Shows}

div_pos : (n m : ℕ) → 0 < m → m < n → 0 < n / m
div_pos n m pos h = grind arith

module _ {A : Type 0} where
  Sublist-nil : (ys : List A) → Sublistᴰ [] ys
  Sublist-nil [] = Sublistᴰ.slnil
  Sublist-nil (y ∷ ys) = Sublistᴰ.cons (Sublist-nil ys)

  Sublist-refl : (xs : List A) → Sublistᴰ xs xs
  Sublist-refl [] = Sublistᴰ.slnil
  Sublist-refl (x ∷ xs) = Sublistᴰ.cons-cons refl (Sublist-refl xs)

  Sublist-append :
      {xs ys us vs : List A} → Sublistᴰ xs ys → Sublistᴰ us vs → Sublistᴰ (xs ++ us) (ys ++ vs)
  Sublist-append Sublistᴰ.slnil t = t
  Sublist-append (Sublistᴰ.cons s) t = Sublistᴰ.cons (Sublist-append s t)
  Sublist-append (Sublistᴰ.cons-cons e s) t = Sublistᴰ.cons-cons e (Sublist-append s t)

  length-map : {B : Type 0} (f : A → B) (xs : List A) → length (map f xs) ≡ length xs
  length-map f [] = refl
  length-map f (x ∷ xs) = ap suc (length-map f xs)

module _ {W : Type 0} ⦃d : Double W⦄ where
  abbrev pub times : List (VarValue W) → List ℕ
  times vs = map (λ v. v.timestamp) vs

  time_in :
      (vs : List (VarValue W)) (i : ℕ) (v : VarValue W)
      → get_elem? vs i ≡ some v
      → Sublistᴰ (v.timestamp ∷ []) (times vs)
  time_in [] i v e = cc
  time_in (u ∷ vs) zero v e =
      let same : v ≡ u = cc in
      Sublistᴰ.cons-cons (ap (λ x. x.timestamp) same) (Sublist-nil (times vs))
  time_in (u ∷ vs) (suc i) v e = Sublistᴰ.cons (time_in vs i v e)

  -- The time of a summary is one of its run.
  summary-Sublist :
      (run : List (VarValue W)) → 0 < length run → Sublistᴰ (times (summary run ∷ [])) (times run)
  unfolding summary
  summary-Sublist run some_values =
      let (v, here) = get_elem?-lt run (length run / 2) (omega arith) in
      let at : middle_time run ≡ v.timestamp = rw (middle_time, here) refl in
      subst (λ t. Sublistᴰ (t ∷ []) (times run)) (sym at) (time_in run (length run / 2) v here)

  summaries-Sublist :
      (q : ℕ) (runs : List (List (VarValue W)))
      → 0 < q
      → All (IsNear q) runs
      → Sublistᴰ (times (map summary runs)) (times (flatten runs))
  unfolding flatten
  summaries-Sublist q [] pos h = Sublistᴰ.slnil
  summaries-Sublist q (run ∷ runs) pos (near, h) =
      rw (map-append (λ v. v.timestamp) run (flatten runs)) (
        Sublist-append (summary-Sublist run (ground (arith, near)))
          (summaries-Sublist q runs pos h))

  Shows-times :
      (max_len : ℕ) (vs r : List (VarValue W))
      → 0 < max_len
      → Shows max_len vs r
      → (length r ≤ max_len) × (length r ≤ length vs) × Sublistᴰ (times r) (times vs)
  Shows-times max_len vs r pos (inl (short, same)) = (
    omega (arith, ap length same),
    omega (arith, ap length same),
    subst (λ xs. Sublistᴰ (times xs) (times vs)) (sym same) (Sublist-refl (times vs)),
  )
  Shows-times max_len vs r pos (inr (long, (runs, same, count, whole, near))) =
      let size = ap length same ∙ (length-map summary runs ∙ count) in
      (
        omega (arith, size),
        omega (arith, size),
        subst (λ xs. Sublistᴰ (times r) (times xs)) whole
            (subst (λ xs. Sublistᴰ (times xs) (times (flatten runs))) (sym same)
              (summaries-Sublist (length vs / max_len) runs (div_pos (length vs) max_len pos long)
                near)),
      )

  module _ (law : IsIeee W) {S : Type 0} (ds : DataSource W S) (max_size : ℕ) (name : String)
      (max_len : ℕ) (s s' : S) (vs : List (VarValue W)) where
    -- If the source delivers fewer than 2^53 values, and `max_len` is positive and no more than
    -- `reserve` takes, the call returns at most `max_len` values, at most as many as there are, and
    -- their times are times of these, in their order. Where `max_len` divides the number of values, the quotient must not
    -- exceed `max_len`.
    pub fetch_bounded :
        0 < max_len
        → max_len ≤ max_size
        → length vs < 2 ^ 53
        → ds.fetch_variable_values (List (VarValue W)) name push_back [] s
          ≡ some (SourceErr.ok, vs, s')
        → (length vs % max_len ≡ 0 → length vs ≤ max_len * max_len)
        → (r : List (VarValue W)) × (fetch_variable_values ds max_size name max_len s
            ≡ some (r, AccessErr.ok, s'))
          × (length r ≤ max_len)
          × (length r ≤ length vs)
          × Sublistᴰ (times r) (times vs)
    fetch_bounded pos room small delivered fits =
        let (r, e, shown) =
          fetch-Shows law ds max_size name max_len s s' vs pos room small delivered fits in
        let (few, fewer, ordered) = Shows-times max_len vs r pos shown in
        (r, e, few, fewer, ordered)
