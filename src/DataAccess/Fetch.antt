-- ===== src/DataAccess/Fetch.antt =====
-- What `DataAccess::fetch_variable_values` returns when the source delivers the values `vs`.
use mathlib.Core.List.{flatten}
use native.Mathlib.Decide.{dec_le}
use daqs.Base.{
  ℕ, ◌*◌, ◌/◌, ◌%◌, ◌^◌, ◌≤◌, ◌<◌, ◌≡◌, refl, ◌⊎◌, inl, inr, ◌↔◌, String, Option, none, some, List,
  [], map, arith, length, All,
}
use daqs.DataModel.{VarValue}
use daqs.DataModel.Floats.{Double, IsIeee}
use daqs.DataSource.{DataSource, SourceErr, TimePoint}
use daqs.DataAccess.Interface.{AccessErr}
use daqs.DataAccess.{
  limit_values, compressed, fetch_variable_values, fetch_variable_values_between, push_back,
}
use daqs.DataAccess.Compress.{compress}
use daqs.DataAccess.Compress.Chunks.{IsNear}
use daqs.DataAccess.Compress.Rounds.{summary}
use daqs.DataAccess.Compress.Correct.{compress_partition, compress_undefined}

module _ {W : Type 0} ⦃d : Double W⦄ where
  -- `r` shows `vs` in at most `max_len` values: as they are, or one for each of `max_len` runs.
  abbrev pub Shows : ℕ → List (VarValue W) → List (VarValue W) → Type 0
  Shows max_len vs r =
      ((length vs ≤ max_len) × (r ≡ vs))
      ⊎ ((max_len < length vs)
          × ((runs : List (List (VarValue W))) × (r ≡ map summary runs)
              × (length runs ≡ max_len)
              × (flatten runs ≡ vs)
              × All (IsNear (length vs / max_len)) runs))

  compressed-none :
      {S : Type 0} (o : Option (AccessErr × List (VarValue W))) (s : S)
      → compressed o s ≡ none
      → o ≡ none
  compressed-none none s e = refl
  compressed-none (some (AccessErr.ok, _)) s e = cc
  compressed-none (some (AccessErr.failed, _)) s e = cc
  compressed-none (some (AccessErr.invalid_argument, _)) s e = cc

  none_iff :
      {S : Type 0} (o : Option (AccessErr × List (VarValue W))) (s : S) {P : Type 0}
      → (o ≡ none) ↔ P
      → (compressed o s ≡ none) ↔ P
  none_iff o s h = (λ e. h.0 (compressed-none o s e), λ p. rw (h.1 p))

  limit_short :
      {S : Type 0} (max_size max_len : ℕ) (vs : List (VarValue W)) (s : S)
      → length vs ≤ max_len
      → limit_values max_size max_len vs s ≡ some (vs, AccessErr.ok, s)
  unfolding limit_values
  limit_short max_size max_len vs s h = ground arith

  limit_long :
      {S : Type 0} (max_size max_len : ℕ) (vs : List (VarValue W)) (s : S)
      → 0 < max_len
      → max_len < length vs
      → limit_values max_size max_len vs s ≡ compressed (compress max_size vs [] max_len) s
  unfolding limit_values
  limit_long max_size max_len vs s pos h = ground arith

  module _ (law : IsIeee W) {S : Type 0} (ds : DataSource W S) (max_size : ℕ) (name : String)
      (max_len : ℕ) (s s' : S) (vs : List (VarValue W)) (pos : 0 < max_len)
      (room : max_len ≤ max_size) (small : length vs < 2 ^ 53) where
    limit-Shows :
        (length vs % max_len ≡ 0 → length vs ≤ max_len * max_len)
        → (r : List (VarValue W)) × (limit_values max_size max_len vs s'
            ≡ some (r, AccessErr.ok, s'))
          × Shows max_len vs r
    limit-Shows fits = elim (dec_le (length vs) max_len) [
      | yes short ↦ (vs, limit_short max_size max_len vs s' short, inl (short, refl))
      | no long ↦
          let (runs, e, count, whole, near) =
            compress_partition law max_size vs [] max_len pos (omega arith) small room fits in
          (
            map summary runs,
            rw (limit_long max_size max_len vs s' pos (omega arith), e),
            inr (omega arith, (runs, refl, count, whole, near)),
          )
    ]

    limit_undefined :
        (limit_values max_size max_len vs s' ≡ none)
        ↔ ((length vs % max_len ≡ 0) × (max_len * max_len < length vs))
    limit_undefined = elim (dec_le (length vs) max_len) [
      | yes short ↦
          (λ e. cc (limit_short max_size max_len vs s' short), λ (even, big). absurd (grind arith))
      | no long ↦ rw (limit_long max_size max_len vs s' pos (omega arith)) (
          none_iff _ s'
            (compress_undefined law max_size vs [] max_len pos (omega arith) small room))
    ]

    -- If the source delivers fewer than 2^53 values, and `max_len` is positive and no more than
    -- `reserve` takes, the call returns Ok and a view of the values in at most `max_len`: the values
    -- themselves if they are no more than that, and else one summary for each of `max_len` balanced
    -- runs of them. Where `max_len` divides their number, the quotient must not exceed `max_len`.
    pub fetch-Shows :
        ds.fetch_variable_values (List (VarValue W)) name push_back [] s
          ≡ some (SourceErr.ok, vs, s')
        → (length vs % max_len ≡ 0 → length vs ≤ max_len * max_len)
        → (r : List (VarValue W)) × (fetch_variable_values ds max_size name max_len s
            ≡ some (r, AccessErr.ok, s'))
          × Shows max_len vs r
    unfolding fetch_variable_values
    fetch-Shows delivered fits =
        let (r, e, shown) = limit-Shows fits in (r, rw (delivered) e, shown)

    -- With a source that delivers fewer than 2^53 values, and a positive `max_len` that `reserve`
    -- takes, the call has no defined result exactly when `max_len` divides the number of values and
    -- the quotient exceeds `max_len`.
    pub fetch_undefined :
        ds.fetch_variable_values (List (VarValue W)) name push_back [] s
          ≡ some (SourceErr.ok, vs, s')
        → (fetch_variable_values ds max_size name max_len s ≡ none)
          ↔ ((length vs % max_len ≡ 0) × (max_len * max_len < length vs))
    unfolding fetch_variable_values
    fetch_undefined delivered = rw delivered limit_undefined

    -- If the source delivers fewer than 2^53 values for a range of dates, and `max_len` is positive
    -- and no more than `reserve` takes, the call returns Ok and a view of the values in at most
    -- `max_len`, provided that where `max_len` divides their number the quotient is not above it.
    pub fetch_between-Shows :
        (start end : TimePoint)
        → ds.fetch_variable_values_between (List (VarValue W)) name start end push_back [] s
          ≡ some (SourceErr.ok, vs, s')
        → (length vs % max_len ≡ 0 → length vs ≤ max_len * max_len)
        → (r : List (VarValue W)) × (fetch_variable_values_between ds max_size name start end
              max_len s
            ≡ some (r, AccessErr.ok, s'))
          × Shows max_len vs r
    unfolding fetch_variable_values_between
    fetch_between-Shows start end delivered fits =
        let (r, e, shown) = limit-Shows fits in (r, rw (delivered) e, shown)
