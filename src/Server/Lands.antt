-- ===== src/Server/Lands.antt =====
-- What holds of the world behind a call of the data access holds behind the handler that makes it.
use mathlib.Core.Path.{subst}
use daqs.Base.{
  ℕ, ◌≡◌, inl, inr, not, ◌&&◌, ltb, ◌==◌, length, String, Option, none, some, List, [], Bool-cases,
  Option-cases,
}
use daqs.DataModel.{Variable, VarValue}
use daqs.DataModel.Floats.{Double}
use daqs.DataSource.{TimePoint}
use daqs.DataSource.Tables.{between}
use daqs.DataSource.Stored.{outcome}
use daqs.DataSource.History.{History}
use daqs.DataSource.Grows.{Grows, Grows-refl, Grows-append, history_with-Grows}
use daqs.DataAccess.{compressed, limit_values, after_fetch}
use daqs.DataAccess.Interface.{AccessErr, IDataAccess}
use daqs.DataAccess.Calls.{Call, Result, as_status, Allowed}
use daqs.Protocol.{Codec, GetValues}
use daqs.Session.{
  reply_added, reply_saved, reply_values, reply_variables, get_values, time_point,
  max_values_ammount,
}

-- A result that, if there is one, comes with a world of this kind.
abbrev pub Lands : {A S : Type 0} → (S → Type 0) → Option (A × S) → Type 0
Lands P none = Unit
Lands P (some (a, s)) = P s

abbrev pub Fetched : {A B S : Type 0} → (S → Type 0) → Option (A × B × S) → Type 0
Fetched P none = Unit
Fetched P (some (a, b, s)) = P s

module _ {W S : Type 0} ⦃d : Double W⦄ (P : S → Type 0) where
  compressed-Fetched :
      (o : Option (AccessErr × List (VarValue W))) (s : S) → P s → Fetched P (compressed o s)
  compressed-Fetched none s h = tt
  compressed-Fetched (some (AccessErr.ok, _)) s h = h
  compressed-Fetched (some (AccessErr.failed, _)) s h = h
  compressed-Fetched (some (AccessErr.invalid_argument, _)) s h = h

  limit-Fetched :
      (max_size max_len : ℕ) (vs : List (VarValue W)) (s : S)
      → P s
      → Fetched P (limit_values max_size max_len vs s)
  unfolding limit_values
  limit-Fetched max_size max_len vs s h =
      elim (Bool-cases (not (max_len == 0) && ltb max_len (length vs))) [
        | inl e ↦ rw e (compressed-Fetched _ s h)
        | inr e ↦ rw e h
      ]

  pub after_fetch-Fetched :
      {X : Type 0} (max_size max_len : ℕ) (o : Option X) (f : X → List (VarValue W)) (s : S)
      → P s
      → Fetched P (after_fetch max_size max_len (outcome o f [] s))
  after_fetch-Fetched max_size max_len none f s h = h
  after_fetch-Fetched max_size max_len (some x) f s h = limit-Fetched max_size max_len (f x) s h

  module _ (da : IDataAccess W S) where
    pub status-Lands :
        (o : Option (AccessErr × S)) (r : Result W) (s' : S)
        → as_status da o ≡ some (r, s')
        → P s'
        → Lands P o
    status-Lands none r s' e h = tt
    status-Lands (some (err, s)) r s' e h = let same : s' ≡ s = cc in subst P same h

    module _ (c : Codec W) (ticks : ℕ) where
      pub added-Lands :
          (o : Option (AccessErr × S)) → Lands P o → Lands P (reply_added c da ticks o)
      added-Lands none h = tt
      added-Lands (some (AccessErr.ok, s)) h = h
      added-Lands (some (AccessErr.failed, s)) h = h
      added-Lands (some (AccessErr.invalid_argument, s)) h = h

      pub saved-Lands :
          (o : Option (AccessErr × S)) → Lands P o → Lands P (reply_saved c da ticks o)
      saved-Lands none h = tt
      saved-Lands (some (AccessErr.ok, s)) h = h
      saved-Lands (some (AccessErr.failed, s)) h = h
      saved-Lands (some (AccessErr.invalid_argument, s)) h = h

      pub values-Lands :
          (o : Option (List (VarValue W) × AccessErr × S))
          → Fetched P o
          → Lands P (reply_values c da ticks o)
      values-Lands none h = tt
      values-Lands (some (vs, AccessErr.ok, s)) h = h
      values-Lands (some (vs, AccessErr.failed, s)) h = h
      values-Lands (some (vs, AccessErr.invalid_argument, s)) h = h

      pub variables-Lands :
          (o : Option (List Variable × AccessErr × S))
          → Fetched P o
          → Lands P (reply_variables c da ticks o)
      variables-Lands none h = tt
      variables-Lands (some (vs, AccessErr.ok, s)) h = h
      variables-Lands (some (vs, AccessErr.failed, s)) h = h
      variables-Lands (some (vs, AccessErr.invalid_argument, s)) h = h

      pub get_values-Fetched :
          (gv : GetValues) (s : S)
          → ((name : String) (max_len : ℕ) → Fetched P (da.fetch_variable_values name max_len s))
          → ((name : String) (start end : TimePoint) (max_len : ℕ)
              → Fetched P (da.fetch_variable_values_between name start end max_len s))
          → Fetched P (get_values c da ticks gv s)
      unfolding get_values
      get_values-Fetched gv s all between = elim (Option-cases gv.start) [
        | inl e ↦ rw e (all gv.variable max_values_ammount)
        | inr (from, e) ↦ elim (Option-cases gv.end) [
          | inl e' ↦ rw (e, e') (all gv.variable max_values_ammount)
          | inr (to, e') ↦ elim (Option-cases (time_point c da ticks from)) [
            | inl u ↦ rw (e, e', u) tt
            | inr (start, u) ↦ elim (Option-cases (time_point c da ticks to)) [
              | inl u' ↦ rw (e, e', u, u') tt
              | inr (end, u') ↦ rw (e, e', u, u') (between gv.variable start end max_values_ammount)
            ]
          ]
        ]
      ]

module _ {W : Type 0} {rounded : W → Option W} where
  pub Allowed-Grows :
      (h h' : History W) (call : Call W) (r : Result W) → Allowed rounded h call r h' → Grows h h'
  Allowed-Grows _ _ _ _ (Allowed.added h var free) = Grows-append h _
  Allowed-Grows _ _ _ _ (Allowed.refused h var taken) = Grows-refl h
  Allowed-Grows _ _ _ _ (Allowed.saved h v n x known number) = history_with-Grows _ _ h
  Allowed-Grows _ _ _ _ (Allowed.unknown h v free) = Grows-refl h
  Allowed-Grows _ _ _ _ (Allowed.no_number h v bad) = Grows-refl h
  Allowed-Grows _ _ _ _ (Allowed.listed h) = Grows-refl h
  Allowed-Grows _ _ _ _ (Allowed.fetched h name) = Grows-refl h
