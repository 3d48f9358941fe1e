-- ===== src/Server/Dates.antt =====
-- The runs of the server that are undefined. In a request for values between two dates
-- (src/database-server/session.cc) a number of milliseconds becomes a `time_point` by a product in
-- `int64_t`.
use daqs.Base.{
  ℕ, ◌≤◌, ◌<◌, ◌≡◌, refl, sym, ap, ◌∙◌, ◌↔◌, ◌⊎◌, inl, inr, true, false, Option, none, some, List,
  [], ◌∷◌, length, All, Bool-cases, Option-cases,
}
use daqs.Base.Int.{ℤ, scale, fits_int64}
use daqs.DataModel.{VarValue}
use daqs.DataModel.Floats.{Double, IsIeee}
use daqs.DataSource.Engine.{Engine}
use daqs.DataSource.Sql.{IsSql}
use daqs.DataSource.History.{History}
use daqs.DataAccess.Interface.{AccessErr, IDataAccess}
use daqs.DataAccess.Represents.{Represents, HasClock, source_access}
use daqs.Protocol.{MessageType, GetValues, Codec}
use daqs.Session.{
  Phase, on_body, read_get_values_request, get_values, reply_values, max_values_ammount,
}
use daqs.Exchange.{HasDates}
use daqs.Exchange.Asked.{asked_values, asked_by}
use daqs.Exchange.Story.{HasRoom}
use daqs.Server.System.{System, Action, react_all}
use daqs.Server.Serial.{Body, AllSound, requests, serial, serial-some, worlds, react_all-serial}
use daqs.Server.Linear.{AllDates, linearized}

module _ {W S : Type 0} (c : Codec W) (da : IDataAccess W S) (ticks : ℕ) where
  get_values-far :
      (gv : GetValues) (from to : ℤ) (s : S)
      → gv.start ≡ some from
      → gv.end ≡ some to
      → (fits_int64 (scale from ticks) ≡ false) ⊎ (fits_int64 (scale to ticks) ≡ false)
      → get_values c da ticks gv s ≡ none
  unfolding get_values
  get_values-far gv from to s start end (inl far) = rw (get_values, start, end, far) refl
  get_values-far gv from to s start end (inr far) =
      elim (Bool-cases (fits_int64 (scale from ticks))) [
        | inl fits ↦ rw (get_values, start, end, fits, far) refl
        | inr far' ↦ rw (get_values, start, end, far') refl
      ]

  get_values-HasDates :
      (gv : GetValues) (from to : ℤ) (s : S) (r : List (VarValue W) × AccessErr × S)
      → gv.start ≡ some from
      → gv.end ≡ some to
      → get_values c da ticks gv s ≡ some r
      → (fits_int64 (scale from ticks) ≡ true) × (fits_int64 (scale to ticks) ≡ true)
  get_values-HasDates gv from to s r start end e =
      elim (Bool-cases (fits_int64 (scale from ticks))) [
        | inl fits ↦ elim (Bool-cases (fits_int64 (scale to ticks))) [
          | inl fits' ↦ (fits, fits')
          | inr far ↦
              let none_is : none ≡ some r =
                sym (get_values-far gv from to s start end (inr far)) ∙ e in
              cc
        ]
        | inr far ↦
            let none_is : none ≡ some r =
              sym (get_values-far gv from to s start end (inl far)) ∙ e in
            cc
      ]

  asked-HasDates :
      (gv : GetValues) (start end : Option ℤ) (s : S) (r : List (VarValue W) × AccessErr × S)
      → gv.start ≡ start
      → gv.end ≡ end
      → get_values c da ticks gv s ≡ some r
      → HasDates (asked_values {W = W} ticks gv.variable start end)
  asked-HasDates gv none end s r from to e = tt
  asked-HasDates gv (some lo) none s r from to e = tt
  asked-HasDates gv (some lo) (some hi) s r from to e = get_values-HasDates gv lo hi s r from to e

  -- A body that was served asked for dates that fit.
  on_body-HasDates :
      (t : MessageType) (body : List ℕ) (s : S) (o : Phase × S)
      → on_body c da ticks t true body s ≡ some o
      → HasDates (asked_by c ticks (t, body))
  unfolding on_body read_get_values_request asked_by
  on_body-HasDates MessageType.request_get_values body s o e =
      let gv = c.get_values.parse body in
      elim (Option-cases (get_values c da ticks gv s)) [
        | inl u ↦ let none_is : none ≡ some o = sym (ap (reply_values c da ticks) u) ∙ e in cc
        | inr (r, u) ↦ asked-HasDates gv gv.start gv.end s r refl refl u
      ]
  on_body-HasDates MessageType.request_add_var body s o e = tt
  on_body-HasDates MessageType.request_save_value body s o e = tt
  on_body-HasDates MessageType.request_get_variables body s o e = tt
  on_body-HasDates MessageType.response_failure body s o e = tt
  on_body-HasDates MessageType.response_values body s o e = tt
  on_body-HasDates MessageType.response_variables body s o e = tt

  serial-HasDates :
      (bs : List Body) (s s' : S)
      → serial c da ticks bs s ≡ some s'
      → All (λ b. HasDates (asked_by c ticks b)) bs
  serial-HasDates [] s s' e = tt
  serial-HasDates ((t, body) ∷ bs) s s' e =
      let (p, s1, one, more) = serial-some c da ticks t body bs s s' e in
      (on_body-HasDates t body s (p, s1) one, serial-HasDates bs s1 s' more)

module _ {W S : Type 0} ⦃d : Double W⦄ (e : Engine W S) (sql : IsSql e) (max_size : ℕ)
    (c : Codec W) where
  abbrev da : IDataAccess W S
  da = source_access e sql max_size

  -- A run of the server over an SQLite database that represents a history, with sessions that read
  -- bodies of requests only, is undefined exactly if one of the bodies that it completes asks for the
  -- values between two dates of which one, in ticks of the clock, does not fit 64 bits with a sign. No
  -- other bytes, no failure and no order of the sessions makes it so. A millisecond has a tick at
  -- least, time is not before the epoch and fits, `reserve` takes 120, and no variable comes to 14400
  -- values, counting the requests as well.
  pub react_all_undefined :
      IsIeee W
      → 0 < e.ticks
      → max_values_ammount ≤ max_size
      → HasClock e sql max_size
      → (acts : List Action) (y : System S) (h : History W) → AllSound y.sessions
      → Represents e sql max_size y.world h
      → HasRoom (length (requests c da e.ticks acts y)) h
      → (react_all c da e.ticks acts y ≡ none)
        ↔ (¬ AllDates e sql max_size c (requests c da e.ticks acts y))
  react_all_undefined ieee pos room clock acts y h sound rep few = (
    λ u dates.
        let (y', _, _, done, _, _, _) =
          linearized e sql max_size c ieee room pos clock acts y h sound rep dates few in
        let none_is : none ≡ some y' = sym u ∙ done in cc,
    λ far. elim (Option-cases (react_all c da e.ticks acts y)) [
      | inl u ↦ u
      | inr (y', u) ↦ absurd (
          far (
            serial-HasDates c da e.ticks (requests c da e.ticks acts y) y.world y'.world
              (sym (react_all-serial c da e.ticks acts y sound).0 ∙ ap (worlds c da e.ticks) u)))
    ],
  )
