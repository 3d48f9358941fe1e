-- ===== src/Exchange/Answered.antt =====
-- One request to the server over SQLite is answered as Story promises.
use mathlib.Core.Path.{subst}
use daqs.Base.{
  ℕ, ◌≤◌, ◌<◌, ◌≡◌, refl, sym, ap, ◌∙◌, arith, inl, inr, Bool, Bool-cases, String, Option, none,
  some, List, [], ◌∷◌, map, length, ◌==◌,
}
use daqs.Base.Int.{quot, quot-scale}
use daqs.DataModel.{Variable, VarValue}
use daqs.DataModel.Floats.{Double, IsIeee}
use daqs.DataSource.{TimePoint, SourceErr}
use daqs.DataSource.Engine.{Engine}
use daqs.DataSource.Tables.{
  ValueRow, IsInRange, seen, chosen, id_of, of_variable, always, between, select_values,
}
use daqs.DataSource.Sql.{IsSql}
use daqs.DataSource.Sqlite.{sqlite_source, milliseconds}
use daqs.DataSource.Reading.{deliver}
use daqs.DataSource.Stored.{outcome, fetch_variable_values-outcome, fetch_between-outcome}
use daqs.DataSource.History.{History, values_of}
use daqs.DataAccess.{push_back}
use daqs.DataAccess.Interface.{AccessErr, IDataAccess}
use daqs.DataAccess.Calls.{Result, add, save, perform, as_status, Allowed}
use daqs.DataAccess.Represents.{
  Represents, HasClock, source_access, same_tables, Refines-add, Refines-save,
}
use daqs.DataAccess.Refined.{chosen-view, variables-view}
use daqs.DataAccess.Added.{fetched}
use daqs.DataAccess.Saved.{deliver-push_back}
use daqs.DataAccess.Fetch.{Shows, fetch-Shows, fetch_between-Shows}
use daqs.Session.{max_values_ammount}
use daqs.Exchange.{
  Request, Answer, add_var, save_val, all_vars, all_values, values_between, meaning,
  in_milliseconds,
}
use daqs.Exchange.Story.{Said, HasRoom, within, length-within}

-- A selection by time, in the table and in what is seen of it.
seen-within :
    {W : Type 0} (i : ℕ) (test : ℕ → Bool) (ws : List (ValueRow W))
    → map seen (of_variable i test ws) ≡ within test (map seen (of_variable i always ws))
unfolding of_variable within
seen-within i test [] = refl
seen-within i test (w ∷ ws) = elim (Bool-cases (w.variable_id == i)) [
  | inl e ↦ elim (Bool-cases (test w.timestamp)) [
    | inl e' ↦ rw (e, e') (ap (λ vs. seen w ∷ vs) (seen-within i test ws))
    | inr e' ↦ rw (e, e') (seen-within i test ws)
  ]
  | inr e ↦ rw e (seen-within i test ws)
]

chosen-within :
    {W : Type 0} (o : Option ℕ) (test : ℕ → Bool) (ws : List (ValueRow W))
    → map seen (chosen o test ws) ≡ within test (map seen (chosen o always ws))
unfolding within
chosen-within none test ws = refl
chosen-within (some i) test ws = seen-within i test ws

module _ {W S : Type 0} (da : IDataAccess W S) where
  status-is :
      (o : Option (AccessErr × S)) (err : AccessErr) (s : S)
      → as_status da o ≡ some (Result.status err, s)
      → o ≡ some (err, s)
  status-is none err s e = cc
  status-is (some (err', s')) err s e = cc

  module _ ⦃d : Double W⦄ (rounded : W → Option W) (ticks : ℕ) (s : S) where
    -- A request's answer, and what it is on a history.
    abbrev pub Tells : History W → Request W → S → History W → Type 0
    Tells h r s' h' =
        (a : Answer W) × (meaning da ticks r s ≡ some (a, s')) × Said rounded ticks h r a h'

    added-Tells :
        {h h' : History W} (var : Variable) {r : Result W} (s' : S)
        → as_status da (da.add_variable var s) ≡ some (r, s')
        → Allowed rounded h (add var) r h'
        → Tells h (add_var var) s' h'
    unfolding meaning
    added-Tells var s' e (Allowed.added h _ free) =
        (_, rw (status-is _ _ s' e) refl, Said.added h var free)
    added-Tells var s' e (Allowed.refused h _ taken) =
        (_, rw (status-is _ _ s' e) refl, Said.not_added h var taken)

    saved-Tells :
        (name : String) (value : W) {h h' : History W} {r : Result W} (s' : S)
        → let v : VarValue W = record {
          variable = record { name = name; color = "color" };
          val = value;
          timestamp = 0;
        } in
          as_status da (da.add_variable_value v s) ≡ some (r, s')
          → Allowed rounded h (save v) r h'
          → Tells h (save_val name value) s' h'
    unfolding meaning
    saved-Tells name value s' e (Allowed.saved h _ n x known number) =
        (_, rw (status-is _ _ s' e) refl, Said.saved h name value n x known number)
    saved-Tells name value s' e (Allowed.no_number h _ bad) =
        (_, rw (status-is _ _ s' e) refl, Said.no_number h name value bad)
    saved-Tells name value s' e (Allowed.unknown h _ free) =
        (_, rw (status-is _ _ s' e) refl, Said.not_saved h name value free)

module _ {W S : Type 0} ⦃d : Double W⦄ (e : Engine W S) (sql : IsSql e) (max_size : ℕ)
    (ieee : IsIeee W) (room : max_values_ammount ≤ max_size) where
  open sql use {tables, rounded}

  abbrev da : IDataAccess W S
  da = source_access e sql max_size

  -- A request is answered as a history says, and the database represents the history that follows.
  abbrev pub Answered : History W → Request W → S → Type 0
  Answered h r s =
      (s' : S) × (h' : History W) × Tells da rounded e.ticks s h r s' h'
      × Represents e sql max_size s' h'

  -- What the source delivers of a selection.
  delivered :
      (h : History W) (name : String) (test : ℕ → Bool) (s s' : S)
      (rep : Represents e sql max_size s h)
      → outcome
          (select_values name test (tables s))
          (λ ws. deliver push_back 0 (map seen ws) [])
          []
          s'
        ≡ some (SourceErr.ok, map seen (chosen (id_of name rep.vs) test rep.ws), s')
  unfolding select_values
  delivered h name test s s' rep =
      let rows = chosen (id_of name rep.vs) test rep.ws in
      ap (λ o. outcome o (λ ws. deliver push_back 0 (map seen ws) []) [] s')
        (ap (select_values name test) rep.there)
      ∙ ap (λ xs. some (SourceErr.ok, xs, s')) (deliver-push_back (map seen rows) [] 0)

  of_history :
      (h : History W) (name : String) (s : S) (rep : Represents e sql max_size s h)
      → map seen (chosen (id_of name rep.vs) always rep.ws) ≡ values_of name h
  of_history h name s rep =
      chosen-view e sql max_size name rep.vs rep.ws ∙ sym (ap (values_of name) rep.seen_as)

  fits : (h : History W) (s : S) → Represents e sql max_size s h → IsInRange (tables s).values
  fits h s rep = subst (λ t. IsInRange t.values) (sym rep.there) rep.bounded

  all-Answered :
      (h : History W) (name : String) (s : S)
      → Represents e sql max_size s h
      → length (values_of name h) < 14400
      → Answered h (all_values name) s
  unfolding meaning
  all-Answered h name s rep few =
      let same = of_history h name s rep in
      let (s', run, kept) =
        fetch_variable_values-outcome e sql name push_back [] s (fits h s rep) in
      let size = ap length same in
      let (r, done, shown) =
        fetch-Shows ieee (sqlite_source e) max_size name max_values_ammount s s' _ (omega arith)
          room (omega (arith, size)) (run ∙ delivered h name always s s' rep)
          (λ even. omega (arith, size)) in
      (
        s',
        h,
        (
          Answer.values r,
          rw done refl,
          Said.shown h name r (subst (λ vs. Shows max_values_ammount vs r) same shown),
        ),
        same_tables e sql max_size s s' h kept rep,
      )

  between-Answered :
      (h : History W) (name : String) (start end : TimePoint) (s : S)
      → 0 < e.ticks
      → Represents e sql max_size s h
      → length (values_of name h) < 14400
      → Answered h (values_between name start end) s
  unfolding meaning
  between-Answered h name start end s ticks rep few =
      let from = in_milliseconds e.ticks start in
      let to = in_milliseconds e.ticks end in
      let test = between (quot start e.ticks) (quot end e.ticks) in
      let test_is : between (milliseconds e from) (milliseconds e to) ≡ test = λ j.
        between (quot-scale (quot start e.ticks) e.ticks ticks j)
          (quot-scale (quot end e.ticks) e.ticks ticks j) in
      let same : map seen (chosen (id_of name rep.vs) test rep.ws)
          ≡ within test (values_of name h) =
        chosen-within (id_of name rep.vs) test rep.ws
        ∙ ap (within test) (of_history h name s rep) in
      let (s', run, kept) =
        fetch_between-outcome e sql name from to push_back [] s (fits h s rep) in
      let size = ap length same in
      let less = length-within test (values_of name h) in
      let sent_all =
        subst
          (λ f.
            outcome
              (select_values name (between (milliseconds e from) (milliseconds e to)) (tables s))
              (λ ws. deliver push_back 0 (map seen ws) []) [] s'
            ≡ outcome (select_values name f (tables s)) (λ ws. deliver push_back 0 (map seen ws) [])
                [] s')
          test_is refl in
      let (r, done, shown) =
        fetch_between-Shows ieee (sqlite_source e) max_size name max_values_ammount s s' _
          (omega arith) room (omega (arith, size, less)) from to
          (run ∙ (sent_all ∙ delivered h name test s s' rep)) (λ even. omega (arith, size, less)) in
      (
        s',
        h,
        (
          Answer.values r,
          rw done refl,
          Said.shown_between h name start end r
              (subst (λ vs. Shows max_values_ammount vs r) same shown),
        ),
        same_tables e sql max_size s s' h kept rep,
      )

  list-Answered : (h : History W) (s : S) → Represents e sql max_size s h → Answered h all_vars s
  unfolding meaning
  list-Answered h s rep =
      let (s', run, kept) = fetched e sql rep.vs s (ap (λ t. t.variables) rep.there) in
      let all =
        sym (
          ap (map (λ en. en.variable)) rep.seen_as ∙ variables-view e sql max_size rep.vs rep.ws) in
      (
        s',
        h,
        (Answer.variables (map (λ en. en.variable) h), rw (run, all) refl, Said.listed h),
        same_tables e sql max_size s s' h kept rep,
      )

  pub request-Answered :
      (h : History W) (r : Request W) (s : S)
      → 0 < e.ticks
      → HasClock e sql max_size
      → Represents e sql max_size s h
      → HasRoom 1 h
      → Answered h r s
  unfolding perform
  request-Answered h (add_var var) s ticks clock rep few =
      let (r, s', h', done, allowed, rep') = Refines-add e sql max_size h var s rep in
      (s', h', added-Tells da rounded e.ticks s var s' done allowed, rep')
  request-Answered h (save_val name value) s ticks clock rep few =
      let (r, s', h', done, allowed, rep') = Refines-save e sql max_size h _ s clock rep in
      (s', h', saved-Tells da rounded e.ticks s name value s' done allowed, rep')
  request-Answered h all_vars s ticks clock rep few = list-Answered h s rep
  request-Answered h (all_values name) s ticks clock rep few =
      all-Answered h name s rep (omega (arith, few name))
  request-Answered h (values_between name start end) s ticks clock rep few =
      between-Answered h name start end s ticks rep (omega (arith, few name))
