-- ===== src/Hmi/Shown.antt =====
-- From a click to what is shown: what the models ask for, the server on an SQLite database does, and
-- the answer changes the models.
use mathlib.Core.Path.{subst}
use daqs.Base.{
  ℕ, ◌%◌, ◌*◌, ◌≤◌, ◌<◌, ◌^◌, ◌≡◌, refl, sym, ap, ◌∙◌, arith, true, String, none, some, List, [],
  ◌∷◌, ◌++◌, map, length, map-append, append-nil, suc,
}
use daqs.Base.Int.{ℤ, scale, quot-scale, fits_int64}
use daqs.DataModel.{Variable, VarValue}
use daqs.DataModel.Floats.{Double, IsIeee}
use daqs.DataSource.Engine.{Engine}
use daqs.DataSource.Tables.{ValueRow, VariableRow, id_of, seen_variable}
use daqs.DataSource.Sql.{IsSql}
use daqs.DataSource.Sqlite.{milliseconds}
use daqs.DataAccess.Interface.{IDataAccess}
use daqs.DataAccess.Fetch.{Shows}
use daqs.DataAccess.Represents.{source_access}
use daqs.DataAccess.Saved.{IsKnown}
use daqs.DataAccess.Ranges.{values_in, stored_between-Shows}
use daqs.DataAccess.Added.{added_then_fetched}
use daqs.Protocol.{Codec, IsProtobuf, MessageType, ResponseStatus}
use daqs.Exchange.{
  Request, Answer, add_var, all_vars, values_between, status, values, variables, sent, request_body,
  IsSmall, HasDates, answer_bytes, meaning,
}
use daqs.Session.{writing, max_values_ammount}
use daqs.Session.Stream.{receive_message}
use daqs.Session.Serve.{request_served}
use daqs.Client.Answers.{signal_of}
use daqs.Hmi.{QColor, Output, writes, VarModel}
use daqs.Hmi.VarsModel as VarsModels
use daqs.Hmi.VarsModel.{on_variables_received, on_response_received, clear, model_of}
use daqs.Hmi.VarValuesModel.{get_values}
use daqs.Hmi.App.{App, on_signal}
use daqs.Hmi.Events.{Happening, chosen, has_come, Program, happen, happen_all}
use daqs.Hmi.Answered.{ShowsAnswer, answer-ShowsAnswer}
use daqs.Client.{Socket}
use daqs.Client.Reading.{IsStream}
use daqs.Client.Listen.{Fits}

module _ {W S C D : Type 0} ⦃d : Double W⦄ (c : Codec W) (law : IsProtobuf c) (e : Engine W S)
    (sql : IsSql e) (q : QColor C) (from_msecs : ℤ → D) (max_size : ℕ) where
  open sql use {tables}

  abbrev da : IDataAccess W S
  da = source_access e sql max_size

  variables_shown :
      (vars : List Variable) (app : App W C D)
      → (on_signal c q from_msecs (signal_of (variables vars)) app).0.vars_model.vars
        ≡ map (model_of q) vars
  unfolding on_signal on_variables_received clear
  variables_shown vars app = refl

  asked :
      (name : String) (lo hi : ℤ)
      → fits_int64 (scale lo e.ticks) ≡ true
      → fits_int64 (scale hi e.ticks) ≡ true
      → get_values c e.ticks name lo hi
        ≡ some (
            writes (sent c e.ticks (values_between name (scale lo e.ticks) (scale hi e.ticks)))
            ∷ [])
  unfolding get_values
  asked name lo hi fits fits' = rw (fits, fits') refl

  served :
      (r : Request W) (a : Answer W) (s s' : S)
      → IsSmall c (request_body c e.ticks r)
      → HasDates r
      → meaning da e.ticks r s ≡ some (a, s')
      → receive_message c da e.ticks (sent c e.ticks r ++ []) s
        ≡ some (writing (answer_bytes c a), [], s')
  served r a s s' small dates means =
      rw (request_served c law da e.ticks r [] s small dates, means) refl

  module _ {K : Type 0} (sock : Socket K) (str : IsStream sock) (fuel : ℕ) (arrive : List ℕ → K → K)
      (arrives : (bs : List ℕ) (k : K) → str.buffered (arrive bs k) ≡ str.buffered k ++ bs)
      (empty : c.values.serialize [] ≡ []) where
    asks :
        (name : String) (lo hi : ℤ) (p : Program W C D K)
        → fits_int64 (scale lo e.ticks) ≡ true
        → fits_int64 (scale hi e.ticks) ≡ true
        → happen c q from_msecs e.ticks sock (suc fuel) arrive (chosen name lo hi) p
          ≡ some (
            p,
            writes (sent c e.ticks (values_between name (scale lo e.ticks) (scale hi e.ticks)))
                ∷ [],
          )
    unfolding happen
    asks name lo hi p fits fits' = rw (happen, asked name lo hi fits fits') refl

    two_happen :
        (h h' : Happening C) (p p' p'' : Program W C D K) (out out' : List Output)
        → happen c q from_msecs e.ticks sock (suc fuel) arrive h p ≡ some (p', out)
        → happen c q from_msecs e.ticks sock (suc fuel) arrive h' p' ≡ some (p'', out')
        → happen_all c q from_msecs e.ticks sock (suc fuel) arrive (h ∷ h' ∷ []) p
          ≡ some (p'', out ++ out')
    unfolding happen_all
    two_happen h h' p p' p'' out out' one two = rw (happen_all, one, two, append-nil out') refl

    -- What the program asks for when a range of milliseconds is chosen, and what it shows of the
    -- answer: the client writes a request; a session over SQLite that is fed with it writes an answer;
    -- and when this comes in one packet, the slot of the client, which is connected and has an empty
    -- buffer, reads all of it. The answer holds a view, in at most 120 values, of the values of the
    -- variable whose time lies in the range, to the millisecond. If it holds none, the models stay as
    -- they are and nothing is emitted; else the values of the model are those of the answer, the
    -- variables stay, and the change is emitted once. The variable is known, with times and dates that
    -- fit; the values in the range are fewer than 2^53, and where 120 divides their number the quotient
    -- is not above 120; and the sizes of the request and of any such view fit. An empty list of values
    -- is a body without bytes on the wire.
    pub history_shown :
        (ieee : IsIeee W) (name : String) (lo hi : ℤ) (i : ℕ) (vs : List VariableRow)
        (ws : List (ValueRow W)) (s : S) (p : Program W C D K)
        → 0 < e.ticks
        → fits_int64 (scale lo e.ticks) ≡ true
        → fits_int64 (scale hi e.ticks) ≡ true
        → IsSmall c
            (request_body c e.ticks (values_between name (scale lo e.ticks) (scale hi e.ticks)))
        → IsKnown e sql name i (tables s) vs ws
        → max_values_ammount ≤ max_size
        → p.client.slots ≡ 1
        → str.buffered p.client.socket ≡ []
        → let all = values_in e sql i lo hi ws in
          length all < 2 ^ 53
          → (length all % max_values_ammount ≡ 0
              → length all ≤ max_values_ammount * max_values_ammount)
          → ((view : List (VarValue W)) → Shows max_values_ammount all view → Fits c (values view))
          → (bytes answer : List ℕ) × (r : List (VarValue W)) × (s' : S) × (p' : Program W C D K)
            × (out : List Output) × (happen_all c q from_msecs e.ticks sock
                  (suc fuel)
                  arrive
                  (chosen name lo hi ∷ has_come answer ∷ [])
                  p
                ≡ some (p', writes bytes ∷ out))
            × (receive_message c da e.ticks (bytes ++ []) s ≡ some (writing answer, [], s'))
            × Shows max_values_ammount all r
            × ShowsAnswer from_msecs r p.app p'.app out
            × (str.buffered p'.client.socket ≡ [])
    unfolding meaning
    history_shown ieee name lo hi i vs ws s p ticks fits fits' small known room one idle few
          quotient sized =
        let request : Request W = values_between name (scale lo e.ticks) (scale hi e.ticks) in
        let same_lo = quot-scale lo e.ticks ticks in
        let same_hi = quot-scale hi e.ticks ticks in
        let exact : values_in e sql i (milliseconds e (scale lo e.ticks))
              (milliseconds e (scale hi e.ticks)) ws
            ≡ values_in e sql i lo hi ws =
          λ j. values_in e sql i (same_lo j) (same_hi j) ws in
        let (r, s', done, _, shown) =
          stored_between-Shows e sql ieee max_size name (scale lo e.ticks) (scale hi e.ticks)
            max_values_ammount i vs ws s known (omega arith) room
            (subst (λ xs. length xs < 2 ^ 53) (sym exact) few)
            (subst
              (λ xs.
                length xs % max_values_ammount ≡ 0
                → length xs ≤ max_values_ammount * max_values_ammount)
              (sym exact) quotient) in
        let means : meaning da e.ticks request s ≡ some (values r, s') =
          rw (same_lo, same_hi, done) refl in
        let view : Shows max_values_ammount (values_in e sql i lo hi ws) r =
          subst (λ xs. Shows max_values_ammount xs r) exact shown in
        let (p', out, comes, shows, left) =
          answer-ShowsAnswer c law q from_msecs empty e.ticks sock str fuel arrive arrives r p one
            idle (sized r view) in
        (
          sent c e.ticks request,
          answer_bytes c (values r),
          r,
          s',
          p',
          out,
          two_happen (chosen name lo hi) (has_come (answer_bytes c (values r))) p p p' _ out
              (asks name lo hi p fits fits') comes,
          served request (values r) s s' small (fits, fits') means,
          view,
          shows,
          left,
        )

  -- What follows when a variable with a new name is appended in the program, whose color Qt reads back
  -- from its name: the client writes a request; a session over SQLite that is fed with it answers Ok;
  -- the signal of this answer makes the program ask for all variables; and the signal of the answer to
  -- that makes it show the variables of the database with the new one at the end. The sizes fit.
  pub added_variable_shown :
      (m : VarModel C) (vs : List VariableRow) (s : S) (app app' : App W C D)
      → let var : Variable = record { name = m.name; color = q.name m.color } in
        q.named (q.name m.color) ≡ m.color
        → IsSmall c (request_body c e.ticks (add_var var))
        → IsSmall c (request_body c e.ticks all_vars)
        → (tables s).variables ≡ some vs
        → id_of m.name vs ≡ none
        → let ok = status "Ok" ResponseStatus.ok (some MessageType.request_add_var) in
          (bytes bytes' : List ℕ) × (vars : List Variable) × (s' s1 : S) × (VarsModels.add_var q c m
            ≡ writes bytes ∷ [])
          × (receive_message c da e.ticks (bytes ++ []) s
              ≡ some (writing (answer_bytes c ok), [], s'))
          × (on_signal c q from_msecs (signal_of ok) app ≡ (app, writes bytes' ∷ []))
          × (receive_message c da e.ticks (bytes' ++ []) s'
              ≡ some (writing (answer_bytes c (variables vars)), [], s1))
          × ((on_signal c q from_msecs (signal_of (variables vars)) app').0.vars_model.vars
              ≡ map (model_of q) (map seen_variable vs) ++ m ∷ [])
  unfolding meaning VarsModels.add_var on_signal on_response_received
  added_variable_shown m vs s app app' same small small' known free =
      let var : Variable = record { name = m.name; color = q.name m.color } in
      let (s', s1, _, saved, seen, _, _) = added_then_fetched e sql var vs s known free in
      let vars = map seen_variable vs ++ var ∷ [] in
      (
        sent c e.ticks (add_var var),
        sent c e.ticks all_vars,
        vars,
        s',
        s1,
        refl,
        served (add_var var) (status "Ok" ResponseStatus.ok (some MessageType.request_add_var)) s s'
            small tt (rw saved refl),
        refl,
        served all_vars (variables vars) s' s1 small' tt (rw seen refl),
        variables_shown vars app'
            ∙ map-append (model_of q) (map seen_variable vs) (var ∷ [])
            ∙ ap
                (λ color.
                  map (model_of q) (map seen_variable vs)
                  ++ record { name = m.name; color = color } ∷ [])
                same,
      )
