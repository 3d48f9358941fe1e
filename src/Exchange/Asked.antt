-- ===== src/Exchange/Asked.antt =====
-- What a body that a session read asks for, whoever wrote it.
use daqs.Base.{ℕ, ◌<◌, ◌≡◌, true, String, Option, none, some, List}
use daqs.Base.Int.{ℤ, scale, quot-scale}
use daqs.DataAccess.Interface.{IDataAccess}
use daqs.Protocol.{MessageType, Codec}
use daqs.Session.{
  on_body, read_add_variable_request, read_save_value_request, read_get_values_request,
  read_get_variables_request, get_values, reply_values,
}
use daqs.Session.Safety.{IsRequest}
use daqs.Session.Serve.{answers, added-answers, saved-answers, values-answers, variables-answers}
use daqs.Exchange.{
  Request, add_var, save_val, all_vars, all_values, values_between, meaning, HasDates,
}

-- Without both dates all values are asked for.
abbrev pub asked_values : {W : Type 0} → ℕ → String → Option ℤ → Option ℤ → Request W
asked_values ticks name (some from) (some to) =
    values_between name (scale from ticks) (scale to ticks)
asked_values ticks name _ _ = all_values name

module _ {W : Type 0} (c : Codec W) (ticks : ℕ) where
  unfoldable pub asked_by : MessageType × List ℕ → Request W
  asked_by (MessageType.request_add_var, body) =
      let sv = c.save_variable.parse body in add_var (record { name = sv.name; color = sv.color })
  asked_by (MessageType.request_save_value, body) =
      let sv = c.save_value.parse body in save_val sv.variable sv.value
  asked_by (MessageType.request_get_values, body) =
      let gv = c.get_values.parse body in asked_values ticks gv.variable gv.start gv.end
  asked_by (_, body) = all_vars

  module _ {S : Type 0} (da : IDataAccess W S) where
    values-asked :
        (name : String) (start end : Option ℤ) (s : S)
        → 0 < ticks
        → HasDates (asked_values {W = W} ticks name start end)
        → reply_values c da ticks
            (get_values c da ticks (record { variable = name; start = start; end = end }) s)
          ≡ answers c (meaning da ticks (asked_values ticks name start end) s)
    unfolding get_values meaning
    values-asked name none end s pos dates = values-answers c da ticks _
    values-asked name (some from) none s pos dates = values-answers c da ticks _
    values-asked name (some from) (some to) s pos (fits, fits') =
        rw (get_values, fits, fits', quot-scale from ticks pos, quot-scale to ticks pos)
          (values-answers c da ticks _)

    pub on_body-asked :
        (t : MessageType) (body : List ℕ) (s : S)
        → 0 < ticks
        → IsRequest t
        → HasDates (asked_by (t, body))
        → on_body c da ticks t true body s ≡ answers c (meaning da ticks (asked_by (t, body)) s)
    unfolding on_body read_add_variable_request read_save_value_request read_get_values_request
        read_get_variables_request meaning asked_by
    on_body-asked MessageType.request_add_var body s pos is dates = added-answers c da ticks _
    on_body-asked MessageType.request_save_value body s pos is dates = saved-answers c da ticks _
    on_body-asked MessageType.request_get_values body s pos is dates =
        let gv = c.get_values.parse body in values-asked gv.variable gv.start gv.end s pos dates
    on_body-asked MessageType.request_get_variables body s pos is dates =
        variables-answers c da ticks _
    on_body-asked MessageType.response_failure body s pos is dates = absurd is
    on_body-asked MessageType.response_values body s pos is dates = absurd is
    on_body-asked MessageType.response_variables body s pos is dates = absurd is
