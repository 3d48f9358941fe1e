-- ===== src/Exchange.antt =====
-- The client and the server together: what a request means, and what an answer means. The code is
-- that of Client and Session; here stand the intended meanings.
pub mod Whole
pub mod Conversation
pub mod Story
pub mod Asked
pub mod Answered
pub mod Told
pub mod Sample
mod Tests
use daqs.Base.{ℕ, ◌<◌, ◌^◌, length, ◌≡◌, true, String, Option, none, some, List, map}
use daqs.Base.Int.{quot, scale, fits_int64}
use daqs.DataModel.{Variable, VarValue}
use daqs.DataSource.{TimePoint}
use daqs.DataAccess.Interface.{AccessErr, IDataAccess}
use daqs.Protocol.{MessageType, ResponseStatus, Codec}
use daqs.Protocol.Frame.{frame, header_bytes}
use daqs.Session.{value_item, variable_item, max_values_ammount}
use daqs.Client.{
  send_var, send_var_val, request_vars, request_var_values, request_var_values_between,
}

-- The calls of the client that write a request.
pub data Request (W : Type 0) : Type 0 where
  add_var : Variable → Request W
  save_val : String → W → Request W
  all_vars : Request W
  all_values : String → Request W
  values_between : String → TimePoint → TimePoint → Request W

-- The answers of the server.
pub data Answer (W : Type 0) : Type 0 where
  status : String → ResponseStatus → Option MessageType → Answer W
  values : List (VarValue W) → Answer W
  variables : List Variable → Answer W

abbrev pub refused : {W : Type 0} → String → Answer W
refused msg = status msg ResponseStatus.failed none

module _ {W : Type 0} (c : Codec W) where
  -- The bytes that the client writes.
  abbrev pub sent : ℕ → Request W → List ℕ
  sent ticks (add_var var) = send_var c var
  sent ticks (save_val var_name value) = send_var_val c var_name value
  sent ticks all_vars = request_vars c
  sent ticks (all_values var_name) = request_var_values c var_name
  sent ticks (values_between var_name start end) =
      request_var_values_between c ticks var_name start end

  -- The type and the body of a request.
  abbrev pub request_body : ℕ → Request W → MessageType × List ℕ
  request_body ticks (add_var var) = (
    MessageType.request_add_var,
    c.save_variable.serialize (record { name = var.name; color = var.color }),
  )
  request_body ticks (save_val var_name value) = (
    MessageType.request_save_value,
    c.save_value.serialize (record { variable = var_name; value = value }),
  )
  request_body ticks all_vars =
      (MessageType.request_get_variables, c.get_variables.serialize (record {}))
  request_body ticks (all_values var_name) = (
    MessageType.request_get_values,
    c.get_values.serialize (record { variable = var_name; start = none; end = none }),
  )
  request_body ticks (values_between var_name start end) = (
    MessageType.request_get_values,
    c.get_values.serialize (record {
      variable = var_name;
      start = some (quot start ticks);
      end = some (quot end ticks);
    }),
  )

  -- The sizes that MetaHeader and Header announce fit their 64 bits.
  abbrev pub IsSmall : MessageType × List ℕ → Type 0
  IsSmall (t, body) = (length body < 2 ^ 64) × (length (header_bytes c t body) < 2 ^ 64)

  abbrev pub answer_body : Answer W → MessageType × List ℕ
  answer_body (status msg st prev) = (
    MessageType.response_failure,
    c.failure.serialize (record { status = st; msg = msg; prev_msg = prev }),
  )
  answer_body (values vs) = (MessageType.response_values, c.values.serialize (map value_item vs))
  answer_body (variables vs) =
      (MessageType.response_variables, c.variables.serialize (map variable_item vs))

  -- The bytes of an answer: one frame.
  abbrev pub answer_bytes : Answer W → List ℕ
  answer_bytes a = frame c (answer_body a).0 (answer_body a).1

-- The dates of a request fit the clock's 64 bits.
abbrev pub HasDates : {W : Type 0} → Request W → Type 0
HasDates (values_between var_name start end) = (fits_int64 start ≡ true) × (fits_int64 end ≡ true)
HasDates _ = Unit

-- A date that went over the wire: whole milliseconds.
abbrev pub in_milliseconds : ℕ → TimePoint → TimePoint
in_milliseconds ticks t = scale (quot t ticks) ticks

module _ {W S : Type 0} (da : IDataAccess W S) where
  abbrev pub on_status : Answer W → Answer W → Option (AccessErr × S) → Option (Answer W × S)
  on_status done undone none = none
  on_status done undone (some (AccessErr.ok, s)) = some (done, s)
  on_status done undone (some (_, s)) = some (undone, s)

  abbrev pub on_data :
      {A : Type 0} → (A → Answer W) → Answer W → Option (A × AccessErr × S) → Option (Answer W × S)
  on_data done undone none = none
  on_data done undone (some (a, AccessErr.ok, s)) = some (done a, s)
  on_data done undone (some (a, _, s)) = some (undone, s)

  -- What the server is to do for a request: one call of the data access, and the answer.
  unfoldable pub meaning : ℕ → Request W → S → Option (Answer W × S)
  meaning ticks (add_var var) s =
      on_status (status "Ok" ResponseStatus.ok (some MessageType.request_add_var))
        (refused "Failed to save value") (da.add_variable var s)
  meaning ticks (save_val var_name value) s =
      let var : Variable = record { name = var_name; color = "color" } in
      on_status (status "Ok" ResponseStatus.ok none) (refused "Failed to save value")
        (da.add_variable_value (record { variable = var; val = value; timestamp = 0 }) s)
  meaning ticks all_vars s =
      on_data variables (refused "Failed to get variables") (da.fetch_variables s)
  meaning ticks (all_values var_name) s =
      on_data values (refused "Failed to get values")
        (da.fetch_variable_values var_name max_values_ammount s)
  meaning ticks (values_between var_name start end) s =
      on_data values (refused "Failed to get values") (
        da.fetch_variable_values_between var_name (in_milliseconds ticks start)
          (in_milliseconds ticks end) max_values_ammount s)
