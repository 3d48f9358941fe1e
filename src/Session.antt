-- ===== src/Session.antt =====
-- The class `Session` (src/database-server/session.cc, session.h): one connection, as a machine that
-- waits for one read or one write of its socket. The socket's answers are events; the data access is
-- a parameter. `none` is undefined behaviour.
pub mod Stream
pub mod Serve
pub mod Safety
pub mod Announced
pub mod Series
mod Tests
use daqs.Base.{
  ℕ, ◌+◌, Bool, true, false, not, ◌&&◌, String, Option, none, some, List, [], ◌∷◌, ◌++◌, map, ◌==◌,
  if◌then◌else◌, length, take,
}
use daqs.Base.Int.{ℤ, scale, fits_int64}
use daqs.DataModel.{Variable, VarValue, new_variable, new_value, value_name}
use daqs.DataSource.{TimePoint}
use daqs.DataAccess.Interface.{AccessErr, IDataAccess}
use daqs.Protocol.{
  MessageType, ResponseStatus, Header, SaveVariable, SaveValue, Failure, GetValues, ValueItem,
  Codec,
}

-- `Session::max_values_ammount`
abbrev pub max_values_ammount : ℕ
max_values_ammount = 120

-- The operation that the session waits for; `ended` waits for none, and the session is released.
pub data Phase : Type 0 where
  reading_meta : Phase
  reading_header : ℕ → Phase
  reading_body : MessageType → ℕ → Phase
  writing : List ℕ → Phase
  ended : Phase

-- The completion of an operation: whether it failed, and the bytes read or how many were written.
pub data Event : Type 0 where
  did_read : Bool → List ℕ → Event
  did_write : Bool → ℕ → Event

module _ {W : Type 0} (c : Codec W) where
  -- `build_h_msg`: MetaHeader and Header in one buffer.
  pub build_h_msg : ℕ → MessageType → List ℕ
  build_h_msg b_size msg_type =
      let h_buf = c.header.serialize (record { msg_type = msg_type; body_size = b_size }) in
      let h_size = length h_buf in
      let mh_buf = c.meta.serialize h_size in take (length mh_buf) mh_buf ++ take h_size h_buf

-- `build_f_msg`: two copies into one buffer.
pub build_f_msg : List ℕ → ℕ → List ℕ → ℕ → List ℕ
build_f_msg h_buf h_size b_buf b_size = take h_size h_buf ++ take b_size b_buf

-- The loops of the two `build_b_response` for lists.
abbrev pub value_item : {W : Type 0} → VarValue W → ValueItem W
value_item v = record { name = value_name v; value = v.val; timestamp = v.timestamp }

abbrev pub variable_item : Variable → SaveVariable
variable_item v = record { name = v.name; color = v.color }

module _ {W : Type 0} (c : Codec W) where
  -- The end of the three `send_…_response`: header, full message, and the write is started.
  pub send_response : List ℕ → MessageType → Phase
  unfolding build_h_msg build_f_msg
  send_response b_buf msg_type =
      let b_size = length b_buf in
      let fh_buf = build_h_msg c b_size msg_type in
      writing (build_f_msg fh_buf (length fh_buf) b_buf b_size)

  -- The three `build_b_response`.
  abbrev pub build_status_body : String → ResponseStatus → Option MessageType → List ℕ
  build_status_body msg status prev_msg =
      c.failure.serialize (record { status = status; msg = msg; prev_msg = prev_msg })

  abbrev pub build_values_body : List (VarValue W) → List ℕ
  build_values_body vals = c.values.serialize (map value_item vals)

  abbrev pub build_variables_body : List Variable → List ℕ
  build_variables_body vars = c.variables.serialize (map variable_item vars)

  -- Every status goes out as RESPONSE_FAILURE.
  pub send_status_response : String → ResponseStatus → Option MessageType → Phase
  unfolding send_response
  send_status_response msg status prev_msg =
      send_response (build_status_body msg status prev_msg) MessageType.response_failure

  pub send_values_response : List (VarValue W) → Phase
  unfolding send_response
  send_values_response values = send_response (build_values_body values) MessageType.response_values

  pub send_variables_response : List Variable → Phase
  unfolding send_response
  send_variables_response variables =
      send_response (build_variables_body variables) MessageType.response_variables

  -- `mh_size`
  abbrev pub mh_size : ℕ
  mh_size = length (c.meta.serialize 1)

  -- The handlers of the two reads of `read_header`; `ok` is `!ec && length == size`.
  unfoldable pub on_meta : Bool → List ℕ → Phase
  unfolding send_status_response
  on_meta true mh_buff = reading_header (c.meta.parse mh_buff)
  on_meta false mh_buff = send_status_response "reading mh_buff" ResponseStatus.failed none

  -- `read_body`: an unknown request is answered, and its body stays in the stream.
  unfoldable pub read_body : MessageType → ℕ → Phase
  unfolding send_status_response
  read_body MessageType.request_save_value b_size =
      reading_body MessageType.request_save_value b_size
  read_body MessageType.request_get_values b_size =
      reading_body MessageType.request_get_values b_size
  read_body MessageType.request_add_var b_size = reading_body MessageType.request_add_var b_size
  read_body MessageType.request_get_variables b_size =
      reading_body MessageType.request_get_variables b_size
  read_body _ b_size = send_status_response "unknow error" ResponseStatus.failed none

  pub on_header : Bool → List ℕ → Phase
  unfolding read_body send_status_response
  on_header true h_buff = let h = c.header.parse h_buff in read_body h.msg_type h.body_size
  on_header false h_buff = send_status_response "reading h_buff" ResponseStatus.failed none

  -- The handler of `send_msg`.
  unfoldable pub on_write : Bool → Phase
  unfolding send_status_response
  on_write true = reading_meta
  on_write false = send_status_response "writing response" ResponseStatus.failed none

  module _ {S : Type 0} (da : IDataAccess W S) (ticks : ℕ) where
    abbrev pub reply_added : Option (AccessErr × S) → Option (Phase × S)
    reply_added none = none
    reply_added (some (AccessErr.ok, s)) =
        some (send_status_response "Ok" ResponseStatus.ok (some MessageType.request_add_var), s)
    reply_added (some (_, s)) =
        some (send_status_response "Failed to save value" ResponseStatus.failed none, s)

    unfoldable pub read_add_variable_request : List ℕ → S → Option (Phase × S)
    unfolding send_status_response
    read_add_variable_request body_buff s =
        let sv = c.save_variable.parse body_buff in
        reply_added (da.add_variable (new_variable sv.name sv.color) s)

    abbrev pub reply_saved : Option (AccessErr × S) → Option (Phase × S)
    reply_saved none = none
    reply_saved (some (AccessErr.ok, s)) =
        some (send_status_response "Ok" ResponseStatus.ok none, s)
    reply_saved (some (_, s)) =
        some (send_status_response "Failed to save value" ResponseStatus.failed none, s)

    unfoldable pub read_save_value_request : List ℕ → S → Option (Phase × S)
    unfolding send_status_response
    read_save_value_request body_buff s =
        let sv = c.save_value.parse body_buff in
        let var = new_variable sv.variable "color" in
        reply_saved (da.add_variable_value (new_value var sv.value 0) s)

    abbrev pub reply_values : Option (List (VarValue W) × AccessErr × S) → Option (Phase × S)
    reply_values none = none
    reply_values (some (values, AccessErr.ok, s)) = some (send_values_response values, s)
    reply_values (some (values, _, s)) =
        some (send_status_response "Failed to get values" ResponseStatus.failed none, s)

    -- A number of milliseconds as a `time_point`; a product out of range of `int64_t` is undefined.
    abbrev pub time_point : ℤ → Option TimePoint
    time_point ms = let t = scale ms ticks in if fits_int64 t then some t else none

    -- The values between two dates, or all of them.
    unfoldable pub get_values : GetValues → S → Option (List (VarValue W) × AccessErr × S)
    get_values gv s = elim gv.start [
      | none ↦ da.fetch_variable_values gv.variable max_values_ammount s
      | some from ↦ elim gv.end [
        | none ↦ da.fetch_variable_values gv.variable max_values_ammount s
        | some to ↦ elim (time_point from) [
          | none ↦ none
          | some start ↦ elim (time_point to) [
            | none ↦ none
            | some end ↦ da.fetch_variable_values_between gv.variable start end max_values_ammount s
          ]
        ]
      ]
    ]

    unfoldable pub read_get_values_request : List ℕ → S → Option (Phase × S)
    unfolding send_status_response send_values_response get_values
    read_get_values_request body_buff s = reply_values (get_values (c.get_values.parse body_buff) s)

    abbrev pub reply_variables : Option (List Variable × AccessErr × S) → Option (Phase × S)
    reply_variables none = none
    reply_variables (some (variables, AccessErr.ok, s)) =
        some (send_variables_response variables, s)
    reply_variables (some (variables, _, s)) =
        some (send_status_response "Failed to get variables" ResponseStatus.failed none, s)

    unfoldable pub read_get_variables_request : List ℕ → S → Option (Phase × S)
    unfolding send_status_response send_variables_response
    read_get_variables_request body_buff s = reply_variables (da.fetch_variables s)

    -- The handlers of the four body reads. After a failed read no operation is started.
    unfoldable pub on_body : MessageType → Bool → List ℕ → S → Option (Phase × S)
    on_body t false body_buff s = some (ended, s)
    on_body MessageType.request_save_value true body_buff s = read_save_value_request body_buff s
    on_body MessageType.request_get_values true body_buff s = read_get_values_request body_buff s
    on_body MessageType.request_add_var true body_buff s = read_add_variable_request body_buff s
    on_body MessageType.request_get_variables true body_buff s =
        read_get_variables_request body_buff s
    on_body _ true body_buff s = some (ended, s)

    -- The handler of the operation that is pending. No other event can come.
    unfoldable pub step : Phase → Event → S → Option (Phase × S)
    step reading_meta (did_read ec bytes) s =
        some (on_meta (not ec && length bytes == mh_size) bytes, s)
    step (reading_header h_size) (did_read ec bytes) s =
        some (on_header (not ec && length bytes == h_size) bytes, s)
    step (reading_body t b_size) (did_read ec bytes) s =
        on_body t (not ec && length bytes == b_size) bytes s
    step (writing f_buf) (did_write ec n) s = some (on_write (not ec && length f_buf == n), s)
    step p _ s = some (p, s)

    pub run : Phase → List Event → S → Option (Phase × S)
    run p [] s = some (p, s)
    run p (ev ∷ evs) s = elim (step p ev s) [ none ↦ none | some (p', s') ↦ run p' evs s' ]
