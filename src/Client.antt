-- ===== src/Client.antt =====
-- The class `Client` (src/database-server/client/client.cc): the requests that it writes, and the slot
-- `onReadyRead`, which reads one response. The `QTcpSocket` is a parameter with its state `K`.
pub mod Reading
pub mod Writing
pub mod Answers
pub mod Listen
pub mod Connection
pub mod Machine
pub mod Slow
mod Tests
use daqs.Base.{
  ℕ, zero, suc, ◌+◌, ◌-◌, ◌^◌, Bool, true, false, String, Option, none, some, List, [], ◌∷◌, ◌++◌,
  map, ◌==◌, ltb, if◌then◌else◌, length, take,
}
use daqs.Base.Int.{ℤ, quot}
use daqs.DataModel.{Variable, VarValue, new_variable, new_value}
use daqs.DataSource.{TimePoint}
use daqs.Protocol.{
  MessageType, ResponseStatus, Header, SaveVariable, SaveValue, Failure, GetValues, GetVariables,
  ValueItem, Codec,
}

-- `read` gives at most the asked number of bytes, or `none` for -1; `wait_for_ready_read` is
-- `waitForReadyRead(3000)`.
pub record Socket (K : Type 0) : Type 0 where
  pub read : ℕ → K → Option (List ℕ) × K
  pub wait_for_ready_read : K → Bool × K

-- The signals with a payload.
pub data Signal (W : Type 0) : Type 0 where
  response_received : Option MessageType → ResponseStatus → String → Signal W
  values_received : List (VarValue W) → Signal W
  variables_received : List Variable → Signal W

-- `numeric_limits<int>::max()`
abbrev pub int_max : ℕ
int_max = 2 ^ 31 - 1

module _ {W : Type 0} (c : Codec W) where
  -- The code that `send_var`, `send_var_val` and both `do_request` share: the bytes written.
  pub request_bytes : MessageType → List ℕ → List ℕ
  request_bytes msg_type body =
      let hdr = c.header.serialize (record { msg_type = msg_type; body_size = length body }) in
      let mh = c.meta.serialize (length hdr) in
      take (length mh + length hdr + length body) (mh ++ hdr ++ body)

  pub send_var : Variable → List ℕ
  unfolding request_bytes
  send_var var =
      request_bytes MessageType.request_add_var
        (c.save_variable.serialize (record { name = var.name; color = var.color }))

  pub send_var_val : String → W → List ℕ
  unfolding request_bytes
  send_var_val var_name value =
      request_bytes MessageType.request_save_value
        (c.save_value.serialize (record { variable = var_name; value = value }))

  -- `do_request` with `GetVariables`
  pub request_variables : GetVariables → List ℕ
  unfolding request_bytes
  request_variables gv =
      request_bytes MessageType.request_get_variables (c.get_variables.serialize gv)

  pub request_vars : List ℕ
  unfolding request_variables
  request_vars = request_variables (record {})

  -- `do_request` with `GetValues`
  pub request_values : GetValues → List ℕ
  unfolding request_bytes
  request_values gv = request_bytes MessageType.request_get_values (c.get_values.serialize gv)

  pub request_var_values : String → List ℕ
  unfolding request_values
  request_var_values var_name =
      request_values (record { variable = var_name; start = none; end = none })

  -- With two dates, in clock ticks; `ticks` of them are a millisecond.
  pub request_var_values_between : ℕ → String → TimePoint → TimePoint → List ℕ
  unfolding request_values
  request_var_values_between ticks var_name start end =
      request_values (record {
        variable = var_name;
        start = some (quot start ticks);
        end = some (quot end ticks);
      })

-- How the loop that reads a long body ends.
pub data BodyRead : Type 0 where
  complete : List ℕ → BodyRead
  gave_up : BodyRead
  out_of_fuel : BodyRead

module _ {K : Type 0} (sock : Socket K) where
  -- A read of a fixed size, which must be answered in full.
  pub read_exactly : ℕ → K → Option (List ℕ) × K
  read_exactly n k =
      let (answer, k') = sock.read n k in
      elim answer [
        | none ↦ (none, k')
        | some bytes ↦ if length bytes == n then (some bytes, k') else (none, k')
      ]

  -- The `do … while (readed != h.bodysize())` of the two long responses; `data_r` holds the bytes
  -- read so far. A read of no bytes waits for more, and gives up if none come.
  pub read_body : ℕ → ℕ → List ℕ → K → BodyRead × K
  read_body zero body_size data_r k = (out_of_fuel, k)
  read_body (suc fuel) body_size data_r k =
      let (answer, k') = sock.read (body_size - length data_r) k in
      elim answer [
        | none ↦ (gave_up, k')
        | some [] ↦
            let (ready, k'') = sock.wait_for_ready_read k' in
            let again = read_body fuel body_size data_r k'' in
            if ready
            then (if length data_r == body_size then (complete data_r, k'') else again)
            else (gave_up, k'')
        | some (b ∷ bytes) ↦
            let all = data_r ++ (b ∷ bytes) in
            let again = read_body fuel body_size all k' in
            if length all == body_size then (complete all, k') else again
      ]

module _ {W K : Type 0} (c : Codec W) (sock : Socket K) (fuel : ℕ) where
  abbrev pub value_of_item : ValueItem W → VarValue W
  value_of_item v = new_value (new_variable v.name "color") v.value v.timestamp

  abbrev pub variable_of_item : SaveVariable → Variable
  variable_of_item v = new_variable v.name v.color

  abbrev pub signal_values : BodyRead → Option (Signal W)
  signal_values (complete data_r) =
      some (values_received (map value_of_item (c.values.parse data_r)))
  signal_values gave_up = none
  signal_values out_of_fuel = none

  abbrev pub signal_variables : BodyRead → Option (Signal W)
  signal_variables (complete data_r) =
      some (variables_received (map variable_of_item (c.variables.parse data_r)))
  signal_variables gave_up = none
  signal_variables out_of_fuel = none

  abbrev pub signal_failure : Option (List ℕ) → Option (Signal W)
  signal_failure none = none
  signal_failure (some data_r) =
      let resp = c.failure.parse data_r in
      some (response_received resp.prev_msg resp.status resp.msg)

  -- The three responses; an empty body of values or variables emits nothing.
  pub on_header : Header → K → Option (Signal W) × K
  unfolding read_exactly
  on_header h k = elim h.msg_type [
    | MessageType.response_failure ↦
        let (body, k') = read_exactly sock h.body_size k in (signal_failure body, k')
    | MessageType.response_values ↦
        let (body, k') = read_body sock fuel h.body_size [] k in
        if h.body_size == 0 then (none, k) else (signal_values body, k')
    | MessageType.response_variables ↦
        let (body, k') = read_body sock fuel h.body_size [] k in
        if h.body_size == 0 then (none, k) else (signal_variables body, k')
    | _ ↦ (none, k)
  ]

  abbrev pub after_header : Option (List ℕ) → K → Option (Signal W) × K
  unfolding on_header
  after_header none k = (none, k)
  after_header (some h_data) k =
      let h = c.header.parse h_data in if ltb int_max h.body_size then (none, k) else on_header h k

  abbrev pub after_meta : Option (List ℕ) → K → Option (Signal W) × K
  unfolding on_header read_exactly
  after_meta none k = (none, k)
  after_meta (some mh_data) k =
      let (h_data, k') = read_exactly sock (c.meta.parse mh_data) k in after_header h_data k'

  pub on_ready_read : K → Option (Signal W) × K
  unfolding on_header read_exactly
  on_ready_read k =
      let (mh_data, k') = read_exactly sock (length (c.meta.serialize 1)) k in after_meta mh_data k'
