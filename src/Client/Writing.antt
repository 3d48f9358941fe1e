-- ===== src/Client/Writing.antt =====
-- Every request is written as a frame.
use daqs.Base.{◌≡◌, ℕ, String, List, append_assoc, none, some}
use daqs.Base.Int.{quot}
use daqs.DataModel.{Variable}
use daqs.DataSource.{TimePoint}
use daqs.Protocol.{MessageType, Codec}
use daqs.Protocol.Frame.{frame, take_three}
use daqs.Client.{
  request_bytes, send_var, send_var_val, request_vars, request_var_values,
  request_var_values_between,
}

module _ {W : Type 0} (c : Codec W) where
  request_bytes-frame : (t : MessageType) (body : List ℕ) → request_bytes c t body ≡ frame c t body
  unfolding request_bytes frame
  request_bytes-frame t body = rw append_assoc (take_three _ _ body)

  pub send_var-frame :
      (var : Variable)
      → send_var c var
        ≡ frame c MessageType.request_add_var
            (c.save_variable.serialize (record { name = var.name; color = var.color }))
  unfolding send_var
  send_var-frame var = request_bytes-frame _ _

  pub send_var_val-frame :
      (var_name : String) (value : W)
      → send_var_val c var_name value
        ≡ frame c MessageType.request_save_value
            (c.save_value.serialize (record { variable = var_name; value = value }))
  unfolding send_var_val
  send_var_val-frame var_name value = request_bytes-frame _ _

  pub request_vars-frame :
      request_vars c
      ≡ frame c MessageType.request_get_variables (c.get_variables.serialize (record {}))
  unfolding request_vars
  request_vars-frame = request_bytes-frame _ _

  pub request_var_values-frame :
      (var_name : String)
      → request_var_values c var_name
        ≡ frame c MessageType.request_get_values
            (c.get_values.serialize (record { variable = var_name; start = none; end = none }))
  unfolding request_var_values
  request_var_values-frame var_name = request_bytes-frame _ _

  pub request_var_values_between-frame :
      (ticks : ℕ) (var_name : String) (start end : TimePoint)
      → request_var_values_between c ticks var_name start end
        ≡ frame c MessageType.request_get_values (
            c.get_values.serialize (record {
              variable = var_name;
              start = some (quot start ticks);
              end = some (quot end ticks);
            }))
  unfolding request_var_values_between
  request_var_values_between-frame ticks var_name start end = request_bytes-frame _ _
