-- ===== src/Hmi/App.antt =====
-- The two models on one client, as src/hmi/main.cc connects them.
use daqs.Base.{List}
use daqs.Base.Int.{ℤ}
use daqs.Protocol.{Codec}
use daqs.Client.{Signal, response_received, values_received, variables_received}
use daqs.Hmi.{QColor, Output}
use daqs.Hmi.VarsModel.{VarsModel, on_variables_received, on_response_received}
use daqs.Hmi.VarValuesModel.{VarValuesModel, on_values_received}

pub record App (W C D : Type 0) : Type 0 where
  pub data_layer : VarValuesModel W D
  pub vars_model : VarsModel C

module _ {W C D : Type 0} (c : Codec W) (q : QColor C) (from_msecs : ℤ → D) where
  -- The slots that are connected to a signal of the client.
  unfoldable pub on_signal : Signal W → App W C D → App W C D × List Output
  on_signal (values_received vals) app =
      let (m, out) = on_values_received from_msecs vals app.data_layer in
      (record app { data_layer = m }, out)
  on_signal (variables_received vars) app =
      let (m, out) = on_variables_received q vars app.vars_model in
      (record app { vars_model = m }, out)
  on_signal (response_received prev_msg status msg) app =
      (app, on_response_received q c prev_msg status msg)
