-- ===== src/Hmi/Start.antt =====
-- The start of the graphical program (src/hmi/main.cc), on a computer and on Android: the two models are
-- made, and the client is told to connect once the user interface is loaded.

use daqs.Base.{ℕ, Bool, String, Option, none, some, List, ◌++◌, if◌then◌else◌}
use daqs.Client.Connection.{Connecting, Client, new_client, connect}
use daqs.Hmi.{QColor, Output}
use daqs.Hmi.VarsModel.{new_vars_model}
use daqs.Hmi.VarValuesModel.{new_values_model}
use daqs.Hmi.App.{App}

-- The server's address: the program for Android, which the macro `__ANDROID__` tells, has its own.
abbrev pub host : Bool → String
host android = if android then "192.168.43.65" else "127.0.0.1"

module _ {C K : Type 0} (W D : Type 0) (q : QColor C) (net : Connecting K) where
  abbrev pub Ready : Type 0
  Ready = App W C D × List Output × Client K

  -- `none` is the return of -1, when no root object was loaded.
  unfoldable pub start : Bool → (ℕ → String) → Bool → K → Option Ready
  start android arg is_empty socket =
      let cl = new_client (host android) 4444 socket in
      let (values_model, out) = new_values_model in
      let (vars_model, out') = new_vars_model q arg in
      if is_empty
      then none
      else some (
        record { data_layer = values_model; vars_model = vars_model },
        out ++ out',
        connect net cl,
      )
