-- ===== src/Hmi.antt =====
-- The models of the graphical program (src/hmi/model): what it shows of the variables and of the
-- values, how the signals of the client change that, and what it asks the client to write. QML reads
-- the models; Qt's colors and dates are parameters.
pub mod VarsModel
pub mod VarValuesModel
pub mod App
pub mod Start
pub mod Events
pub mod Latest
pub mod Behind
pub mod Laws
mod Tests
mod LiveTests
pub mod Answered
pub mod Shown
use daqs.Base.{ℕ, Bool, String, List, [], ◌∷◌, if◌then◌else◌}
use text.Mathlib.Text.{◌==◌ as str_eq}

-- `QColor`: the color of a name, the name of a color, and `==`.
pub record QColor (C : Type 0) : Type 0 where
  pub named : String → C
  pub name : C → String
  pub same : C → C → Bool

-- What a model does besides changing itself: it emits a signal, or lets the client write bytes.
pub data Output : Type 0 where
  vars_changed vals_changed : Output
  writes : List ℕ → Output

-- The class `VarModel` (varmodel.h), and the signals of its setters.
pub record VarModel (C : Type 0) : Type 0 where
  pub name : String
  pub color : C

-- `VarModel(name, color, parent)`, and with the invalid color of `QColor{}` `VarModel(parent)`.
abbrev pub new_var_model : {C : Type 0} → String → C → VarModel C
new_var_model name color = record { name = name; color = color }

abbrev pub default_var_model : {C : Type 0} → C → VarModel C
default_var_model invalid = new_var_model "" invalid

pub data Change (C : Type 0) : Type 0 where
  name_changed : String → Change C
  color_changed : C → Change C

module _ {C : Type 0} (q : QColor C) where
  unfoldable pub set_name : String → VarModel C → VarModel C × List (Change C)
  set_name name m =
      if str_eq name m.name then (m, []) else (record m { name = name }, name_changed name ∷ [])

  unfoldable pub set_color : C → VarModel C → VarModel C × List (Change C)
  set_color color m =
      if q.same color m.color
      then (m, [])
      else (record m { color = color }, color_changed color ∷ [])
