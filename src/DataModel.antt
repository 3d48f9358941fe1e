-- ===== src/DataModel.antt =====
-- src/database-server/data-model: the classes `Variable` (variable.h, variable.cc) and `VarValue`
-- (varvalue.h, varvalue.cc). A class is a record, a setter returns the new record, and `val_` is a
-- value of the parameter `W` of module Floats. Getters are the fields.
pub mod Floats
use Floats.{Double}
use daqs.Base.{ℕ, String}

pub record Variable : Type 0 where
  pub name : String
  pub color : String

-- `Variable(name, color)`
abbrev pub new_variable : String → String → Variable
new_variable name color = record { name = name; color = color }

abbrev pub set_name : Variable → String → Variable
set_name var name = record var { name = name }

abbrev pub set_color : Variable → String → Variable
set_color var color = record var { color = color }

-- `Variable() = default`
abbrev pub default_variable : Variable
default_variable = record { name = ""; color = "" }

pub record VarValue (W : Type 0) : Type 0 where
  pub variable : Variable
  pub val : W
  pub timestamp : ℕ

module _ {W : Type 0} where
  -- `VarValue(variable, val, ts)`, for references of both kinds.
  abbrev pub new_value : Variable → W → ℕ → VarValue W
  new_value variable val ts = record { variable = variable; val = val; timestamp = ts }

  -- The constructor that takes another value: `std::move` does nothing to what it copies, and the
  -- variable is copied.
  abbrev pub moved_value : VarValue W → VarValue W
  moved_value var = record { variable = var.variable; val = var.val; timestamp = var.timestamp }

  abbrev pub set_variable : VarValue W → Variable → VarValue W
  set_variable v var = record v { variable = var }

  abbrev pub set_val : VarValue W → W → VarValue W
  set_val v x = record v { val = x }

  abbrev pub set_timestamp : VarValue W → ℕ → VarValue W
  set_timestamp v ts = record v { timestamp = ts }

  -- `VarValue::name`
  abbrev pub value_name : VarValue W → String
  value_name v = v.variable.name

-- `VarValue v{}` sets the members to zero, since the default constructor is not user-provided.
abbrev pub default_value : {W : Type 0} ⦃d : Double W⦄ → VarValue W
default_value ⦃d⦄ = record { variable = default_variable; val = d.nought; timestamp = 0 }

-- `DeepCopy`, member by member.
abbrev pub deep_copy : {W : Type 0} ⦃d : Double W⦄ → VarValue W → VarValue W
deep_copy this =
    let v = set_val default_value this.val in
    let v' = set_variable v this.variable in set_timestamp v' this.timestamp
