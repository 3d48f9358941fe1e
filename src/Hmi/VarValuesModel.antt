-- ===== src/Hmi/VarValuesModel.antt =====
-- The classes `VarValueModel` and `VarValuesModel` (src/hmi/model/varvaluemodel.cc, varvaluesmodel.cc
-- and their headers): the values shown. `QDateTime::fromMSecsSinceEpoch` is a parameter.
use daqs.Base.{
  ℕ, ◌+◌, ◌-◌, ◌^◌, String, Option, none, some, List, [], ◌∷◌, map, ltb, if◌then◌else◌, length,
}
use daqs.Base.Int.{ℤ, pos, negsuc, scale, fits_int64}
use daqs.DataModel.{VarValue}
use daqs.DataModel.Floats.{Double}
use daqs.Protocol.{Codec}
use daqs.Client.{request_var_values, request_var_values_between}
use daqs.Hmi.{Output, vals_changed, writes}
use daqs.Hmi.VarsModel.{at_index}

pub record VarValueModel (W D : Type 0) : Type 0 where
  pub val : W
  pub timestamp : D

pub record VarValuesModel (W D : Type 0) : Type 0 where
  pub vals : List (VarValueModel W D)

-- The constructor: no values, and no signal.
abbrev pub new_values_model : {W D : Type 0} → VarValuesModel W D × List Output
new_values_model = (record { vals = [] }, [])

-- The conversion of a `uint64_t` to a `qint64`.
abbrev pub to_qint64 : ℕ → ℤ
to_qint64 n = if ltb n (2 ^ 63) then pos n else negsuc (2 ^ 64 - (n + 1))

-- `VarValueModel(parent)`: zero, and the invalid date of `QDateTime{}`.
abbrev pub default_value_model : {W D : Type 0} ⦃d : Double W⦄ → D → VarValueModel W D
default_value_model ⦃d⦄ invalid = record { val = d.nought; timestamp = invalid }

-- The constructor that takes another one.
abbrev pub moved_value_model : {W D : Type 0} → VarValueModel W D → VarValueModel W D
moved_value_model other = record { val = other.val; timestamp = other.timestamp }

module _ {W D : Type 0} (from_msecs : ℤ → D) where
  -- `VarValueModel(val, timestamp)`
  abbrev pub new_value_model : W → ℕ → VarValueModel W D
  new_value_model val timestamp = record { val = val; timestamp = from_msecs (to_qint64 timestamp) }

  abbrev pub value_model_of : VarValue W → VarValueModel W D
  value_model_of val = new_value_model val.val val.timestamp

  abbrev pub changed_if : List (VarValueModel W D) → List Output
  changed_if [] = []
  changed_if (_ ∷ _) = vals_changed ∷ []

  -- The slot of `valuesReceived`: no signal tells that the list is empty now.
  unfoldable pub on_values_received :
      List (VarValue W) → VarValuesModel W D → VarValuesModel W D × List Output
  on_values_received vals m =
      let m_vals = map value_model_of vals in (record { vals = m_vals }, changed_if m_vals)

module _ {W : Type 0} (c : Codec W) where
  -- The timer that the constructor starts.
  unfoldable pub on_timeout : List Output
  on_timeout = writes (request_var_values c "temp") ∷ []

  -- `getValues`; a product out of range of `int64_t` is undefined.
  unfoldable pub get_values : ℕ → String → ℤ → ℤ → Option (List Output)
  get_values ticks var s e =
      if fits_int64 (scale s ticks)
      then (if fits_int64 (scale e ticks)
          then some
              (writes (request_var_values_between c ticks var (scale s ticks) (scale e ticks)) ∷ [])
          else none)
      else none

module _ {W D : Type 0} where
  unfoldable pub val_at : VarValuesModel W D → ℤ → Option (VarValueModel W D)
  unfolding at_index
  val_at m index = at_index m.vals index

  abbrev pub vals_size : VarValuesModel W D → ℕ
  vals_size m = length m.vals

  -- `add_val` and `clear_vals` are ignored.
  abbrev pub add_val : VarValueModel W D → VarValuesModel W D → VarValuesModel W D
  add_val val m = m

  abbrev pub clear_vals : VarValuesModel W D → VarValuesModel W D
  clear_vals m = m
