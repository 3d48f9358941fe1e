-- ===== src/Hmi/VarsModel.antt =====
-- The class `VarsModel` (src/hmi/model/varsmodel.cc, varsmodel.h): the list of the variables. The
-- numeral that `QString::arg` writes is a parameter.

use Prim.Native.String.{◌++◌ as ◌++ₜ◌}
use daqs.Base.{
  ℕ, zero, suc, ◌+◌, ◌-◌, ◌%◌, ◌^◌, String, Option, some, List, [], ◌∷◌, ◌++◌, map, Bool, true,
  false, ◌==◌, if◌then◌else◌, length, get_elem?,
}
use daqs.Base.Int.{ℤ, pos, negsuc}
use daqs.DataModel.{Variable, new_variable}
use daqs.Protocol.{MessageType, ResponseStatus, Codec}
use daqs.Client.{send_var, request_vars}
use daqs.Hmi.{QColor, Output, vars_changed, writes, VarModel, new_var_model}

pub record VarsModel (C : Type 0) : Type 0 where
  pub vars : List (VarModel C)

-- The `switch` of the constructor.
abbrev pub color_at : ℕ → String
color_at i =
    if i % 5 == 0
    then "black"
    else if i % 5 == 1
    then "blue"
    else if i % 5 == 2
    then "yellow"
    else if i % 5 == 3
    then "green"
    else "cyan"

module _ {C : Type 0} (q : QColor C) where
  -- The loop of the constructor, with the number of rounds to go.
  unfoldable pub placeholders : (ℕ → String) → ℕ → ℕ → List (VarModel C)
  placeholders arg zero i = []
  placeholders arg (suc n) i =
      new_var_model ("aa " ++ₜ arg i) (q.named (color_at i)) ∷ placeholders arg n (i + 1)

  unfoldable pub new_vars_model : (ℕ → String) → VarsModel C × List Output
  unfolding placeholders
  new_vars_model arg = (record { vars = placeholders arg 1000 0 }, vars_changed ∷ [])

  -- The body of `std::transform`.
  abbrev pub model_of : Variable → VarModel C
  model_of var = new_var_model var.name (q.named var.color)

  unfoldable pub clear : VarsModel C → VarsModel C × List Output
  clear m = (record { vars = [] }, vars_changed ∷ [])

  -- The slot of `variablesReceived`: the list is replaced, and both signals are emitted.
  unfoldable pub on_variables_received : List Variable → VarsModel C → VarsModel C × List Output
  unfolding clear
  on_variables_received vars m =
      let (m', emitted) = clear m in
      (record { vars = m'.vars ++ map model_of vars }, emitted ++ vars_changed ∷ [])

  abbrev pub is_add_var : Option MessageType → Bool
  is_add_var (some MessageType.request_add_var) = true
  is_add_var _ = false

  module _ {W : Type 0} (c : Codec W) where
    -- The slot of `responseReceived`: a variable that was added is asked for.
    unfoldable pub on_response_received : Option MessageType → ResponseStatus → String → List Output
    on_response_received prev_msg ResponseStatus.ok msg =
        if is_add_var prev_msg then writes (request_vars c) ∷ [] else []
    on_response_received prev_msg _ msg = []

    -- `add_var`, which QML calls to append: the model itself does not change.
    unfoldable pub add_var : VarModel C → List Output
    add_var var = writes (send_var c (new_variable var.name (q.name var.color))) ∷ []

-- An `int` as the `size_t` that `vector::at` takes.
abbrev pub to_size_t : ℤ → ℕ
to_size_t (pos n) = n
to_size_t (negsuc n) = 2 ^ 64 - suc n

-- `vector::at`, which throws out of range.
unfoldable pub at_index : {A : Type 0} → List A → ℤ → Option A
at_index xs index = get_elem? xs (to_size_t index)

module _ {C : Type 0} where
  unfoldable pub var_at : VarsModel C → ℤ → Option (VarModel C)
  unfolding at_index
  var_at m index = at_index m.vars index

  abbrev pub vars_size : VarsModel C → ℕ
  vars_size m = length m.vars

  -- `clear_vars` is ignored.
  abbrev pub clear_vars : VarsModel C → VarsModel C
  clear_vars m = m
