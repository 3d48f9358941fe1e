-- ===== src/Exchange/Sample.antt =====
-- The sample database has room for values.
use text.Mathlib.Text.{◌==◌ as str_eq}
use daqs.Base.{arith, inl, inr, Bool-cases}
use daqs.DataSource.Tables.{of_variable}
use daqs.DataSource.History.{view, values_of}
use daqs.DataAccess.Sample.{known_variables, known_values}
use daqs.Exchange.Story.{HasRoom}

pub sample-HasRoom : HasRoom 100 (view known_variables known_values)
unfolding values_of view of_variable
sample-HasRoom name = elim (Bool-cases (str_eq "temp" name)) [
  | inl e ↦ rw e (omega arith)
  | inr e ↦ rw e (omega arith)
]
