-- ===== src/Server/ClientsTests.antt =====
-- The theorems on all clients of the server, for two of them: one saves a value and asks for the
-- values, the other asks for the variables.
use daqs.Base.{ℕ, ◌*◌, ◌≤◌, zero, suc, List, [], ◌∷◌, length, All, arith}
use daqs.DataModel.Floats.{Fraction, fraction_double, Fraction-IsIeee}
use daqs.DataSource.Memory.{memory, memory-IsSql, sample_memory, half}
use daqs.DataSource.History.{view}
use daqs.DataAccess.Represents.{source_access}
use daqs.DataAccess.Sample.{known_variables, known_values, sample-Represents, memory-HasClock}
use daqs.Protocol.Plain.{plain_codec, plain_codec-IsProtobuf}
use daqs.Exchange.{Request, save_val, all_values, all_vars}
use daqs.Exchange.Sample.{sample-HasRoom}
use daqs.Server.Network.{turns}
use daqs.Server.Log.{count}
use daqs.Server.Stage.{Small}
use daqs.Server.Clients.{OneHistory, begun, everyone_served, everyone_answered}
use daqs.Server.Outcome.{ServedAt, AnsweredAt}

abbrev asked : ℕ → List (Request Fraction)
asked zero = save_val "temp" (half 47) ∷ all_values "temp" ∷ []
asked (suc zero) = all_vars ∷ []
asked (suc (suc j)) = []

asked-Small : (j : ℕ) → All (Small plain_codec 1000000) (asked j)
unfolding plain_codec
asked-Small zero = (((omega arith, omega arith), tt), (((omega arith, omega arith), tt), tt))
asked-Small (suc zero) = (((omega arith, omega arith), tt), tt)
asked-Small (suc (suc j)) = tt

abbrev order : List ℕ
order = 0 ∷ 1 ∷ 1 ∷ 0 ∷ 1 ∷ 0 ∷ 0 ∷ 0 ∷ 1 ∷ 0 ∷ 0 ∷ 0 ∷ []

enough_turns : (j : ℕ) → 4 * length (asked j) ≤ count j order
enough_turns zero = omega arith
enough_turns (suc zero) = omega arith
enough_turns (suc (suc j)) = omega arith

everyone_served_example :
    OneHistory memory memory-IsSql 200 plain_codec
      (λ j o wr log. ServedAt plain_codec 1000000 o wr (asked j) j log)
      (turns plain_codec
        (source_access memory memory-IsSql 200)
        1000000
        (0 ∷ 1 ∷ 0 ∷ 0 ∷ [])
        (begun memory memory-IsSql 200 plain_codec 2 asked sample_memory))
      (view known_variables known_values)
unfolding memory plain_codec
everyone_served_example =
    everyone_served memory memory-IsSql 200 plain_codec plain_codec-IsProtobuf (omega arith)
      Fraction-IsIeee (omega arith) (omega arith) memory-HasClock 2 asked (0 ∷ 1 ∷ 0 ∷ 0 ∷ [])
      sample_memory (view known_variables known_values) (sample-Represents 200)
      (λ name. omega (arith, sample-HasRoom name)) asked-Small

everyone_answered_example :
    OneHistory memory memory-IsSql 200 plain_codec
      (λ j o wr log. AnsweredAt plain_codec 1000000 o wr (asked j) j log)
      (turns plain_codec
        (source_access memory memory-IsSql 200)
        1000000
        order
        (begun memory memory-IsSql 200 plain_codec 2 asked sample_memory))
      (view known_variables known_values)
unfolding memory plain_codec
everyone_answered_example =
    everyone_answered memory memory-IsSql 200 plain_codec plain_codec-IsProtobuf (omega arith)
      Fraction-IsIeee (omega arith) (omega arith) memory-HasClock 2 asked order sample_memory
      (view known_variables known_values) (sample-Represents 200)
      (λ name. omega (arith, sample-HasRoom name)) asked-Small enough_turns
