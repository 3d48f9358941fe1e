-- ===== src/Server/LoopTests.antt =====
-- The theorems on the server's event loop and on dates, at concrete requests.
use daqs.Base.{ℕ, ◌↔◌, ap, String, ◌≡◌, ◌⊎◌, refl, false, none, some, List, [], ◌∷◌, arith, length}
use daqs.Base.Int.{pos, scale}
use daqs.DataModel.Floats.{Fraction, fraction_double, Fraction-IsIeee}
use daqs.DataSource.Memory.{Memory, memory, memory-IsSql, sample_memory}
use daqs.DataSource.Sqlite.{sqlite_source}
use daqs.DataAccess.{data_access}
use daqs.DataAccess.Interface.{IDataAccess}
use daqs.Protocol.{MessageType}
use daqs.Protocol.Plain.{plain_codec}
use daqs.Session.{Phase, did_read}
use daqs.Server.System.{System, Action, did_accept, completed, react, react_all, do_accept, returns}
use daqs.Server.Loop as Loops
use daqs.Server.Loop.{run_loop, announced_stops}
use daqs.Server.Limits.{ServesOn, Stops, run_loop-outcome}
use daqs.Server.Serial.{requests}
use daqs.Server.Linear.{AllDates}
use daqs.DataAccess.Represents.{source_access}
use daqs.DataAccess.Sample.{known_variables, known_values, sample-Represents, memory-HasClock}
use daqs.DataSource.History.{view}
use daqs.Exchange.Sample.{sample-HasRoom}
use daqs.Session.{step, on_body, read_get_values_request, get_values}
use daqs.Server.Dates.{react_all_undefined}

abbrev da : IDataAccess Fraction Memory
da = data_access (sqlite_source memory) 9

abbrev idle : System Memory
idle = record { sessions = []; world = sample_memory }

-- The announcement of a header of 100 bytes, where 64 can be had.
abbrev announcement : List ℕ
announcement = plain_codec.meta.serialize 100

-- The text of the exception.
abbrev what : ℕ → String
what n = "std::bad_alloc"

announced_stops_example :
    run_loop plain_codec da 1000000 64 what
      (did_accept false ∷ completed 0 (did_read false announcement) ∷ did_accept false ∷ [])
      idle
    ≡ some (Loops.ended (returns 0 "std::bad_alloc" sample_memory))
unfolding run_loop react do_accept plain_codec
announced_stops_example =
    announced_stops plain_codec da 1000000 64 what (did_accept false ∷ []) (did_accept false ∷ []) 0
      announcement idle (record { sessions = Phase.reading_meta ∷ []; world = sample_memory }) refl
      refl refl (omega arith)

abbrev acts : List Action
acts = did_accept false ∷ completed 0 (did_read false announcement) ∷ did_accept false ∷ []

run_loop-outcome_example :
    ServesOn plain_codec da 1000000 64 what acts idle
    ⊎ Stops plain_codec da 1000000 64 what acts idle
run_loop-outcome_example = run_loop-outcome plain_codec da 1000000 64 what acts idle tt tt

-- The end is 2^62 milliseconds after the epoch, which a message can hold.
abbrev far : List ℕ
far =
    plain_codec.get_values.serialize
      (record { variable = "temp"; start = some (pos 0); end = some (pos 4611686018427387904) })

abbrev asking : System Memory
asking = record {
  sessions = Phase.reading_body MessageType.request_get_values (length far) ∷ [];
  world = sample_memory;
}

abbrev source : IDataAccess Fraction Memory
source = source_access memory memory-IsSql 200

abbrev ask : List Action
ask = completed 0 (did_read false far) ∷ []

ask-requests :
    requests plain_codec source 1000000 ask asking ≡ (MessageType.request_get_values, far) ∷ []
unfolding requests react step on_body read_get_values_request get_values plain_codec scale
ask-requests = refl

react_all_undefined_example :
    let bodies = requests plain_codec source 1000000 ask asking in
    (react_all plain_codec source 1000000 ask asking ≡ none)
    ↔ (¬ AllDates memory memory-IsSql 200 plain_codec bodies)
unfolding memory
react_all_undefined_example =
    react_all_undefined memory memory-IsSql 200 plain_codec Fraction-IsIeee (omega arith)
      (omega arith) memory-HasClock ask asking (view known_variables known_values) (tt, tt)
      (sample-Represents 200) (λ name. omega (arith, sample-HasRoom name, ap length ask-requests))
