-- ===== src/Server/Tests.antt =====
-- The theorems on the server, at an engine in memory.
use daqs.Base.{
  none, append-nil, ◌++◌, ◌∙◌, sym, ap, ℕ, ◌≡◌, refl, true, false, some, List, [], ◌∷◌, arith,
  length,
}
use daqs.DataModel.Floats.{fraction_double, Fraction-IsIeee}
use daqs.DataSource.Sqlite.{sqlite_source}
use daqs.DataSource.Memory.{Memory, memory, memory-IsSql, empty_memory, sample_memory, half}
use daqs.DataAccess.{fetch_variables}
use daqs.DataAccess.{data_access}
use daqs.Protocol.{MessageType}
use daqs.Protocol.Frame.{header_bytes, meta_bytes}
use daqs.Protocol.Plain.{plain_codec}
use daqs.Session.{Phase, did_read, step, on_body, read_get_variables_request}
use daqs.Server.System.{
  returns, serving, main, System, Action, did_accept, completed, react, react_all, with_phase,
  do_accept,
}
use daqs.Server.Replies.{requests-after, after}
use daqs.Server.Serial.{Body, bodies, worlds, serial, requests, Ends, react_all-serial}
use daqs.Server.Kept.{GoesOn}
use daqs.DataAccess.Represents.{source_access}
use daqs.DataAccess.Sample.{known_variables, known_values, sample-Represents, memory-HasClock}
use daqs.DataSource.History.{view, new_entry}
use daqs.Server.Life.{started-Grows, main_twice}
use mathlib.Core.Path.{subst}
use daqs.Exchange.Asked.{asked_by}
use daqs.Server.Linear.{requests-next, AllDates, Linear, linearized}
use daqs.Exchange.Sample.{sample-HasRoom}
use daqs.Server.Swap.{react_all_swap}
use daqs.Server.{accepting, temp, server}

-- Two sessions that save values and a third connection that fails, all interleaved.
abbrev saved : ℕ → List ℕ
saved n = plain_codec.save_value.serialize (record { variable = "temp"; value = half n })

abbrev request : MessageType
request = MessageType.request_save_value

abbrev meta : ℕ → List ℕ
meta n = meta_bytes plain_codec request (saved n)

abbrev header : ℕ → List ℕ
header n = header_bytes plain_codec request (saved n)

abbrev acts : List Action
acts =
    did_accept false
    ∷ did_accept false
    ∷ completed 0 (did_read false (meta 45))
    ∷ completed 1 (did_read false (meta 47))
    ∷ did_accept true
    ∷ completed 1 (did_read false (header 47))
    ∷ completed 0 (did_read false (header 45))
    ∷ completed 1 (did_read false (saved 47))
    ∷ completed 0 (did_read false (saved 45))
    ∷ []

abbrev idle : System Memory
idle = record { sessions = []; world = sample_memory }

react_all-serial_example :
    let da = data_access (sqlite_source memory) 9 in
    (worlds plain_codec da 1000000 (react_all plain_codec da 1000000 acts idle)
      ≡ serial plain_codec da 1000000 (requests plain_codec da 1000000 acts idle) idle.world)
    × Ends plain_codec da 1000000 (react_all plain_codec da 1000000 acts idle)
react_all-serial_example =
    react_all-serial plain_codec (data_access (sqlite_source memory) 9) 1000000 acts idle tt

abbrev two_idle : System Memory
two_idle = record {
  sessions = Phase.reading_meta ∷ Phase.reading_body request (length (saved 47)) ∷ [];
  world = sample_memory;
}

react_all_swap_example :
    let da = data_access (sqlite_source memory) 9 in
    let first = completed 0 (did_read false (meta 45)) in
    let second = completed 1 (did_read false (saved 47)) in
    react_all plain_codec da 1000000 (first ∷ second ∷ []) two_idle
    ≡ react_all plain_codec da 1000000 (second ∷ first ∷ []) two_idle
react_all_swap_example =
    react_all_swap plain_codec (data_access (sqlite_source memory) 9) 1000000 0 1
      (did_read false (meta 45)) (did_read false (saved 47)) [] two_idle
      (λ e. absurd (omega (arith, e))) refl

started-Grows_example :
    (s' : Memory) × (server memory "/tmp/sql.db" empty_memory ≡ some (accepting, s'))
    × GoesOn plain_codec memory memory-IsSql 9 1000000 memory-HasClock (new_entry temp ∷ []) (
        react_all plain_codec
          (source_access memory memory-IsSql 9)
          1000000
          acts
          (record { sessions = []; world = s' }))
unfolding memory memory-IsSql
started-Grows_example =
    started-Grows memory memory-IsSql 9 plain_codec memory-HasClock "/tmp/sql.db" acts empty_memory
      (refl, refl) refl refl

main_twice_example :
    (s' s2 : Memory) × (main memory 2 empty_memory ≡ some (serving s'))
    × (main memory 2 s' ≡ some (returns 0 "Unable to create schema." s2))
    × (memory-IsSql.tables s2 ≡ memory-IsSql.tables s')
    × (main memory 1 empty_memory
        ≡ some (returns 1 "Usage: async_tcp_echo_server <port>" empty_memory))
unfolding memory memory-IsSql
main_twice_example =
    main_twice memory memory-IsSql 9 1 empty_memory (λ s. (refl, refl)) refl refl refl

-- One session saves a value while another asks for the variables.
abbrev asked : List ℕ
asked = plain_codec.get_variables.serialize (record {})

abbrev both : System Memory
both = record {
  sessions =
      Phase.reading_body request (length (saved 45))
      ∷ Phase.reading_body MessageType.request_get_variables (length asked)
      ∷ [];
  world = sample_memory;
}

abbrev mixed : List Action
mixed =
    did_accept false
    ∷ completed 1 (did_read false asked)
    ∷ completed 2 (did_read true [])
    ∷ completed 0 (did_read false (saved 45))
    ∷ []

last_request :
    (a : Action) (y : System Memory) (bs : List Body)
    → let da = source_access memory memory-IsSql 200 in
      bodies plain_codec da 1000000 a y ≡ bs → requests plain_codec da 1000000 (a ∷ []) y ≡ bs
unfolding requests
last_request a y bs e =
    let da = source_access memory memory-IsSql 200 in
    requests-after plain_codec da 1000000 a [] y bs e
    ∙ elim (react plain_codec da 1000000 a y)
        as (λ o. bs ++ after o (requests plain_codec da 1000000 []) ≡ bs) [
          | none ↦ append-nil bs
          | some y' ↦ append-nil bs
        ]

mixed-requests :
    requests plain_codec (source_access memory memory-IsSql 200) 1000000 mixed both
    ≡ (MessageType.request_get_variables, asked) ∷ (request, saved 45) ∷ []
unfolding react step on_body read_get_variables_request with_phase do_accept plain_codec memory
    daqs.DataAccess.fetch_variables daqs.DataSource.Sqlite.fetch_variables
    daqs.DataSource.Sqlite.variable_callback daqs.DataSource.Sqlite.variable_row
    daqs.DataSource.Sql.walk
mixed-requests =
    let next = requests-next memory memory-IsSql 200 plain_codec in
    next (did_accept false) _ both _ [] refl refl
    ∙ (next (completed 1 (did_read false asked)) _ _ _
          ((MessageType.request_get_variables, asked) ∷ []) refl refl
        ∙ ap (λ bs. (MessageType.request_get_variables, asked) ∷ bs)
            (next (completed 2 (did_read true [])) _ _ _ [] refl refl
              ∙ last_request (completed 0 (did_read false (saved 45))) _ ((request, saved 45) ∷ [])
                  refl))

linearized_example :
    Linear memory memory-IsSql 200 plain_codec mixed both
      (requests plain_codec (source_access memory memory-IsSql 200) 1000000 mixed both)
      (view known_variables known_values)
unfolding memory asked_by
linearized_example =
    linearized memory memory-IsSql 200 plain_codec Fraction-IsIeee (omega arith) (omega arith)
      memory-HasClock mixed both (view known_variables known_values) (tt, (tt, tt))
      (sample-Represents 200)
      (subst (AllDates memory memory-IsSql 200 plain_codec) (sym mixed-requests) (tt, (tt, tt)))
      (λ name. omega (arith, sample-HasRoom name, ap length mixed-requests))
