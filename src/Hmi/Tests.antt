-- ===== src/Hmi/Tests.antt =====
-- The models with colors that are their names and dates that are numbers of milliseconds: runs, and
-- the theorems at concrete inputs.
use mathlib.Core.Path.{subst}
use daqs.Client.Slow.{slow_socket, slow_socket-IsStream, arriving, Line}
use daqs.Client.Connection.{new_client}
use daqs.Client.Listen.{Fits}
use daqs.Hmi.Events.{chosen, has_come, Program, happen_all}
use daqs.Hmi.Answered.{ShowsAnswer}
use text.Mathlib.Text.{◌==◌ as str_eq}
use daqs.Base.{ℕ, sym, inl, inr, false, ◌≡◌, refl, String, some, List, [], ◌∷◌, ◌++◌, map, arith}
use daqs.Base.Int.{ℤ, pos, scale}
use daqs.DataModel.{Variable, VarValue}
use daqs.DataModel.Floats.{Fraction, fraction_double, Fraction-IsIeee}
use daqs.DataSource.Tables.{id_of, of_variable, seen_variable}
use daqs.DataSource.Memory.{Memory, memory, memory-IsSql, sample_memory}
use daqs.DataAccess.Represents.{source_access}
use daqs.DataAccess.Sample.{known_variables, known_values}
use daqs.DataAccess.Fetch.{Shows}
use daqs.DataAccess.Ranges.{values_in}
use daqs.Protocol.{MessageType, ResponseStatus}
use daqs.Protocol.Plain.{plain_codec, plain_codec-IsProtobuf}
use daqs.Exchange.{status, values, variables, answer_bytes}
use daqs.Session.{writing, max_values_ammount}
use daqs.Session.Stream.{receive_message}
use daqs.Client.Answers.{signal_of}
use daqs.Hmi.{QColor, Output, writes, VarModel}
use daqs.Hmi.VarsModel.{add_var, model_of}
use daqs.Hmi.App.{App, on_signal}
use daqs.Hmi.Shown.{history_shown, added_variable_shown}

abbrev arrive : List ℕ → Line → Line
arrive bs k = record k { here = k.here ++ bs }

abbrev named_colors : QColor String
named_colors = record { named = λ t. t; name = λ t. t; same = str_eq }

abbrev msecs : ℤ → ℤ
msecs t = t

abbrev red : VarModel String
red = record { name = "temp"; color = "#ff0000" }

abbrev blue : VarModel String
blue = record { name = "humidity"; color = "#0000ff" }

abbrev app : App Fraction String ℤ
app = record { data_layer = record { vals = [] }; vars_model = record { vars = red ∷ [] } }

-- A client that waits for the answer.
abbrev waiting : Program Fraction String ℤ Line
waiting = record { app = app; client = new_client "127.0.0.1" 4444 (arriving 0 []); timer = false }

abbrev in_range : List (VarValue Fraction)
in_range = values_in memory memory-IsSql 1 (pos 1500) (pos 2500) known_values

small_view :
    (view : List (VarValue Fraction))
    → Shows max_values_ammount in_range view
    → Fits plain_codec (values view)
unfolding plain_codec memory-IsSql of_variable
small_view view (inl (_, all)) =
    subst (λ vs. Fits plain_codec (values vs)) (sym all) ((omega arith, omega arith), omega arith)
small_view view (inr (more, _)) = absurd (omega arith)

history_shown_example :
    let da = source_access memory memory-IsSql 200 in
    (bytes answer : List ℕ) × (r : List (VarValue Fraction)) × (s' : Memory) × (p' : Program
      Fraction String ℤ Line)
    × (out : List Output) × (happen_all plain_codec named_colors msecs memory.ticks slow_socket 100
          arrive
          (chosen "temp" (pos 1500) (pos 2500) ∷ has_come answer ∷ [])
          waiting
        ≡ some (p', writes bytes ∷ out))
    × (receive_message plain_codec da memory.ticks (bytes ++ []) sample_memory
        ≡ some (writing answer, [], s'))
    × Shows max_values_ammount in_range r
    × ShowsAnswer msecs r app p'.app out
    × (slow_socket-IsStream.buffered p'.client.socket ≡ [])
unfolding memory memory-IsSql id_of of_variable scale plain_codec slow_socket-IsStream
history_shown_example =
    history_shown plain_codec plain_codec-IsProtobuf memory memory-IsSql named_colors msecs 200
      slow_socket slow_socket-IsStream 99 arrive (λ bs k. refl) refl Fraction-IsIeee "temp"
      (pos 1500) (pos 2500) 1 known_variables known_values sample_memory waiting (omega arith) refl
      refl (omega arith, omega arith) (refl, refl, refl, (omega arith, (omega arith, tt)))
      (omega arith) refl refl (omega arith) (λ even. omega arith) small_view

added_variable_shown_example :
    let da = source_access memory memory-IsSql 200 in
    let ok = status "Ok" ResponseStatus.ok (some MessageType.request_add_var) in
    (bytes bytes' : List ℕ) × (vars : List Variable) × (s' s1 : Memory) × (add_var named_colors
        plain_codec blue
      ≡ writes bytes ∷ [])
    × (receive_message plain_codec da memory.ticks (bytes ++ []) sample_memory
        ≡ some (writing (answer_bytes plain_codec ok), [], s'))
    × (on_signal plain_codec named_colors msecs (signal_of ok) app ≡ (app, writes bytes' ∷ []))
    × (receive_message plain_codec da memory.ticks (bytes' ++ []) s'
        ≡ some (writing (answer_bytes plain_codec (variables vars)), [], s1))
    × ((on_signal plain_codec named_colors msecs (signal_of (variables vars)) app).0.vars_model.vars
        ≡ map (model_of named_colors) (map seen_variable known_variables) ++ blue ∷ [])
unfolding memory-IsSql id_of plain_codec
added_variable_shown_example =
    added_variable_shown plain_codec plain_codec-IsProtobuf memory memory-IsSql named_colors msecs
      200 blue known_variables sample_memory app app refl (omega arith, omega arith)
      (omega arith, omega arith) refl refl
