-- ===== src/Exchange/Tests.antt =====
-- The theorem on a whole exchange at a concrete request.
use daqs.Base.{◌≡◌, refl, none, some, map, List, [], ◌∷◌, ◌++◌, arith}
use daqs.DataModel.{VarValue}
use daqs.DataModel.Floats.{Fraction}
use daqs.DataAccess.Interface.{AccessErr, IDataAccess}
use daqs.Protocol.Plain.{plain_codec, plain_codec-IsProtobuf}
use daqs.Client.Slow.{slow_socket, slow_socket-IsStream, arriving, Line}
use daqs.Exchange.{
  add_var, values_between, Request, Answer, save_val, status, all_values, values, meaning,
  answer_bytes,
}
use daqs.Exchange.Conversation.{Conversation, dialogue_heard}
use daqs.Protocol.{ResponseStatus}
use daqs.Base.Int.{pos}
use daqs.DataModel.Floats.{Fraction-IsIeee, fraction_double}
use daqs.DataSource.Memory.{Memory, memory, memory-IsSql, sample_memory}
use daqs.DataSource.History.{History, view}
use daqs.DataAccess.Represents.{Represents, source_access}
use daqs.DataAccess.Sample.{known_variables, known_values, sample-Represents, memory-HasClock}
use daqs.Exchange.Story.{Story}
use daqs.Exchange.Sample.{sample-HasRoom}
use daqs.Exchange.Told.{promise_held}
use daqs.Session.Series.{serve, sent_all}
use daqs.Client.Listen.{listen, heard, all_bytes}

abbrev Kept : Type 0
Kept = List (VarValue Fraction)

abbrev kept : IDataAccess Fraction Kept
kept = record {
  add_variable = λ var s. some (AccessErr.ok, s);
  add_variable_value = λ v s. some (AccessErr.ok, v ∷ s);
  fetch_variables = λ s. some ([], AccessErr.ok, s);
  fetch_variable_values = λ name max_len s. some (s, AccessErr.ok, s);
  fetch_variable_values_between = λ name start end max_len s. some (s, AccessErr.ok, s);
}

abbrev two : Kept
two =
    record {
      variable = record { name = "temp"; color = "#f00" };
      val = record { num = 21; den = 2 };
      timestamp = 1000;
    }
    ∷ record {
      variable = record { name = "temp"; color = "#f00" };
      val = record { num = 11; den = 1 };
      timestamp = 2000;
    }
    ∷ []

-- The headers are there, and the body comes byte by byte.
abbrev line : Line
line = arriving 3 (answer_bytes plain_codec (values two) ++ 9 ∷ [])

-- A value is saved, then all values are asked for.
abbrev half : Fraction
half = record { num = 1; den = 2 }

abbrev saved : VarValue Fraction
saved = record { variable = record { name = "temp"; color = "color" }; val = half; timestamp = 0 }

abbrev requests : List (Request Fraction)
requests = save_val "temp" half ∷ all_values "temp" ∷ []

abbrev answers : List (Answer Fraction)
answers = status "Ok" ResponseStatus.ok none ∷ values (saved ∷ two) ∷ []

abbrev full : Line
full = record { here = all_bytes plain_codec answers (9 ∷ []); later = 8 ∷ [] }

dialogue_heard_example :
    let r = listen plain_codec slow_socket 1 2 full in
    (serve plain_codec kept 1000000 2 (sent_all plain_codec kept 1000000 requests (7 ∷ [])) two
      ≡ some (map (answer_bytes plain_codec) answers, 7 ∷ [], saved ∷ two))
    × (r.0 ≡ map (heard plain_codec) answers)
    × (slow_socket-IsStream.buffered r.1 ≡ 9 ∷ [])
unfolding plain_codec slow_socket-IsStream meaning
dialogue_heard_example =
    dialogue_heard plain_codec kept 1000000 plain_codec-IsProtobuf slow_socket slow_socket-IsStream
      0 requests answers two (saved ∷ two) (7 ∷ []) (9 ∷ []) full
      (Conversation.asked refl (Conversation.asked refl (Conversation.silence (saved ∷ two))))
      (((omega arith, omega arith), tt), (((omega arith, omega arith), tt), tt))
      (((omega arith, omega arith), omega arith), (((omega arith, omega arith), omega arith), tt))
      refl

-- On the database in memory: a variable is added and gets a value, and values are asked for.
abbrev told : List (Request Fraction)
told =
    add_var (record { name = "humidity"; color = "#00f" })
    ∷ save_val "humidity" half
    ∷ all_values "temp"
    ∷ values_between "temp" (pos 1500000000) (pos 2500000000)
    ∷ []

promise_held_example :
    let da = source_access memory memory-IsSql 200 in
    (ans : List (Answer Fraction)) × (s' : Memory) × (h' : History Fraction) × (serve plain_codec da
        1000000 4
        (sent_all plain_codec da 1000000 told (7 ∷ []))
        sample_memory
      ≡ some (map (answer_bytes plain_codec) ans, 7 ∷ [], s'))
    × Story memory-IsSql.rounded 1000000 (view known_variables known_values) told ans h'
    × Represents memory memory-IsSql 200 s' h'
unfolding memory plain_codec
promise_held_example =
    promise_held memory memory-IsSql 200 Fraction-IsIeee (omega arith) plain_codec
      plain_codec-IsProtobuf (view known_variables known_values) told (7 ∷ []) sample_memory
      (omega arith) memory-HasClock (sample-Represents 200)
      (λ name. omega (arith, sample-HasRoom name))
      (
        ((omega arith, omega arith), tt),
        (
          ((omega arith, omega arith), tt),
          (((omega arith, omega arith), tt), (((omega arith, omega arith), (refl, refl)), tt)),
        ),
      )
