-- ===== src/Session/Tests.antt =====
-- A data access that keeps the values in a list, a session on it with the codec of Plain, and the
-- theorems at concrete requests.
use daqs.Base.{◌≡◌, ◌++◌, true, false, none, some, List, [], ◌∷◌, arith}
use daqs.DataModel.{VarValue}
use daqs.DataModel.Floats.{Fraction}
use daqs.DataAccess.Interface.{AccessErr, IDataAccess}
use daqs.Protocol.{MessageType, ResponseStatus}
use daqs.Protocol.Plain.{plain_codec, plain_codec-IsProtobuf}
use daqs.Exchange.{Request, save_val, all_values, sent, meaning}
use daqs.Session.{reading_body, writing, did_read, did_write, step, run, send_status_response}
use daqs.Session.Stream.{receive_message, with_rest}
use daqs.Session.Serve.{answers, request_served}
use daqs.Session.Series.{serve, sent_all, meaning_all, series_served}
use daqs.Session.Safety.{Follows, step-Follows, run_dead_socket}

abbrev Kept : Type 0
Kept = List (VarValue Fraction)

abbrev kept : IDataAccess Fraction Kept
kept = record {
  add_variable = λ var s. some (AccessErr.ok, s);
  add_variable_value = λ v s. some (AccessErr.ok, v ∷ s);
  fetch_variables = λ s. some ([], AccessErr.ok, s);
  fetch_variable_values = λ name max_len s. some (s, AccessErr.ok, s);
  fetch_variable_values_between = λ name start end max_len s. some (s, AccessErr.ok, s);
}

abbrev request : Request Fraction
request = save_val "temp" (record { num = 21; den = 2 })

request_served_example :
    receive_message plain_codec kept 1000000 (sent plain_codec 1000000 request ++ 7 ∷ []) []
    ≡ with_rest (7 ∷ []) (answers plain_codec (meaning kept 1000000 request []))
unfolding plain_codec
request_served_example =
    request_served plain_codec plain_codec-IsProtobuf kept 1000000 request (7 ∷ []) []
      (omega arith, omega arith) tt

step-Follows_example :
    Follows plain_codec kept 1000000
      (reading_body MessageType.request_add_var 4)
      (did_read false (1 ∷ []))
      []
      (step plain_codec kept 1000000
        (reading_body MessageType.request_add_var 4)
        (did_read false (1 ∷ []))
        [])
step-Follows_example =
    step-Follows plain_codec kept 1000000 (reading_body MessageType.request_add_var 4)
      (did_read false (1 ∷ [])) [] tt

run_dead_socket_example :
    run plain_codec kept 1000000
      (writing (1 ∷ 2 ∷ []))
      (did_write true 0 ∷ did_write true 1 ∷ [])
      []
    ≡ some (send_status_response plain_codec "writing response" ResponseStatus.failed none, [])
run_dead_socket_example =
    run_dead_socket plain_codec kept 1000000 (did_write true 1 ∷ []) (did_write true 0) (1 ∷ 2 ∷ [])
      [] (tt, (tt, tt))

abbrev requests : List (Request Fraction)
requests = request ∷ all_values "temp" ∷ []

series_served_example :
    serve plain_codec kept 1000000 2 (sent_all plain_codec kept 1000000 requests (7 ∷ [])) []
    ≡ meaning_all plain_codec kept 1000000 requests (7 ∷ []) []
unfolding plain_codec
series_served_example =
    series_served plain_codec kept 1000000 plain_codec-IsProtobuf requests (7 ∷ []) []
      (((omega arith, omega arith), tt), (((omega arith, omega arith), tt), tt))
