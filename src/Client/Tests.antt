-- ===== src/Client/Tests.antt =====
-- The theorems on the client at concrete answers.
use daqs.Base.{map, ℕ, ◌≡◌, ◌≤◌, ◌<◌, ◌⊎◌, refl, ◌++◌, none, some, List, [], ◌∷◌, arith, length}
use daqs.DataModel.{VarValue}
use daqs.DataModel.Floats.{Fraction}
use daqs.Protocol.Plain.{plain_codec, plain_codec-IsProtobuf}
use daqs.Protocol.Frame.{frame, header_bytes, meta_bytes}
use daqs.Client.Connection.{Client, new_client}
use daqs.Client.Machine.{Packet, packet_bytes, packets, Heard, one_for_each}
use daqs.Exchange.{Answer, status, values, answer_bytes, answer_body}
use daqs.Client.{on_ready_read, read_body, gave_up}
use daqs.Client.Reading.{pending, ReadsRest}
use daqs.Client.Answers.{signal_of, answer_received, empty_answer_silent}
use daqs.Client.Reading.Ends.{read_body_ends}
use daqs.Client.Answers.Cut.{cut_answer_silent}
use daqs.Protocol.{MessageType, ResponseStatus}
use daqs.Client.Slow.{slow_socket, slow_socket-IsStream, arriving, Line}

abbrev measured : VarValue Fraction
measured = record {
  variable = record { name = "temp"; color = "#f00" };
  val = record { num = 21; den = 2 };
  timestamp = 1500;
}

abbrev answer : Answer Fraction
answer = values (measured ∷ [])

abbrev line : Line
line = arriving 4 (answer_bytes plain_codec answer ++ 9 ∷ [])

answer_received_example :
    let r = on_ready_read plain_codec slow_socket 100 line in
    (r.0 ≡ some (signal_of answer)) × (pending slow_socket slow_socket-IsStream r.1 ≡ 9 ∷ [])
unfolding plain_codec frame slow_socket-IsStream
answer_received_example =
    answer_received slow_socket slow_socket-IsStream plain_codec plain_codec-IsProtobuf 100 answer
      (9 ∷ []) line (omega arith, omega arith) (omega arith) (omega arith, omega arith, omega arith)
      refl

abbrev silent_line : Line
silent_line = arriving 3 (answer_bytes plain_codec (values []) ++ 9 ∷ [])

empty_answer_silent_example :
    let r = on_ready_read plain_codec slow_socket 100 silent_line in
    (r.0 ≡ none) × (pending slow_socket slow_socket-IsStream r.1 ≡ 9 ∷ [])
unfolding plain_codec frame slow_socket-IsStream
empty_answer_silent_example =
    empty_answer_silent slow_socket slow_socket-IsStream plain_codec plain_codec-IsProtobuf 100 []
      (9 ∷ []) silent_line refl (omega arith, omega arith) (omega arith) refl

-- Two bytes of four come.
read_body_ends_example :
    ((4 ≤ length (pending slow_socket slow_socket-IsStream (arriving 1 (1 ∷ 2 ∷ []))))
      × ReadsRest slow_socket slow_socket-IsStream 9 4 [] (arriving 1 (1 ∷ 2 ∷ [])))
    ⊎ ((length (pending slow_socket slow_socket-IsStream (arriving 1 (1 ∷ 2 ∷ []))) < 4)
        × ((read_body slow_socket 9 4 [] (arriving 1 (1 ∷ 2 ∷ []))).0 ≡ gave_up))
read_body_ends_example =
    read_body_ends slow_socket slow_socket-IsStream 9 4 [] (arriving 1 (1 ∷ 2 ∷ [])) (omega arith)
      (omega arith)

abbrev body_of : List ℕ
body_of = (answer_body plain_codec answer).1

-- The headers are there, and of the body one byte.
abbrev cut_line : Line
cut_line = arriving 3 (
    meta_bytes plain_codec MessageType.response_values body_of
    ++ (header_bytes plain_codec MessageType.response_values body_of ++ 1 ∷ []))

cut_answer_silent_example : (on_ready_read plain_codec slow_socket 100 cut_line).0 ≡ none
unfolding plain_codec slow_socket-IsStream
cut_answer_silent_example =
    cut_answer_silent slow_socket slow_socket-IsStream plain_codec plain_codec-IsProtobuf 100 answer
      (1 ∷ []) cut_line (omega arith, omega arith) (omega arith) (omega arith) (omega arith)
      (omega arith) refl

-- Two packets: two answers come in the first one, and one in the other.
abbrev done : Answer Fraction
done = status "Ok" ResponseStatus.ok none

abbrev burst : List (Packet plain_codec)
burst = (answer, done ∷ []) ∷ (done, []) ∷ []

abbrev arrive : List ℕ → Line → Line
arrive bs k = record k { here = k.here ++ bs }

abbrev idle : Client Line
idle = new_client "127.0.0.1" 4444 (arriving 0 [])

one_for_each_example :
    Heard plain_codec slow_socket-IsStream
      (answer ∷ done ∷ [])
      (done ∷ [])
      (packets plain_codec slow_socket 100 arrive (map (packet_bytes plain_codec) burst) idle)
unfolding plain_codec slow_socket-IsStream
one_for_each_example =
    one_for_each plain_codec plain_codec-IsProtobuf slow_socket slow_socket-IsStream 99 arrive
      (λ bs k. refl) burst idle refl
      (
        ((omega arith, omega arith), omega arith),
        (
          ((omega arith, omega arith), omega arith),
          (((omega arith, omega arith), omega arith), tt),
        ),
      )
      refl
