-- ===== src/Hmi/LiveTests.antt =====
-- The running graphical program at concrete packets: two answers come in the first packet, one in the
-- other.
use text.Mathlib.Text.{◌==◌ as str_eq}
use daqs.Base.{◌≡◌, refl, ℕ, true, some, String, List, [], ◌∷◌, ◌++◌, map, arith}
use daqs.Base.Int.{ℤ, pos, scale}
use daqs.DataModel.{VarValue}
use daqs.DataModel.Floats.{Fraction}
use daqs.Protocol.Plain.{plain_codec, plain_codec-IsProtobuf}
use daqs.Exchange.{Answer, values, variables}
use daqs.Client.Slow.{slow_socket, slow_socket-IsStream, arriving, Line}
use daqs.Client.Listen.{heard, all_bytes}
use daqs.Client.Connection.{new_client}
use daqs.Client.Machine.{Packet, packet_bytes}
use daqs.Hmi.{QColor, Output, VarModel}
use daqs.Hmi.Events.{Happening, has_come, timed_out, chosen, appended, Program}
use daqs.Hmi.Latest.{Latest, run}
use daqs.Hmi.Behind.{first_shown}

abbrev named_colors : QColor String
named_colors = record { named = λ t. t; name = λ t. t; same = str_eq }

abbrev msecs : ℤ → ℤ
msecs t = t

abbrev red : VarModel String
red = record { name = "temp"; color = "#ff0000" }

abbrev measured : ℕ → VarValue Fraction
measured n = record {
  variable = record { name = "temp"; color = "color" };
  val = record { num = n; den = 2 };
  timestamp = 1500;
}

abbrev named : Answer Fraction
named = variables (record { name = "temp"; color = "#ff0000" } ∷ [])

abbrev burst : List (Packet plain_codec)
burst = (values (measured 3 ∷ []), named ∷ []) ∷ (values (measured 5 ∷ []), []) ∷ []

abbrev happenings : List (Happening String)
happenings =
    timed_out
    ∷ has_come (packet_bytes plain_codec (values (measured 3 ∷ []), named ∷ []))
    ∷ chosen "temp" (pos 1500) (pos 2500)
    ∷ has_come (packet_bytes plain_codec (values (measured 5 ∷ []), []))
    ∷ appended red
    ∷ []

abbrev arrive : List ℕ → Line → Line
arrive bs k = record k { here = k.here ++ bs }

abbrev started : Program Fraction String ℤ Line
started = record {
  app = record { data_layer = record { vals = [] }; vars_model = record { vars = [] } };
  client = new_client "127.0.0.1" 4444 (arriving 0 []);
  timer = true;
}

-- The values of the second packet are not shown.
first_shown_example :
    (p' : Program Fraction String ℤ Line) × (out : List Output) × (run plain_codec named_colors
        msecs 1000000 slow_socket 100 arrive happenings started
      ≡ some (p', out))
    × Latest named_colors msecs
        (map (heard plain_codec) (values (measured 3 ∷ []) ∷ named ∷ []))
        started.app
        p'.app
    × (slow_socket-IsStream.buffered p'.client.socket
        ≡ all_bytes plain_codec (values (measured 5 ∷ []) ∷ []) [])
unfolding slow_socket-IsStream plain_codec scale
first_shown_example =
    first_shown plain_codec named_colors msecs 1000000 slow_socket 99 arrive plain_codec-IsProtobuf
      slow_socket-IsStream (λ bs k. refl) burst happenings started
      (tt, (tt, ((refl, refl), (tt, (tt, tt))))) refl
      (
        ((omega arith, omega arith), omega arith),
        (
          ((omega arith, omega arith), omega arith),
          (((omega arith, omega arith), omega arith), tt),
        ),
      )
      refl refl
