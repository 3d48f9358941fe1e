-- ===== src/Exchange/Whole.antt =====
-- One exchange over the two programs: request, answer, signal.
use daqs.Base.{ℕ, ◌≡◌, ◌≤◌, refl, some, List, [], ◌++◌, length}
use daqs.DataAccess.Interface.{IDataAccess}
use daqs.Protocol.{Codec, IsProtobuf}
use daqs.Exchange.{
  Request, Answer, sent, request_body, IsSmall, HasDates, answer_body, answer_bytes, meaning,
}
use daqs.Session.{writing}
use daqs.Session.Stream.{receive_message}
use daqs.Session.Serve.{request_served}
use daqs.Client.{Socket, int_max, on_ready_read}
use daqs.Client.Reading.{IsStream, pending}
use daqs.Client.Answers.{IsReadable, signal_of, answer_received}

module _ {W S K : Type 0} (c : Codec W) (law : IsProtobuf c) (da : IDataAccess W S) (ticks : ℕ)
    (sock : Socket K) (str : IsStream sock) (fuel : ℕ) where
  -- If a request means a call of the data access with the answer `a`, the session that is fed with
  -- the client's bytes writes some bytes, and the client whose socket gets these bytes (a status
  -- whole; a list, whose body must not be empty, in any pieces behind the headers), emits the
  -- signal that `a` means and is left with the bytes behind. The sizes and the dates fit, and the
  -- fuel is two rounds for each byte.
  pub request_answered :
      (r : Request W) (a : Answer W) (s s' : S) (rest : List ℕ) (k : K)
      → IsSmall c (request_body c ticks r)
      → HasDates r
      → meaning da ticks r s ≡ some (a, s')
      → IsSmall c (answer_body c a)
      → length (answer_body c a).1 ≤ int_max
      → IsReadable sock str c law fuel a k
      → pending sock str k ≡ answer_bytes c a ++ rest
      → (f : List ℕ) × (receive_message c da ticks (sent c ticks r ++ []) s
          ≡ some (writing f, [], s'))
        × (pending sock str k ≡ f ++ rest)
        × ((on_ready_read c sock fuel k).0 ≡ some (signal_of a))
        × (pending sock str (on_ready_read c sock fuel k).1 ≡ rest)
  request_answered r a s s' rest k small dates means small' fits there arrived =
      let (signal, left) = answer_received sock str c law fuel a rest k small' fits there arrived in
      (
        answer_bytes c a,
        rw (request_served c law da ticks r [] s small dates, means) refl,
        arrived,
        signal,
        left,
      )
