-- ===== src/Exchange/Conversation.antt =====
-- Several exchanges over the two programs: requests, answers, signals.
use daqs.Base.{ℕ, suc, ◌≡◌, ◌∙◌, refl, some, List, [], ◌∷◌, map, length, All}
use daqs.DataAccess.Interface.{IDataAccess}
use daqs.Protocol.{Codec, IsProtobuf}
use daqs.Exchange.{Request, Answer, request_body, IsSmall, HasDates, answer_bytes, meaning}
use daqs.Session.Series.{serve, sent_all, meaning_all, series_served}
use daqs.Client.{Socket}
use daqs.Client.Reading.{IsStream}
use daqs.Client.Listen.{listen, heard, all_bytes, Fits, answers_heard}

module _ {W S : Type 0} (da : IDataAccess W S) (ticks : ℕ) where
  -- Requests with the answers that they mean, each on the world that the one before leaves.
  pub data Conversation : List (Request W) → List (Answer W) → S → S → Type 0 where
    silence : (s : S) → Conversation [] [] s s
    asked :
        {r : Request W} {a : Answer W} {rs : List (Request W)} {ans : List (Answer W)}
        {s s' s'' : S}
        → meaning da ticks r s ≡ some (a, s')
        → Conversation rs ans s' s''
        → Conversation (r ∷ rs) (a ∷ ans) s s''

module _ {W S : Type 0} (c : Codec W) (da : IDataAccess W S) (ticks : ℕ) where
  pub meaning_all-Conversation :
      {rs : List (Request W)} {ans : List (Answer W)} {s s' : S} (rest : List ℕ)
      → Conversation da ticks rs ans s s'
      → meaning_all c da ticks rs rest s ≡ some (map (answer_bytes c) ans, rest, s')
  unfolding meaning_all
  meaning_all-Conversation rest (Conversation.silence s) = refl
  meaning_all-Conversation rest (Conversation.asked means more) =
      rw (means, meaning_all-Conversation rest more) refl

  -- In a conversation whose sizes and dates fit, the session that is fed with the bytes of all the
  -- requests writes the bytes of all the answers, in this order, and leaves the world as the last
  -- request does; and the client that has these bytes in the buffer of its socket emits, in as many
  -- calls of its slot, the signals that the answers mean (none for a list whose body is empty on the
  -- wire). Neither reads the bytes behind.
  pub dialogue_heard :
      {K : Type 0} (law : IsProtobuf c) (sock : Socket K) (str : IsStream sock) (fuel : ℕ)
      (rs : List (Request W)) (ans : List (Answer W)) (s s' : S) (rest rest' : List ℕ) (k : K)
      → Conversation da ticks rs ans s s'
      → All (λ r. IsSmall c (request_body c ticks r) × HasDates r) rs
      → All (Fits c) ans
      → str.buffered k ≡ all_bytes c ans rest'
      → let r = listen c sock (suc fuel) (length ans) k in
        (serve c da ticks (length rs) (sent_all c da ticks rs rest) s
          ≡ some (map (answer_bytes c) ans, rest, s'))
        × (r.0 ≡ map (heard c) ans)
        × (str.buffered r.1 ≡ rest')
  dialogue_heard law sock str fuel rs ans s s' rest rest' k means small fits there =
      let (signals, left) = answers_heard sock str c law fuel ans rest' k fits there in
      (
        series_served c da ticks law rs rest s small ∙ meaning_all-Conversation rest means,
        signals,
        left,
      )
