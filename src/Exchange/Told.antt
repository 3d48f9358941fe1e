-- ===== src/Exchange/Told.antt =====
-- The server over SQLite keeps the promise of Story, over the wire.
use daqs.Base.{ℕ, ◌≤◌, ◌<◌, ◌≡◌, ◌∙◌, arith, some, List, [], ◌∷◌, map, length, All}
use daqs.DataModel.Floats.{Double, IsIeee}
use daqs.DataSource.Engine.{Engine}
use daqs.DataSource.Sql.{IsSql}
use daqs.DataSource.History.{History}
use daqs.DataAccess.Represents.{Represents, HasClock, source_access}
use daqs.Protocol.{Codec, IsProtobuf}
use daqs.Session.{max_values_ammount}
use daqs.Session.Series.{serve, sent_all, series_served}
use daqs.Exchange.{Request, Answer, request_body, answer_bytes, IsSmall, HasDates}
use daqs.Exchange.Conversation.{Conversation, meaning_all-Conversation}
use daqs.Exchange.Story.{Story, HasRoom, Said-HasRoom}
use daqs.Exchange.Answered.{request-Answered}

module _ {W S : Type 0} ⦃d : Double W⦄ (e : Engine W S) (sql : IsSql e) (max_size : ℕ)
    (ieee : IsIeee W) (room : max_values_ammount ≤ max_size) where
  open sql use {rounded}

  Conversation-Story :
      (h : History W) (rs : List (Request W)) (s : S)
      → 0 < e.ticks
      → HasClock e sql max_size
      → Represents e sql max_size s h
      → HasRoom (length rs) h
      → (ans : List (Answer W)) × (s' : S) × (h' : History W) × Conversation
          (source_access e sql max_size)
          e.ticks
          rs
          ans
          s
          s'
        × Story rounded e.ticks h rs ans h'
        × Represents e sql max_size s' h'
  Conversation-Story h [] s ticks clock rep few =
      ([], s, h, Conversation.silence s, Story.silence h, rep)
  Conversation-Story h (r ∷ rs) s ticks clock rep few =
      let (s1, h1, (a, means, said), rep1) =
        request-Answered e sql max_size ieee room h r s ticks clock rep
          (λ name. omega (arith, few name)) in
      let (ans, s2, h2, more, story, rep2) =
        Conversation-Story h1 rs s1 ticks clock rep1 (Said-HasRoom (length rs) said few) in
      (a ∷ ans, s2, h2, Conversation.asked means more, Story.said said story, rep2)

  -- The server over an SQLite database is a history of the variables. When a session is fed with the
  -- bytes of any requests, on a database that represents a history, it writes the bytes of answers,
  -- one for each request, and leaves the bytes behind; the answers are those that the history allows,
  -- request after request; and the database represents the history that results. An answer with values
  -- is a view of the variable's values, or of those in the range to the millisecond, in at most 120.
  -- The sizes and dates fit, time is not before the epoch and fits, and no variable comes to 14400
  -- values, counting the requests as well.
  pub promise_held :
      (c : Codec W) (law : IsProtobuf c) (h : History W) (rs : List (Request W)) (rest : List ℕ)
      (s : S)
      → 0 < e.ticks
      → HasClock e sql max_size
      → Represents e sql max_size s h
      → HasRoom (length rs) h
      → All (λ r. IsSmall c (request_body c e.ticks r) × HasDates r) rs
      → let da = source_access e sql max_size in
        (ans : List (Answer W)) × (s' : S) × (h' : History W) × (serve c da e.ticks
            (length rs)
            (sent_all c da e.ticks rs rest)
            s
          ≡ some (map (answer_bytes c) ans, rest, s'))
        × Story rounded e.ticks h rs ans h'
        × Represents e sql max_size s' h'
  promise_held c law h rs rest s ticks clock rep few small =
      let da = source_access e sql max_size in
      let (ans, s', h', means, story, rep') = Conversation-Story h rs s ticks clock rep few in
      (
        ans,
        s',
        h',
        series_served c da e.ticks law rs rest s small
            ∙ meaning_all-Conversation c da e.ticks rest means,
        story,
        rep',
      )
