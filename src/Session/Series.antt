-- ===== src/Session/Series.antt =====
-- A session that serves one request after the other: each message is received, and its response is
-- written in full before the next one is read.
use daqs.Base.{
  ℕ, zero, suc, ◌≡◌, refl, false, Option, none, some, List, [], ◌∷◌, ◌++◌, length, All, ==_refl,
}
use daqs.DataAccess.Interface.{IDataAccess}
use daqs.Protocol.{Codec, IsProtobuf}
use daqs.Exchange.{Request, Answer, sent, request_body, IsSmall, HasDates, answer_bytes, meaning}
use daqs.Session.{Phase, reading_meta, writing, did_write, step, on_write}
use daqs.Session.Stream.{Feed, with_rest, receive_message}
use daqs.Session.Serve.{answers, request_served}

-- The bytes of the responses, those that are not read yet, and the world.
abbrev pub Served : Type 0 → Type 0
Served S = Option (List (List ℕ) × List ℕ × S)

abbrev pub before_all : {S : Type 0} → List ℕ → Served S → Served S
before_all f none = none
before_all f (some (fs, rest, s)) = some (f ∷ fs, rest, s)

-- The phase after the write must be the next read.
abbrev pub next_read : {S : Type 0} → (S → Served S) → Option (Phase × S) → Served S
next_read k (some (reading_meta, s)) = k s
next_read k _ = none

module _ {W S : Type 0} (c : Codec W) (da : IDataAccess W S) (ticks : ℕ) where
  abbrev pub write_all : (List ℕ → S → Served S) → Feed S → Served S
  unfolding step
  write_all k (some (writing f, stream, s)) =
      before_all f
        (next_read (k stream) (step c da ticks (writing f) (did_write false (length f)) s))
  write_all k _ = none

  unfoldable pub serve : ℕ → List ℕ → S → Served S
  unfolding write_all
  serve zero stream s = some ([], stream, s)
  serve (suc n) stream s = write_all (serve n) (receive_message c da ticks stream s)

  -- The bytes of requests, and what the requests mean one after the other.
  unfoldable pub sent_all : List (Request W) → List ℕ → List ℕ
  sent_all [] rest = rest
  sent_all (r ∷ rs) rest = sent c ticks r ++ sent_all rs rest

  abbrev pub answer_then : (S → Served S) → Option (Answer W × S) → Served S
  answer_then k none = none
  answer_then k (some (a, s)) = before_all (answer_bytes c a) (k s)

  unfoldable pub meaning_all : List (Request W) → List ℕ → S → Served S
  meaning_all [] rest s = some ([], rest, s)
  meaning_all (r ∷ rs) rest s = answer_then (meaning_all rs rest) (meaning da ticks r s)

  write_all-answers :
      (k : List ℕ → S → Served S) (rest : List ℕ) (o : Option (Answer W × S))
      → write_all k (with_rest rest (answers c o)) ≡ answer_then (k rest) o
  unfolding write_all step on_write
  write_all-answers k rest none = refl
  write_all-answers k rest (some (a, s)) = rw (==_refl (length (answer_bytes c a))) refl

  answer_then-eq :
      (k k' : S → Served S) (o : Option (Answer W × S))
      → ((s : S) → k s ≡ k' s)
      → answer_then k o ≡ answer_then k' o
  answer_then-eq k k' none h = refl
  answer_then-eq k k' (some (a, s)) h = rw (h s) refl

  -- Requests that stand one behind the other in the stream, with sizes and dates that fit, are served
  -- in their order: the calls of the data access and the bytes of the responses are those that the
  -- requests mean, each on the world that the ones before left, and the bytes behind are not read.
  pub series_served :
      (law : IsProtobuf c) (rs : List (Request W)) (rest : List ℕ) (s : S)
      → All (λ r. IsSmall c (request_body c ticks r) × HasDates r) rs
      → serve (length rs) (sent_all rs rest) s ≡ meaning_all rs rest s
  unfolding serve sent_all meaning_all
  series_served law [] rest s h = refl
  series_served law (r ∷ rs) rest s ((small, dates), hs) =
      rw
        (
          request_served c law da ticks r (sent_all rs rest) s small dates,
          write_all-answers (serve (length rs)) (sent_all rs rest) (meaning da ticks r s),
        )
        (answer_then-eq (serve (length rs) (sent_all rs rest)) (meaning_all rs rest)
          (meaning da ticks r s) (λ s'. series_served law rs rest s' hs))
