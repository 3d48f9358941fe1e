-- ===== src/Server/Outcome.antt =====
-- What a client has got of its session: answers to its first requests, or to all.

use daqs.Base.{
  ℕ, ◌≡◌, refl, ap, ◌⊎◌, arith, inl, inr, Option, none, some, List, [], ◌∷◌, ◌++◌, length,
}
use daqs.Protocol.{Codec}
use daqs.Session.{Phase, reading_meta, reading_header, reading_body, writing, ended}
use daqs.Exchange.{Request, Answer, answer_bytes}
use daqs.Server.Log.{Log, requests_of, answers_of}
use daqs.Server.Stage.{written_of, At, work}

module _ {W : Type 0} (c : Codec W) (ticks : ℕ) where
  -- The answers are written, but for the last one that is being written.
  abbrev pub Wrote : Phase → List (List ℕ) → List (Answer W) → Type 0
  Wrote p wr ans =
      (wr ≡ written_of c ticks ans)
      ⊎ ((before : List (Answer W)) × (a : Answer W) × (ans ≡ before ++ a ∷ [])
          × (p ≡ writing (answer_bytes c a))
          × (wr ≡ written_of c ticks before))

  -- Of a client's requests the first have their answers, and the others are left.
  abbrev pub ServedAt : Option Phase → List (List ℕ) → List (Request W) → ℕ → Log W → Type 0
  ServedAt none wr asked j log = Unit
  ServedAt (some p) wr asked j log =
      (left : List (Request W)) × (asked ≡ requests_of j log ++ left)
      × Wrote p wr (answers_of j log)

  -- All of a client's requests have their answers, and these are written.
  abbrev pub AnsweredAt : Option Phase → List (List ℕ) → List (Request W) → ℕ → Log W → Type 0
  AnsweredAt none wr asked j log = Unit
  AnsweredAt (some p) wr asked j log =
      (asked ≡ requests_of j log) × (wr ≡ written_of c ticks (answers_of j log))

  pub At-Wrote :
      (p : Phase) (inc : List ℕ) (wr : List (List ℕ)) (ans : List (Answer W))
      (rest : List (Request W))
      → At c ticks p inc wr ans rest
      → Wrote p wr ans
  At-Wrote reading_meta inc wr ans rest (there, same) = inl same
  At-Wrote (reading_header n) inc wr ans rest (r, rs, is, size, there, same) = inl same
  At-Wrote (reading_body t n) inc wr ans rest (r, rs, is, kind, size, there, same) = inl same
  At-Wrote (writing f) inc wr ans rest (before, a, is, bytes, there, same) =
      inr (before, a, is, ap writing bytes, same)
  At-Wrote ended inc wr ans rest at = absurd at

  -- Without work left all is answered and written.
  pub At-done :
      (p : Phase) (inc : List ℕ) (wr : List (List ℕ)) (ans : List (Answer W))
      (rest : List (Request W))
      → At c ticks p inc wr ans rest
      → work c ticks p rest ≡ 0
      → (rest ≡ []) × (wr ≡ written_of c ticks ans)
  At-done reading_meta inc wr ans [] (there, same) e = (refl, same)
  At-done reading_meta inc wr ans (r ∷ rs) (there, same) e = absurd (omega (arith, e))
  At-done (reading_header n) inc wr ans rest (r, rs, is, size, there, same) e =
      absurd (omega (arith, e, ap length is))
  At-done (reading_body t n) inc wr ans rest (r, rs, is, kind, size, there, same) e =
      absurd (omega (arith, e, ap length is))
  At-done (writing f) inc wr ans rest (before, a, is, bytes, there, same) e =
      absurd (omega (arith, e))
  At-done ended inc wr ans rest at e = absurd at
