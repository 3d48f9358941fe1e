-- ===== src/Client/Answers/Cut.antt =====
-- An answer whose body does not come in full.
use daqs.Base.{
  ℕ, ◌+◌, ◌*◌, ◌≤◌, ◌<◌, ◌≡◌, refl, ap, inl, inr, false, none, List, [], ◌++◌, arith, length, take,
  take_ge, ◌==◌, pos→ne_zero, length-append,
}
use daqs.Protocol.{Codec, IsProtobuf}
use daqs.Protocol.Frame.{header_bytes, meta_bytes}
use daqs.Client.{Socket, gave_up, int_max, read_exactly, read_body, on_header, on_ready_read}
use daqs.Client.Reading.{IsStream, pending, lt→ne}
use daqs.Client.Reading.Ends.{read_body_ends}
use daqs.Client.Answers.{reaches_next, header_of}
use daqs.Exchange.{Answer, status, values, variables, answer_body, IsSmall}

module _ {K : Type 0} (sock : Socket K) (str : IsStream sock) where
  open str use {buffered, coming, read_answer}

  read_exactly_short : (n : ℕ) (k : K) → length (buffered k) < n → (read_exactly sock n k).0 ≡ none
  unfolding read_exactly
  read_exactly_short n k h =
      let test : (length (take n (buffered k)) == n) ≡ false =
        rw (take_ge n (buffered k) (omega arith)) (lt→ne _ _ h) in
      rw (read_exactly, read_answer n k, test) refl

  read_body_short :
      (fuel n : ℕ) (k : K)
      → length (pending sock str k) < n
      → 2 * n + 1 ≤ fuel
      → (read_body sock fuel n [] k).0 ≡ gave_up
  read_body_short fuel n k short enough =
      elim (read_body_ends sock str fuel n [] k (omega arith) (omega arith)) [
        | inl (there, _) ↦ absurd (omega arith)
        | inr (_, up) ↦ up
      ]

  module _ {W : Type 0} (c : Codec W) (law : IsProtobuf c) (fuel : ℕ) where
    on_header_short :
        (a : Answer W) (k : K)
        → let (t, body) = answer_body c a in
          length (pending sock str k) < length body
          → 2 * length body + 1 ≤ fuel
          → (on_header c sock fuel (header_of sock str c law fuel t body) k).0 ≡ none
    unfolding on_header
    on_header_short (status msg st prev) k short enough =
        rw
          (read_exactly_short (length (answer_body c (status msg st prev)).1) k
            (omega (arith, length-append (buffered k) (coming k))))
          refl
    on_header_short (values vs) k short enough =
        rw (pos→ne_zero (length (answer_body c (values vs)).1) (omega arith))
          (rw (read_body_short fuel (length (answer_body c (values vs)).1) k short enough) refl)
    on_header_short (variables vs) k short enough =
        rw (pos→ne_zero (length (answer_body c (variables vs)).1) (omega arith))
          (rw (read_body_short fuel (length (answer_body c (variables vs)).1) k short enough) refl)

    -- When the headers of an answer stand first and are there, but fewer bytes than its body has
    -- are there or to come, one call of the slot ends without a signal. The sizes fit, and the fuel
    -- is two rounds for each byte of the body and one more.
    pub cut_answer_silent :
        (a : Answer W) (part : List ℕ) (k : K)
        → let (t, body) = answer_body c a in
          IsSmall c (t, body)
          → length body ≤ int_max
          → 2 * length body + 1 ≤ fuel
          → length part < length body
          → length (meta_bytes c t body) + length (header_bytes c t body) ≤ length (buffered k)
          → pending sock str k ≡ meta_bytes c t body ++ (header_bytes c t body ++ part)
          → (on_ready_read c sock fuel k).0 ≡ none
    cut_answer_silent a part k small fits enough short there e =
        let (t, body) = answer_body c a in
        let (k', step, next, left) =
          reaches_next sock str c law fuel t body part k small fits there e in
        rw step (on_header_short a k' (omega (arith, ap length next)) enough)
