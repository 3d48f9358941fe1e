-- ===== src/Client/Listen.antt =====
-- Several answers that stand in the socket's buffer, read by one call of the slot each.
use mathlib.Core.Path.{ap₂}
use daqs.Base.{
  ℕ, zero, suc, ◌-◌, ◌≤◌, ◌≡◌, refl, ap, ◌∙◌, Option, none, some, List, [], ◌∷◌, ◌++◌, map,
  append_assoc, arith, All, length, take, drop, ◌==◌, ==_refl, if◌then◌else◌, le→ltb, pos→ne_zero,
  length-append, take-length-append, drop-length-append,
}
use daqs.DataModel.{Variable, VarValue}
use daqs.Protocol.{MessageType, Codec, IsProtobuf}
use daqs.Protocol.Frame.{frame, header_bytes, meta_bytes}
use daqs.Client.{
  Socket, Signal, complete, values_received, variables_received, int_max, read_exactly, read_body,
  on_header, on_ready_read, value_of_item, variable_of_item,
}
use daqs.Client.Reading.{IsStream, read_exactly_lem, round_some}
use daqs.Client.Answers.{header_of, signal_of, map-value_of_item, map-variable_of_item}
use daqs.Exchange.{Answer, status, values, variables, answer_body, answer_bytes, IsSmall}

module _ {W K : Type 0} (c : Codec W) (sock : Socket K) (fuel : ℕ) where
  -- The signals of so many calls of the slot.
  unfoldable pub listen : ℕ → K → List (Option (Signal W)) × K
  listen zero k = ([], k)
  listen (suc n) k =
      let (signal, k') = on_ready_read c sock fuel k in
      let (signals, k'') = listen n k' in (signal ∷ signals, k'')

module _ {W : Type 0} (c : Codec W) where
  -- What is heard of an answer: a list with an empty body is not.
  abbrev pub heard : Answer W → Option (Signal W)
  heard (status msg st prev) = some (signal_of (status msg st prev))
  heard a = if length (answer_body c a).1 == 0 then none else some (signal_of a)

  abbrev pub all_bytes : List (Answer W) → List ℕ → List ℕ
  all_bytes [] rest = rest
  all_bytes (a ∷ ans) rest = answer_bytes c a ++ all_bytes ans rest

  -- The sizes of an answer fit.
  abbrev pub Fits : Answer W → Type 0
  Fits a = IsSmall c (answer_body c a) × (length (answer_body c a).1 ≤ int_max)

module _ {K : Type 0} (sock : Socket K) (str : IsStream sock) where
  open str use {buffered, coming, read_answer, read_buffered, read_coming}

  read_there :
      (k : K) (xs ys : List ℕ)
      → buffered k ≡ xs ++ ys
      → let k' = (sock.read (length xs) k).1 in
        (read_exactly sock (length xs) k ≡ (some xs, k')) × (buffered k' ≡ ys)
  read_there k xs ys e =
      let n = length xs in
      (
        rw
            (
              read_exactly_lem sock str n k (omega (arith, ap length e, length-append xs ys)),
              e,
              take-length-append xs ys,
            )
            refl,
        read_buffered n k ∙ ap (drop n) e ∙ drop-length-append xs ys,
      )

  read_body_there :
      (fuel : ℕ) (k : K) (b : ℕ) (bs ys : List ℕ)
      → buffered k ≡ (b ∷ bs) ++ ys
      → let n = length (b ∷ bs) in
        read_body sock (suc fuel) n [] k ≡ (complete (b ∷ bs), (sock.read n k).1)
  read_body_there fuel k b bs ys e =
      let n = length (b ∷ bs) in
      let n0 : n - 0 ≡ n = omega arith in
      let got : take (n - 0) (buffered k) ≡ b ∷ bs =
        ap (λ m. take m (buffered k)) n0 ∙ ap (take n) e ∙ take-length-append (b ∷ bs) ys in
      rw (round_some sock str fuel n [] k b bs got, ==_refl n, n0) refl

  module _ {W : Type 0} (c : Codec W) (law : IsProtobuf c) where
    reaches_there :
        (fuel : ℕ) (t : MessageType) (body rest : List ℕ) (k : K)
        → IsSmall c (t, body)
        → length body ≤ int_max
        → buffered k ≡ frame c t body ++ rest
        → (k' : K) × (on_ready_read c sock fuel k
            ≡ on_header c sock fuel (header_of sock str c law fuel t body) k')
          × (buffered k' ≡ body ++ rest)
    unfolding on_ready_read frame
    reaches_there fuel t body rest k (small, small') fits e =
        let mb = meta_bytes c t body in
        let hdr = header_bytes c t body in
        let split : buffered k ≡ mb ++ (hdr ++ (body ++ rest)) =
          e ∙ rw (append_assoc, append_assoc) in
        let (read1, next1) = read_there k mb (hdr ++ (body ++ rest)) split in
        let k1 = (sock.read (length mb) k).1 in
        let (read2, next2) = read_there k1 hdr (body ++ rest) next1 in
        (
          (sock.read (length hdr) k1).1,
          rw (
            ← law.meta_length (length hdr),
            read1,
            law.meta_parse (length hdr) small',
            read2,
            law.header_parse (header_of sock str c law fuel t body) small,
            le→ltb (length body) int_max fits,
          ),
          next2,
        )

    hears_values :
        (fuel : ℕ) (body rest : List ℕ) (k : K) (vs : List (VarValue W))
        → map (value_of_item c sock (suc fuel)) (c.values.parse body) ≡ vs
        → buffered k ≡ body ++ rest
        → let r =
            on_header c sock
              (suc fuel)
              (record { msg_type = MessageType.response_values; body_size = length body })
              k in
          (r.0 ≡ (if length body == 0 then none else some (values_received vs)))
          × (buffered r.1 ≡ rest)
    unfolding on_header
    hears_values fuel [] rest k vs parsed e = (refl, e)
    hears_values fuel (b ∷ bs) rest k vs parsed e =
        let left =
          read_buffered (length (b ∷ bs)) k
          ∙ ap (drop (length (b ∷ bs))) e
          ∙ drop-length-append (b ∷ bs) rest in
        rw (pos→ne_zero (length (b ∷ bs)) (omega arith))
          (rw (read_body_there fuel k b bs rest e, parsed) (refl, left))

    hears_variables :
        (fuel : ℕ) (body rest : List ℕ) (k : K) (vs : List Variable)
        → map (variable_of_item c sock (suc fuel)) (c.variables.parse body) ≡ vs
        → buffered k ≡ body ++ rest
        → let r =
            on_header c sock
              (suc fuel)
              (record { msg_type = MessageType.response_variables; body_size = length body })
              k in
          (r.0 ≡ (if length body == 0 then none else some (variables_received vs)))
          × (buffered r.1 ≡ rest)
    unfolding on_header
    hears_variables fuel [] rest k vs parsed e = (refl, e)
    hears_variables fuel (b ∷ bs) rest k vs parsed e =
        let left =
          read_buffered (length (b ∷ bs)) k
          ∙ ap (drop (length (b ∷ bs))) e
          ∙ drop-length-append (b ∷ bs) rest in
        rw (pos→ne_zero (length (b ∷ bs)) (omega arith))
          (rw (read_body_there fuel k b bs rest e, parsed) (refl, left))

    hears_body :
        (fuel : ℕ) (a : Answer W) (rest : List ℕ) (k : K)
        → let (t, body) = answer_body c a in
          buffered k ≡ body ++ rest
          → let r =
              on_header c sock (suc fuel) (record { msg_type = t; body_size = length body }) k in
            (r.0 ≡ heard c a) × (buffered r.1 ≡ rest)
    unfolding on_header
    hears_body fuel (status msg st prev) rest k e =
        let (read, left) = read_there k (answer_body c (status msg st prev)).1 rest e in
        rw (read, law.failure_parse) (refl, left)
    hears_body fuel (values vs) rest k e =
        hears_values fuel (answer_body c (values vs)).1 rest k _
          (ap (map (value_of_item c sock (suc fuel))) (law.values_parse _)
            ∙ map-value_of_item sock str c law (suc fuel) vs)
          e
    hears_body fuel (variables vs) rest k e =
        hears_variables fuel (answer_body c (variables vs)).1 rest k _
          (ap (map (variable_of_item c sock (suc fuel))) (law.variables_parse _)
            ∙ map-variable_of_item sock str c law (suc fuel) vs)
          e

    -- When the bytes of answers, whose sizes fit, stand one behind the other in the buffer of the
    -- socket, as many calls of the slot emit the signals that the answers mean, in their order and one
    -- for each, but for lists whose body is empty on the wire, which are read without a signal. The
    -- bytes behind the answers are not read.
    pub answers_heard :
        (fuel : ℕ) (ans : List (Answer W)) (rest : List ℕ) (k : K)
        → All (Fits c) ans
        → buffered k ≡ all_bytes c ans rest
        → let r = listen c sock (suc fuel) (length ans) k in
          (r.0 ≡ map (heard c) ans) × (buffered r.1 ≡ rest)
    unfolding listen
    answers_heard fuel [] rest k fits e = (refl, e)
    answers_heard fuel (a ∷ ans) rest k ((small, fits), hs) e =
        let (t, body) = answer_body c a in
        let (k', step, next) =
          reaches_there (suc fuel) t body (all_bytes c ans rest) k small fits e in
        let (signal, left) = hears_body fuel a (all_bytes c ans rest) k' next in
        let k1 = (on_ready_read c sock (suc fuel) k).1 in
        let heard_one : (on_ready_read c sock (suc fuel) k).0 ≡ heard c a = rw step signal in
        let left_one : buffered k1 ≡ all_bytes c ans rest = rw step left in
        let (signals, behind) = answers_heard fuel ans rest k1 hs left_one in
        (ap₂ (λ x xs. x ∷ xs) heard_one signals, behind)
