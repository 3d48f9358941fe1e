-- ===== src/Client/Answers.antt =====
-- An answer of the server is received by the slot `onReadyRead` as the signal that it means.
pub mod Cut
use daqs.Base.{
  ℕ, ◌+◌, ◌-◌, ◌*◌, ◌≤◌, ◌<◌, ◌≡◌, refl, sym, ap, ◌∙◌, none, some, List, [], ◌∷◌, ◌++◌, map,
  append_assoc, arith, length, take, drop, le→ltb, pos→ne_zero, length-append, length-drop,
  take-length-append, drop-length-append, take-append_le, drop-append_le,
}
use daqs.DataModel.{Variable, VarValue}
use daqs.Protocol.{MessageType, Header, Codec, IsProtobuf, Failure}
use daqs.Protocol.Frame.{frame, header_bytes, meta_bytes}
use daqs.Client.{
  Socket, Signal, complete, response_received, values_received, variables_received, int_max,
  read_exactly, value_of_item, variable_of_item, read_body, on_header, on_ready_read,
}
use daqs.Client.Reading.{IsStream, pending, read_exactly_lem, read_body_lem, to_wait}
use daqs.Session.{value_item, variable_item}
use daqs.Exchange.{Answer, status, values, variables, answer_body, answer_bytes, IsSmall}

-- The value as the client shows it: with the colour "color".
abbrev pub received : {W : Type 0} → VarValue W → VarValue W
received v = record v { variable = record { name = v.variable.name; color = "color" } }

abbrev pub signal_of : {W : Type 0} → Answer W → Signal W
signal_of (status msg st prev) = response_received prev st msg
signal_of (values vs) = values_received (map received vs)
signal_of (variables vs) = variables_received vs

module _ {K : Type 0} (sock : Socket K) (str : IsStream sock) where
  open str use {buffered, coming, read_buffered, read_coming}

  -- A read of what stands in front, and is there.
  read_front :
      (k : K) (xs ys : List ℕ)
      → pending sock str k ≡ xs ++ ys
      → length xs ≤ length (buffered k)
      → let k' = (sock.read (length xs) k).1 in
        (read_exactly sock (length xs) k ≡ (some xs, k'))
        × (pending sock str k' ≡ ys)
        × (length (buffered k') ≡ length (buffered k) - length xs)
  read_front k xs ys e h =
      let n = length xs in
      let front : take n (buffered k) ≡ xs =
        sym (take-append_le n (buffered k) (coming k) h)
        ∙ ap (take n) e
        ∙ take-length-append xs ys in
      let back : drop n (buffered k) ++ coming k ≡ ys =
        sym (drop-append_le n (buffered k) (coming k) h)
        ∙ ap (drop n) e
        ∙ drop-length-append xs ys in
      (
        rw (read_exactly_lem sock str n k h, front),
        rw (read_buffered n k, read_coming n k) back,
        rw (read_buffered n k) (length-drop n (buffered k)),
      )

  to_wait_le : (xs : List ℕ) → to_wait sock str xs ≤ 1
  to_wait_le [] = omega arith
  to_wait_le (x ∷ xs) = omega arith

  -- The loop reads just the body, however it comes in.
  read_body_front :
      (fuel : ℕ) (k : K) (xs ys : List ℕ)
      → pending sock str k ≡ xs ++ ys
      → 0 < length xs
      → 2 * length xs + 1 ≤ fuel
      → let r = read_body sock fuel (length xs) [] k in
        (r.0 ≡ complete xs) × (pending sock str r.1 ≡ ys)
  read_body_front fuel k xs ys e pos enough =
      let n0 : length xs - 0 ≡ length xs = omega arith in
      let (body, rest) = read_body_lem sock str fuel (length xs) [] k (
        pos,
        omega (arith, ap length e, length-append xs ys),
        omega (arith, to_wait_le (buffered k)),
      ) in
      (
        body ∙ ap complete (rw (n0, e) (take-length-append xs ys)),
        rest ∙ rw (n0, e) (drop-length-append xs ys),
      )

  module _ {W : Type 0} (c : Codec W) (law : IsProtobuf c) (fuel : ℕ) where
    abbrev pub header_of : MessageType → List ℕ → Header
    header_of t body = record { msg_type = t; body_size = length body }

    -- MetaHeader and Header are read, and what follows them is next.
    reaches_next :
        (t : MessageType) (body tail : List ℕ) (k : K)
        → IsSmall c (t, body)
        → length body ≤ int_max
        → length (meta_bytes c t body) + length (header_bytes c t body) ≤ length (buffered k)
        → pending sock str k ≡ meta_bytes c t body ++ (header_bytes c t body ++ tail)
        → (k' : K) × (on_ready_read c sock fuel k ≡ on_header c sock fuel (header_of t body) k')
          × (pending sock str k' ≡ tail)
          × (length (buffered k')
              ≡ length (buffered k)
                - (length (meta_bytes c t body) + length (header_bytes c t body)))
    unfolding on_ready_read
    reaches_next t body tail k (small, small') fits there split =
        let mb = meta_bytes c t body in
        let hdr = header_bytes c t body in
        let (read1, pend1, buf1) = read_front k mb (hdr ++ tail) split (omega arith) in
        let k1 = (sock.read (length mb) k).1 in
        let (read2, pend2, buf2) = read_front k1 hdr tail pend1 (omega arith) in
        let k2 = (sock.read (length hdr) k1).1 in
        (
          k2,
          rw (
            ← law.meta_length (length hdr),
            read1,
            law.meta_parse (length hdr) small',
            read2,
            law.header_parse (header_of t body) small,
            le→ltb (length body) int_max fits,
          ),
          pend2,
          omega arith,
        )

    reaches_body :
        (t : MessageType) (body rest : List ℕ) (k : K)
        → IsSmall c (t, body)
        → length body ≤ int_max
        → length (meta_bytes c t body) + length (header_bytes c t body) ≤ length (buffered k)
        → pending sock str k ≡ frame c t body ++ rest
        → (k' : K) × (on_ready_read c sock fuel k ≡ on_header c sock fuel (header_of t body) k')
          × (pending sock str k' ≡ body ++ rest)
          × (length (buffered k')
              ≡ length (buffered k)
                - (length (meta_bytes c t body) + length (header_bytes c t body)))
    unfolding frame
    reaches_body t body rest k small fits there e =
        reaches_next t body (body ++ rest) k small fits there (e ∙ rw (append_assoc, append_assoc))

    on_header_status :
        (body rest : List ℕ) (k : K) (m : Failure)
        → c.failure.parse body ≡ m
        → pending sock str k ≡ body ++ rest
        → length body ≤ length (buffered k)
        → let r = on_header c sock fuel (header_of MessageType.response_failure body) k in
          (r.0 ≡ some (response_received m.prev_msg m.status m.msg)) × (pending sock str r.1 ≡ rest)
    unfolding on_header
    on_header_status body rest k m e p there =
        let (read, pend, _) = read_front k body rest p there in (rw (read, e), rw read pend)

    on_header_values :
        (body rest : List ℕ) (k : K) (vs : List (VarValue W))
        → map (value_of_item c sock fuel) (c.values.parse body) ≡ vs
        → pending sock str k ≡ body ++ rest
        → 0 < length body
        → 2 * length body + 1 ≤ fuel
        → let r = on_header c sock fuel (header_of MessageType.response_values body) k in
          (r.0 ≡ some (values_received vs)) × (pending sock str r.1 ≡ rest)
    unfolding on_header
    on_header_values body rest k vs e p pos enough =
        let (read, pend) = read_body_front fuel k body rest p pos enough in
        rw (pos→ne_zero (length body) pos) (rw (read, e), pend)

    on_header_variables :
        (body rest : List ℕ) (k : K) (vs : List Variable)
        → map (variable_of_item c sock fuel) (c.variables.parse body) ≡ vs
        → pending sock str k ≡ body ++ rest
        → 0 < length body
        → 2 * length body + 1 ≤ fuel
        → let r = on_header c sock fuel (header_of MessageType.response_variables body) k in
          (r.0 ≡ some (variables_received vs)) × (pending sock str r.1 ≡ rest)
    unfolding on_header
    on_header_variables body rest k vs e p pos enough =
        let (read, pend) = read_body_front fuel k body rest p pos enough in
        rw (pos→ne_zero (length body) pos) (rw (read, e), pend)

    pub map-value_of_item :
        (vs : List (VarValue W))
        → map (value_of_item c sock fuel) (map value_item vs) ≡ map received vs
    map-value_of_item [] = refl
    map-value_of_item (v ∷ vs) = ap (◌∷◌ (received v)) (map-value_of_item vs)

    pub map-variable_of_item :
        (vs : List Variable) → map (variable_of_item c sock fuel) (map variable_item vs) ≡ vs
    map-variable_of_item [] = refl
    map-variable_of_item (v ∷ vs) = ap (◌∷◌ v) (map-variable_of_item vs)

    -- How much of the answer must be there when the slot is called: all of a status, and of the
    -- others the two headers. A list must not be empty on the wire, and the fuel must allow two
    -- rounds for each byte.
    abbrev pub IsReadable : Answer W → K → Type 0
    IsReadable (status msg st prev) k =
        let (t, body) = answer_body c (status msg st prev) in
        length (meta_bytes c t body) + length (header_bytes c t body) + length body
        ≤ length (buffered k)
    IsReadable a k =
        let (t, body) = answer_body c a in
        (length (meta_bytes c t body) + length (header_bytes c t body) ≤ length (buffered k))
        × (0 < length body)
        × (2 * length body + 1 ≤ fuel)

    -- When the bytes of an answer stand first in what the socket has and will get, one call of the
    -- slot emits the signal that the answer means, and reads these bytes and no more. A status must
    -- be there whole; of a list the two headers must be, its body must not be empty, and it may
    -- come in any number of pieces. The sizes fit 64 bits and the body an `int`, and the fuel is
    -- two rounds for each byte of the body and one more.
    pub answer_received :
        (a : Answer W) (rest : List ℕ) (k : K)
        → IsSmall c (answer_body c a)
        → length (answer_body c a).1 ≤ int_max
        → IsReadable a k
        → pending sock str k ≡ answer_bytes c a ++ rest
        → let r = on_ready_read c sock fuel k in
          (r.0 ≡ some (signal_of a)) × (pending sock str r.1 ≡ rest)
    answer_received (status msg st prev) rest k small fits there e =
        let (t, body) = answer_body c (status msg st prev) in
        let (k', step, next, left) = reaches_body t body rest k small fits (omega arith) e in
        rw step (on_header_status body rest k' _ (law.failure_parse _) next (omega arith))
    answer_received (values vs) rest k small fits (there, pos, enough) e =
        let (t, body) = answer_body c (values vs) in
        let (k', step, next, left) = reaches_body t body rest k small fits there e in
        rw step (
          on_header_values body rest k' _
            (ap (map (value_of_item c sock fuel)) (law.values_parse _) ∙ map-value_of_item vs) next
            pos enough)
    answer_received (variables vs) rest k small fits (there, pos, enough) e =
        let (t, body) = answer_body c (variables vs) in
        let (k', step, next, left) = reaches_body t body rest k small fits there e in
        rw step (
          on_header_variables body rest k' _
            (ap (map (variable_of_item c sock fuel)) (law.variables_parse _)
              ∙ map-variable_of_item vs)
            next pos enough)

    -- When the bytes of a values response stand first in what the socket has and will get, its
    -- headers are there, its body is empty on the wire and the sizes fit, one call of the slot
    -- reads these bytes and emits no signal.
    pub empty_answer_silent :
        (vs : List (VarValue W)) (rest : List ℕ) (k : K)
        → c.values.serialize (map value_item vs) ≡ []
        → IsSmall c (answer_body c (values vs))
        → length (meta_bytes c MessageType.response_values [])
            + length (header_bytes c MessageType.response_values [])
          ≤ length (buffered k)
        → pending sock str k ≡ answer_bytes c (values vs) ++ rest
        → let r = on_ready_read c sock fuel k in (r.0 ≡ none) × (pending sock str r.1 ≡ rest)
    unfolding on_header
    empty_answer_silent vs rest k none_sent small there e =
        let (k', step, next, left) =
          reaches_body MessageType.response_values [] rest k (rw none_sent at small) (omega arith)
            there (rw none_sent at e) in
        rw step (refl, next)
