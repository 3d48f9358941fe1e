-- ===== src/Client/Machine.antt =====
-- The slot `onReadyRead` (src/database-server/client/client.cc) as Qt calls it: the connection of
-- readyRead to it is taken away while it runs, and every packet that comes is signalled once.
use daqs.Base.{
  ℕ, zero, suc, ◌≡◌, refl, ap, ◌∙◌, sym, Option, List, [], ◌∷◌, ◌++◌, map, append_assoc, append-nil,
  All, length, take, drop,
}
use mathlib.Core.Path.{subst, ap₂}
use daqs.Protocol.{Codec, IsProtobuf}
use daqs.Client.{Socket, Signal, on_ready_read}
use daqs.Client.Connection.{Client}
use daqs.Client.Reading.{IsStream}
use daqs.Client.Listen.{heard, all_bytes, Fits, answers_heard, listen}
use daqs.Exchange.{Answer, answer_bytes}

module _ {K : Type 0} where
  -- `disconnect` takes away all connections of the signal to the slot.
  abbrev pub disconnected : Client K → Client K
  disconnected cl = record cl { slots = 0 }

  -- The deleter of `readyReadDeferReconnect`, which runs on every return.
  abbrev pub reconnected : Client K → Client K
  reconnected cl = record cl { slots = suc cl.slots }

module _ {W K : Type 0} (c : Codec W) (sock : Socket K) (fuel : ℕ) where
  unfoldable pub slot : Client K → Option (Signal W) × Client K
  slot cl =
      let cl' = disconnected cl in
      let (signal, k) = on_ready_read c sock fuel cl'.socket in
      (signal, reconnected (record cl' { socket = k }))

  -- readyRead is emitted. The first call of the slot takes away the other connections, and the one
  -- that it makes is not called for this emission.
  unfoldable pub ready_read : Client K → List (Option (Signal W)) × Client K
  unfolding slot
  ready_read cl = elim cl.slots [
    | zero ↦ ([], cl)
    | suc n ↦ let (signal, cl') = slot cl in (signal ∷ [], cl')
  ]

  -- Packets come, each with its readyRead.
  unfoldable pub packets :
      (List ℕ → K → K) → List (List ℕ) → Client K → List (Option (Signal W)) × Client K
  unfolding ready_read
  packets arrive [] cl = ([], cl)
  packets arrive (p ∷ ps) cl =
      let (signals, cl') = ready_read (record cl { socket = arrive p cl.socket }) in
      let (more, cl'') = packets arrive ps cl' in (signals ++ more, cl'')

module _ {W : Type 0} (c : Codec W) where
  -- A packet of whole answers, one at least.
  abbrev pub Packet : Type 0
  Packet = Answer W × List (Answer W)

  abbrev pub answers_in : List Packet → List (Answer W)
  answers_in [] = []
  answers_in ((a, ans) ∷ ps) = (a ∷ ans) ++ answers_in ps

  abbrev pub packet_bytes : Packet → List ℕ
  packet_bytes (a, ans) = all_bytes c (a ∷ ans) []

  all_bytes-append :
      (xs ys : List (Answer W)) → all_bytes c xs [] ++ all_bytes c ys [] ≡ all_bytes c (xs ++ ys) []
  all_bytes-append [] ys = refl
  all_bytes-append (x ∷ xs) ys =
      append_assoc (answer_bytes c x) (all_bytes c xs []) (all_bytes c ys [])
      ∙ ap (λ bs. answer_bytes c x ++ bs) (all_bytes-append xs ys)

  module _ {K : Type 0} {sock : Socket K} (str : IsStream sock) where
    -- What is heard, and what stays in the buffer.
    abbrev pub Heard :
        List (Answer W) → List (Answer W) → List (Option (Signal W)) × Client K → Type 0
    Heard hs left (signals, cl) =
        (signals ≡ map (heard c) hs)
        × (str.buffered cl.socket ≡ all_bytes c left [])
        × (cl.slots ≡ 1)

  module _ {K : Type 0} (law : IsProtobuf c) (sock : Socket K) (str : IsStream sock) (fuel : ℕ)
      (arrive : List ℕ → K → K)
      (arrives : (bs : List ℕ) (k : K) → str.buffered (arrive bs k) ≡ str.buffered k ++ bs) where
    open str use {buffered}

    pub ready_read-Heard :
        (x : Answer W) (xs : List (Answer W)) (cl : Client K)
        → cl.slots ≡ 1
        → Fits c x
        → buffered cl.socket ≡ all_bytes c (x ∷ xs) []
        → Heard str (x ∷ []) xs (ready_read c sock (suc fuel) cl)
    unfolding ready_read slot listen
    ready_read-Heard x xs cl one fits e =
        let (signals, left) =
          answers_heard sock str c law fuel (x ∷ []) (all_bytes c xs []) cl.socket (fits, tt) e in
        rw one (signals, left, refl)

    packets-Heard :
        (xs : List (Answer W)) (ps : List Packet) (cl : Client K)
        → cl.slots ≡ 1
        → All (Fits c) (xs ++ answers_in ps)
        → buffered cl.socket ≡ all_bytes c xs []
        → Heard str
            (take (length ps) (xs ++ answers_in ps))
            (drop (length ps) (xs ++ answers_in ps))
            (packets c sock (suc fuel) arrive (map packet_bytes ps) cl)
    unfolding packets
    packets-Heard xs [] cl one fits e =
        (refl, e ∙ ap (λ ys. all_bytes c ys []) (sym (append-nil xs)), one)
    packets-Heard [] ((a, ans) ∷ ps) cl one (fits, more) e =
        let cl' = record cl { socket = arrive (packet_bytes (a, ans)) cl.socket } in
        let there : buffered cl'.socket ≡ packet_bytes (a, ans) =
          arrives (packet_bytes (a, ans)) cl.socket ∙ ap (λ bs. bs ++ packet_bytes (a, ans)) e in
        let (signal, left, one') = ready_read-Heard a ans cl' one fits there in
        let (signals, behind, one'') =
          packets-Heard ans ps (ready_read c sock (suc fuel) cl').1 one' more left in
        (ap₂ (λ xs ys. xs ++ ys) signal signals, behind, one'')
    packets-Heard (x ∷ xs) ((a, ans) ∷ ps) cl one (fits, more) e =
        let cl' = record cl { socket = arrive (packet_bytes (a, ans)) cl.socket } in
        let there : buffered cl'.socket ≡ all_bytes c (x ∷ xs ++ a ∷ ans) [] =
          arrives (packet_bytes (a, ans)) cl.socket
          ∙ (ap (λ bs. bs ++ packet_bytes (a, ans)) e ∙ all_bytes-append (x ∷ xs) (a ∷ ans)) in
        let (signal, left, one') = ready_read-Heard x (xs ++ a ∷ ans) cl' one fits there in
        let same = append_assoc xs (a ∷ ans) (answers_in ps) in
        let next =
          packets-Heard (xs ++ a ∷ ans) ps (ready_read c sock (suc fuel) cl').1 one'
            (subst (All (Fits c)) (sym same) more) left in
        let (signals, behind, one'') =
          subst
            (λ ys. Heard str (take (length ps) ys) (drop (length ps) ys) (
              packets c sock (suc fuel) arrive (map packet_bytes ps)
                (ready_read c sock (suc fuel) cl').1))
            same next in
        (ap₂ (λ xs ys. xs ++ ys) signal signals, behind, one'')

    -- When packets come to a client with an empty buffer, each with one whole answer or more and with
    -- sizes that fit, the client hears as many answers as there are packets, from the first one on, and
    -- the bytes of all the others stay in the buffer unread. Each time the slot is connected again
    -- once.
    pub one_for_each :
        (ps : List Packet) (cl : Client K)
        → cl.slots ≡ 1
        → All (Fits c) (answers_in ps)
        → buffered cl.socket ≡ []
        → Heard str
            (take (length ps) (answers_in ps))
            (drop (length ps) (answers_in ps))
            (packets c sock (suc fuel) arrive (map packet_bytes ps) cl)
    one_for_each ps cl one fits e = packets-Heard [] ps cl one fits e
