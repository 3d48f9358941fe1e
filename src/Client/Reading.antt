-- ===== src/Client/Reading.antt =====
-- What the reads of `onReadyRead` give on a socket that behaves like a stream of bytes.
pub mod Ends
use daqs.Base.{
  ℕ, zero, suc, ◌+◌, ◌-◌, ◌*◌, ◌≤◌, ◌<◌, ◌≡◌, ◌≢◌, refl, sym, ap, ◌∙◌, inl, inr, true, false, some,
  List, [], ◌∷◌, ◌++◌, append_assoc, arith, ◌==◌, ==_refl, if◌then◌else◌, length, take, drop,
  length-take, length-append, take-append_le, take-append_ge, drop-append_le, drop-append_ge,
  take_ge, drop_ge, take-nil, drop-nil, List-cases,
}
use native.Mathlib.Decide.{dec_le}
use daqs.Client.{Socket, BodyRead, complete, read_exactly, read_body}

-- The bytes that can be read at once, and those that come later, each time before the wait for them
-- ends. If none comes the wait fails.
pub record IsStream {K : Type 0} (sock : Socket K) : Type 0 where
  pub buffered : K → List ℕ
  pub coming : K → List ℕ
  pub read_answer : (n : ℕ) (k : K) → (sock.read n k).0 ≡ some (take n (buffered k))
  pub read_buffered : (n : ℕ) (k : K) → buffered (sock.read n k).1 ≡ drop n (buffered k)
  pub read_coming : (n : ℕ) (k : K) → coming (sock.read n k).1 ≡ coming k
  pub wait_answer :
      (k : K) → buffered k ≡ [] → coming k ≢ [] → (sock.wait_for_ready_read k).0 ≡ true
  pub wait_none : (k : K) → buffered k ≡ [] → coming k ≡ [] → (sock.wait_for_ready_read k).0 ≡ false
  pub wait_some :
      (k : K) → buffered k ≡ [] → coming k ≢ [] → buffered (sock.wait_for_ready_read k).1 ≢ []
  pub wait_bytes :
      (k : K)
      → buffered k ≡ []
      → coming k ≢ []
      → buffered (sock.wait_for_ready_read k).1 ++ coming (sock.wait_for_ready_read k).1 ≡ coming k

pub lt→ne : (a b : ℕ) → a < b → (a == b) ≡ false
lt→ne a b h = ground arith

take_pos : (n b : ℕ) (r : List ℕ) → 0 < n → take n (b ∷ r) ≡ b ∷ take (n - 1) r
take_pos zero b r h = elim h [ ]
take_pos (suc j) b r h = ap (λ m. b ∷ take m r) (omega arith)

module _ {K : Type 0} (sock : Socket K) (str : IsStream sock) where
  open str use {
    buffered, coming, read_answer, read_buffered, read_coming, wait_answer, wait_some, wait_bytes,
  }

  abbrev pub pending : K → List ℕ
  pending k = buffered k ++ coming k

  pub read_exactly_lem :
      (n : ℕ) (k : K)
      → n ≤ length (buffered k)
      → read_exactly sock n k ≡ (some (take n (buffered k)), (sock.read n k).1)
  unfolding read_exactly
  read_exactly_lem n k h =
      rw (read_exactly, read_answer n k, length-take n (buffered k) h, ==_refl n)

  -- One for a wait that is still needed.
  abbrev pub to_wait : List ℕ → ℕ
  to_wait [] = 1
  to_wait (_ ∷ _) = 0

  -- The result of the loop: the body, and a socket after it.
  abbrev pub Reads : BodyRead × K → List ℕ → List ℕ → Type 0
  Reads r body rest = (r.0 ≡ complete body) × (pending r.1 ≡ rest)

  -- A round that gets no bytes and waits.
  round_empty :
      (fuel n : ℕ) (data_r : List ℕ) (k : K)
      → length data_r < n
      → buffered k ≡ []
      → coming k ≢ []
      → let k' = (sock.wait_for_ready_read (sock.read (n - length data_r) k).1).1 in
        (read_body sock (suc fuel) n data_r k ≡ read_body sock fuel n data_r k')
        × (buffered k' ≢ [])
        × (pending k' ≡ coming k)
  unfolding read_body
  round_empty fuel n data_r k h e more =
      let need = n - length data_r in
      let k1 = (sock.read need k).1 in
      let e1 : buffered k1 ≡ [] = read_buffered need k ∙ ap (drop need) e ∙ drop-nil need in
      let more1 : coming k1 ≢ [] = λ p. more (sym (read_coming need k) ∙ p) in
      let test : (length data_r == n) ≡ false = ground arith in
      (
        rw (read_answer need k, e, take-nil need, read_body, wait_answer k1 e1 more1, test),
        wait_some k1 e1 more1,
        wait_bytes k1 e1 more1 ∙ read_coming need k,
      )

  -- A round that gets some bytes.
  pub round_some :
      (fuel n : ℕ) (data_r : List ℕ) (k : K) (b : ℕ) (bytes : List ℕ)
      → take (n - length data_r) (buffered k) ≡ b ∷ bytes
      → let all = data_r ++ (b ∷ bytes) in
        let k' = (sock.read (n - length data_r) k).1 in
        read_body sock (suc fuel) n data_r k
        ≡ (if length all == n then (complete all, k') else read_body sock fuel n all k')
  unfolding read_body
  round_some fuel n data_r k b bytes e = rw (read_answer (n - length data_r) k, e, read_body)

  to_wait_some : (xs : List ℕ) → xs ≢ [] → to_wait xs ≡ 0
  to_wait_some [] h = absurd (h refl)
  to_wait_some (x ∷ xs) h = refl

  -- The specification of the loop from a state: it reads the missing bytes and no more.
  abbrev pub ReadsRest : ℕ → ℕ → List ℕ → K → Type 0
  ReadsRest fuel n data_r k =
      Reads (read_body sock fuel n data_r k) (data_r ++ take (n - length data_r) (pending k))
        (drop (n - length data_r) (pending k))

  abbrev pub Enough : ℕ → ℕ → List ℕ → K → Type 0
  Enough fuel n data_r k =
      (length data_r < n)
      × (n - length data_r ≤ length (pending k))
      × (2 * (n - length data_r) + to_wait (buffered k) ≤ fuel)

  reads_empty :
      (fuel n : ℕ) (data_r : List ℕ) (k : K)
      → ((k' : K) → Enough fuel n data_r k' → ReadsRest fuel n data_r k')
      → Enough (suc fuel) n data_r k
      → buffered k ≡ []
      → ReadsRest (suc fuel) n data_r k
  reads_empty fuel n data_r k ih (h1, h2, h3) e =
      let all : pending k ≡ coming k = ap (λ b. b ++ coming k) e in
      let more : coming k ≢ [] = λ p. omega (arith, ap length all, ap length p) in
      let (step, fresh, same) = round_empty fuel n data_r k h1 e more in
      let bytes = same ∙ sym all in
      rw (step, ← bytes)
        (ih _
          (h1, omega (arith, ap length bytes), omega (arith, to_wait_some _ fresh, ap to_wait e)))

  reads_enough :
      (fuel n : ℕ) (data_r : List ℕ) (k : K) (b : ℕ) (bytes : List ℕ)
      → length data_r < n
      → n - length data_r ≤ length (buffered k)
      → take (n - length data_r) (buffered k) ≡ b ∷ bytes
      → ReadsRest (suc fuel) n data_r k
  reads_enough fuel n data_r k b bytes h1 enough e =
      let need = n - length data_r in
      let size : length (data_r ++ (b ∷ bytes)) ≡ n = omega (
        arith,
        length-append data_r (b ∷ bytes),
        ap length e,
        length-take need (buffered k) enough,
      ) in
      let full : (length (data_r ++ (b ∷ bytes)) == n) ≡ true = rw size (==_refl n) in
      let taken = take-append_le need (buffered k) (coming k) enough in
      rw (round_some fuel n data_r k b bytes e, full)
        (
          ap (λ bs. complete (data_r ++ bs)) (sym e ∙ sym taken),
          rw (read_buffered need k, read_coming need k)
              (sym (drop-append_le need (buffered k) (coming k) enough)),
        )

  reads_short :
      (fuel n : ℕ) (data_r : List ℕ) (k : K) (b : ℕ) (bytes : List ℕ)
      → ((all : List ℕ) (k' : K) → Enough fuel n all k' → ReadsRest fuel n all k')
      → Enough (suc fuel) n data_r k
      → length (buffered k) < n - length data_r
      → buffered k ≡ b ∷ bytes
      → ReadsRest (suc fuel) n data_r k
  reads_short fuel n data_r k b bytes ih (h1, h2, h3) short e =
      let need = n - length data_r in
      let all = data_r ++ (b ∷ bytes) in
      let k' = (sock.read need k).1 in
      let size = length-append data_r (b ∷ bytes) in
      let got : take need (buffered k) ≡ b ∷ bytes = take_ge need (buffered k) (omega arith) ∙ e in
      let none_left : buffered k' ≡ [] =
        read_buffered need k ∙ drop_ge need (buffered k) (omega arith) in
      let same : pending k' ≡ coming k =
        ap (λ bs. bs ++ coming k') none_left ∙ read_coming need k in
      let left : n - length all ≡ need - length (buffered k) = omega (arith, ap length e) in
      let test : (length all == n) ≡ false = lt→ne _ _ (omega (arith, ap length e)) in
      let body : all ++ take (n - length all) (pending k') ≡ data_r ++ take need (pending k) =
        rw (left, same, append_assoc)
          (ap (◌++◌ data_r) (
            ap (λ bs. bs ++ take (need - length (buffered k)) (coming k)) (sym e)
            ∙ sym (take-append_ge need (buffered k) (coming k) (omega arith)))) in
      let rest : drop (n - length all) (pending k') ≡ drop need (pending k) =
        rw (left, same) (sym (drop-append_ge need (buffered k) (coming k) (omega arith))) in
      rw (round_some fuel n data_r k b bytes got, test, ← body, ← rest)
        (ih all k' (
          omega (arith, ap length e),
          omega (arith, ap length e, ap length same, length-append (buffered k) (coming k)),
          omega (arith, ap to_wait none_left, ap to_wait e),
        ))

  -- With some bytes still wanted, all of them there or to come, and fuel for two rounds for each
  -- (and one more if none is there), the loop that reads a long body ends with the whole body,
  -- whatever the pieces it comes in, and the bytes behind the body are still to be read.
  pub read_body_lem :
      (fuel n : ℕ) (data_r : List ℕ) (k : K) → Enough fuel n data_r k → ReadsRest fuel n data_r k
  read_body_lem zero n data_r k h = absurd (omega arith)
  read_body_lem (suc fuel) n data_r k h = elim (List-cases (buffered k)) [
    | inl e ↦ reads_empty fuel n data_r k (read_body_lem fuel n data_r) h e
    | inr (b, r, e) ↦ elim (dec_le (n - length data_r) (length (buffered k))) [
      | yes enough ↦
          reads_enough fuel n data_r k b _ h.0 enough
            (ap (take (n - length data_r)) e ∙ take_pos (n - length data_r) b r (omega arith))
      | no short ↦ reads_short fuel n data_r k b r (read_body_lem fuel n) h (omega arith) e
    ]
  ]
