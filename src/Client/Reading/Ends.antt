-- ===== src/Client/Reading/Ends.antt =====
-- The loop that reads a long body always ends, with the body or without.
use daqs.Base.{
  ℕ, zero, suc, ◌+◌, ◌-◌, ◌*◌, ◌≤◌, ◌<◌, ◌≡◌, ◌⊎◌, refl, ap, ◌∙◌, inl, inr, false, List, [], ◌∷◌,
  ◌++◌, arith, ◌==◌, length, take, drop, length-append, take_ge, drop_ge, take-nil, drop-nil,
  List-cases,
}
use native.Mathlib.Decide.{dec_le}
use daqs.Client.{Socket, gave_up, read_body}
use daqs.Client.Reading.{
  IsStream, lt→ne, pending, to_wait, to_wait_some, round_empty, round_some, ReadsRest,
  read_body_lem,
}

module _ {K : Type 0} (sock : Socket K) (str : IsStream sock) where
  open str use {buffered, coming, read_answer, read_buffered, read_coming, wait_none}

  -- Fewer bytes than are missing are there or to come.
  abbrev Short : ℕ → ℕ → List ℕ → K → Type 0
  Short fuel n data_r k =
      (length data_r < n)
      × (length (pending sock str k) < n - length data_r)
      × (2 * (n - length data_r) + to_wait sock str (buffered k) ≤ fuel)

  abbrev GivesUp : ℕ → ℕ → List ℕ → K → Type 0
  GivesUp fuel n data_r k = (read_body sock fuel n data_r k).0 ≡ gave_up

  -- Nothing is there, and nothing comes.
  ends_silent :
      (fuel n : ℕ) (data_r : List ℕ) (k : K)
      → buffered k ≡ []
      → coming k ≡ []
      → GivesUp (suc fuel) n data_r k
  unfolding read_body
  ends_silent fuel n data_r k e none =
      let need = n - length data_r in
      let k1 = (sock.read need k).1 in
      let e1 : buffered k1 ≡ [] = read_buffered need k ∙ ap (drop need) e ∙ drop-nil need in
      rw
        (
          read_body,
          read_answer need k,
          e,
          take-nil need,
          wait_none k1 e1 (read_coming need k ∙ none),
        )
        refl

  ends-Short :
      (fuel n : ℕ) (data_r : List ℕ) (k : K) (b : ℕ) (bytes : List ℕ)
      → ((all : List ℕ) (k' : K) → Short fuel n all k' → GivesUp fuel n all k')
      → Short (suc fuel) n data_r k
      → buffered k ≡ b ∷ bytes
      → GivesUp (suc fuel) n data_r k
  ends-Short fuel n data_r k b bytes ih (h1, h2, h3) e =
      let need = n - length data_r in
      let all = data_r ++ (b ∷ bytes) in
      let k' = (sock.read need k).1 in
      let size = length-append data_r (b ∷ bytes) in
      let size' = length-append (buffered k) (coming k) in
      let got : take need (buffered k) ≡ b ∷ bytes = take_ge need (buffered k) (omega arith) ∙ e in
      let none_left : buffered k' ≡ [] =
        read_buffered need k ∙ drop_ge need (buffered k) (omega arith) in
      let same : pending sock str k' ≡ coming k =
        ap (λ bs. bs ++ coming k') none_left ∙ read_coming need k in
      let test : (length all == n) ≡ false = lt→ne _ _ (omega (arith, ap length e)) in
      rw (round_some sock str fuel n data_r k b bytes got, test)
        (ih all k' (
          omega (arith, ap length e),
          omega (arith, ap length e, ap length same),
          omega (arith, ap length e, ap (to_wait sock str) none_left, ap (to_wait sock str) e),
        ))

  ends : (fuel n : ℕ) (data_r : List ℕ) (k : K) → Short fuel n data_r k → GivesUp fuel n data_r k
  ends zero n data_r k h = absurd (omega arith)
  ends (suc fuel) n data_r k (h1, h2, h3) = elim (List-cases (buffered k)) [
    | inr (b, r, e) ↦ ends-Short fuel n data_r k b r (ends fuel n) (h1, h2, h3) e
    | inl e ↦ elim (List-cases (coming k)) [
      | inl none ↦ ends_silent fuel n data_r k e none
      | inr (b, r, more) ↦
          let (step, fresh, same) = round_empty sock str fuel n data_r k h1 e (λ p. cc) in
          let all : pending sock str k ≡ coming k = ap (λ bs. bs ++ coming k) e in
          rw step (
            ends fuel n data_r _ (
              h1,
              omega (arith, ap length all, ap length same),
              omega (arith, to_wait_some sock str _ fresh, ap (to_wait sock str) e),
            ))
    ]
  ]

  to_wait_le : (xs : List ℕ) → to_wait sock str xs ≤ 1
  to_wait_le [] = omega arith
  to_wait_le (x ∷ xs) = omega arith

  -- With some bytes still wanted and fuel for two rounds for each and one more, the loop that reads a
  -- long body ends on every stream: with the whole body if the bytes that are there or to come are
  -- enough, which leaves those behind the body to be read, and else by giving up.
  pub read_body_ends :
      (fuel n : ℕ) (data_r : List ℕ) (k : K)
      → length data_r < n
      → 2 * (n - length data_r) + 1 ≤ fuel
      → ((n - length data_r ≤ length (pending sock str k)) × ReadsRest sock str fuel n data_r k)
        ⊎ ((length (pending sock str k) < n - length data_r)
            × ((read_body sock fuel n data_r k).0 ≡ gave_up))
  read_body_ends fuel n data_r k wanted enough =
      let some_fuel : 2 * (n - length data_r) + to_wait sock str (buffered k) ≤ fuel =
        omega (arith, to_wait_le (buffered k)) in
      elim (dec_le (n - length data_r) (length (pending sock str k))) [
        | yes there ↦ inl (there, read_body_lem sock str fuel n data_r k (wanted, there, some_fuel))
        | no short ↦ inr (omega arith, ends fuel n data_r k (wanted, omega arith, some_fuel))
      ]
