-- ===== src/Server/Log.antt =====
-- What was answered on all connections, and what of it belongs to each.
use daqs.Base.{
  ℕ, suc, ◌≡◌, ◌≢◌, refl, ap, true, false, arith, List, [], ◌∷◌, ◌++◌, map, ◌==◌, ==_refl,
  if◌then◌else◌, All, Bool-cases, inl, inr,
}
use daqs.Exchange.{Request, Answer}

-- A session, a request of its client, and the answer.
abbrev pub Log : Type 0 → Type 0
Log W = List (ℕ × (Request W × Answer W))

module _ {W : Type 0} where
  abbrev pub of : ℕ → Log W → List (Request W × Answer W)
  of j [] = []
  of j ((i, x) ∷ log) = let rest = of j log in if i == j then x ∷ rest else rest

  abbrev pub all_requests : Log W → List (Request W)
  all_requests log = map (λ x. x.1.0) log

  abbrev pub all_answers : Log W → List (Answer W)
  all_answers log = map (λ x. x.1.1) log

  abbrev pub requests_of : ℕ → Log W → List (Request W)
  requests_of j log = map (λ x. x.0) (of j log)

  abbrev pub answers_of : ℕ → Log W → List (Answer W)
  answers_of j log = map (λ x. x.1) (of j log)

  abbrev pub tag : ℕ → List (Request W × Answer W) → Log W
  tag i news = map (λ x. (i, x)) news

  pub of-tag : (i : ℕ) (news : List (Request W × Answer W)) → of i (tag i news) ≡ news
  of-tag i [] = refl
  of-tag i (x ∷ news) = rw (==_refl i) (ap (λ xs. x ∷ xs) (of-tag i news))

  pub of-tag_other :
      (i j : ℕ) (news : List (Request W × Answer W)) → (i == j) ≡ false → of j (tag i news) ≡ []
  of-tag_other i j [] h = refl
  of-tag_other i j (x ∷ news) h = rw h (of-tag_other i j news h)

  pub of-append : (j : ℕ) (xs ys : Log W) → of j (xs ++ ys) ≡ of j xs ++ of j ys
  of-append j [] ys = refl
  of-append j ((i, x) ∷ xs) ys = elim (Bool-cases (i == j)) [
    | inl same ↦ rw same (ap (λ zs. x ∷ zs) (of-append j xs ys))
    | inr other ↦ rw other (of-append j xs ys)
  ]

  pub all_requests-tag :
      (i : ℕ) (news : List (Request W × Answer W)) → all_requests (tag i news) ≡ map (λ x. x.0) news
  all_requests-tag i [] = refl
  all_requests-tag i (x ∷ news) = ap (λ xs. x.0 ∷ xs) (all_requests-tag i news)

  pub all_answers-tag :
      (i : ℕ) (news : List (Request W × Answer W)) → all_answers (tag i news) ≡ map (λ x. x.1) news
  all_answers-tag i [] = refl
  all_answers-tag i (x ∷ news) = ap (λ xs. x.1 ∷ xs) (all_answers-tag i news)

-- The turns that a session gets.
abbrev pub count : ℕ → List ℕ → ℕ
count j [] = 0
count j (i ∷ is) = let n = count j is in if i == j then suc n else n

pub eq_of : (i j : ℕ) → (i == j) ≡ true → i ≡ j
eq_of i j h = ground arith

pub ne_of : (i j : ℕ) → (i == j) ≡ false → i ≢ j
ne_of i j h = λ same. absurd (ground (arith, same))

pub All-behind : {A : Type 0} (P : A → Type 0) (xs ys : List A) → All P (xs ++ ys) → All P ys
All-behind P [] ys all = all
All-behind P (x ∷ xs) ys (_, all) = All-behind P xs ys all
