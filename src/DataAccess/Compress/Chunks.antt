-- ===== src/DataAccess/Compress/Chunks.antt =====
-- What `compress` is meant to compute: a cut of the input into nearly equal chunks, in order, and
-- one value for each chunk. Independent of the code's loops.
use mathlib.Core.List.{flatten}
use daqs.Base.{
  ℕ, zero, suc, ◌+◌, ◌-◌, ◌*◌, ◌/◌, ◌%◌, ◌≤◌, ◌≡◌, refl, ap, sym, ◌∙◌, ◌⊎◌, inl, inr, List, [], ◌∷◌,
  ◌++◌, append_assoc, arith, length, take, drop, drop-drop, drop-nil, append-nil, ◌<◌, All,
  All-append, length-append, length-take, length-drop, take-append-drop,
}

regroup : (n q r s : ℕ) → n ≡ q * (s + r) + r → n ≡ r * (q + 1) + s * q
regroup n q r s h = omega arith

-- The sizes of the chunks add up to the length.
pub balance : (n m : ℕ) → 0 < m → n ≡ n % m * (n / m + 1) + (m - n % m) * (n / m)
balance n m h =
    let e : m - n % m + n % m ≡ m = omega arith in
    regroup n (n / m) (n % m) (m - n % m) (rw e (omega arith))

module _ {A : Type 0} where
  -- The first `k` chunks of `c` elements.
  unfoldable pub cut : ℕ → ℕ → List A → List (List A)
  cut zero c xs = []
  cut (suc k) c xs = take c xs ∷ cut k c (drop c xs)

  -- `m` chunks, the first ones longer by one than the others if `m` does not divide the length.
  unfoldable pub balanced : ℕ → List A → List (List A)
  unfolding cut
  balanced m xs =
      let q = length xs / m in
      let r = length xs % m in cut r (q + 1) xs ++ cut (m - r) q (drop (r * (q + 1)) xs)

  pub length-cut : (k c : ℕ) (xs : List A) → length (cut k c xs) ≡ k
  unfolding cut
  length-cut zero c xs = refl
  length-cut (suc k) c xs = ap suc (length-cut k c (drop c xs))

  pub cut_sizes : (k c : ℕ) (xs : List A) → k * c ≤ length xs → All (λ p. length p ≡ c) (cut k c xs)
  unfolding cut
  cut_sizes zero c xs h = tt
  cut_sizes (suc k) c xs h =
      (length-take c xs (omega arith), cut_sizes k c (drop c xs) (omega (arith, length-drop c xs)))

  pub flatten-cut : (k c : ℕ) (xs : List A) → flatten (cut k c xs) ++ drop (k * c) xs ≡ xs
  unfolding cut flatten
  flatten-cut zero c xs = let e : 0 * c ≡ 0 = omega arith in rw e
  flatten-cut (suc k) c xs =
      let e : suc k * c ≡ c + k * c = omega arith in
      rw (e, ← drop-drop (k * c) c xs, append_assoc, flatten-cut k c (drop c xs))
        (take-append-drop c xs)

  flatten-append : (xs ys : List (List A)) → flatten (xs ++ ys) ≡ flatten xs ++ flatten ys
  unfolding flatten
  flatten-append [] ys = refl
  flatten-append (x ∷ xs) ys = rw (flatten-append xs ys, append_assoc)

  drop_all : (n : ℕ) (xs : List A) → length xs ≤ n → drop n xs ≡ []
  drop_all n [] h = drop-nil n
  drop_all zero (x ∷ xs) h = absurd (omega arith)
  drop_all (suc n) (x ∷ xs) h = drop_all n xs (omega arith)

  -- A cut that uses up the list gives the list back.
  flatten-cut_all : (k c : ℕ) (xs : List A) → length xs ≡ k * c → flatten (cut k c xs) ≡ xs
  flatten-cut_all k c xs h =
      sym (append-nil (flatten (cut k c xs)))
      ∙ ap (◌++◌ (flatten (cut k c xs))) (sym (drop_all (k * c) xs (omega arith)))
      ∙ flatten-cut k c xs

  abbrev pub IsNear : ℕ → List A → Type 0
  IsNear q p = (length p ≡ q) ⊎ (length p ≡ q + 1)

  All-IsNear :
      {P : List A → Type 0} (q : ℕ)
      → ((p : List A) → P p → IsNear q p)
      → (ps : List (List A)) → All P ps
      → All (IsNear q) ps
  All-IsNear q near [] h = tt
  All-IsNear q near (p ∷ ps) (h, hs) = (near p h, All-IsNear q near ps hs)

  -- The chunks of `balanced` are `m`, hold the input in order, and differ by at most one element.
  pub balanced_lem :
      (m : ℕ) (xs : List A)
      → 0 < m
      → (flatten (balanced m xs) ≡ xs)
        × (length (balanced m xs) ≡ m)
        × All (IsNear (length xs / m)) (balanced m xs)
  unfolding balanced
  balanced_lem m xs h = (
    flatten-append (cut r (q + 1) xs) (cut (m - r) q rest)
        ∙ ap (◌++◌ (flatten (cut r (q + 1) xs))) (
            flatten-cut_all (m - r) q rest
              (omega (arith, balance (length xs) m h, length-drop (r * (q + 1)) xs)))
        ∙ flatten-cut r (q + 1) xs,
    omega (
      arith,
      length-append (cut r (q + 1) xs) (cut (m - r) q rest),
      length-cut r (q + 1) xs,
      length-cut (m - r) q rest,
    ),
    All-append (IsNear q) (cut r (q + 1) xs) (cut (m - r) q rest)
        (All-IsNear q (λ p e. inr e) _
          (cut_sizes r (q + 1) xs (omega (arith, balance (length xs) m h))))
        (All-IsNear q (λ p e. inl e) _
          (cut_sizes (m - r) q rest
            (omega (arith, balance (length xs) m h, length-drop (r * (q + 1)) xs)))),
  )
    where
      q : ℕ
      q = length xs / m

      r : ℕ
      r = length xs % m

      rest : List A
      rest = drop (r * (q + 1)) xs
