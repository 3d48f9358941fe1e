-- ===== src/DataAccess/Compress/Correct.antt =====
-- `compress` computes the summaries of the balanced chunks, and where it does not.
use daqs.Base.{
  ℕ, zero, suc, ◌+◌, ◌-◌, ◌*◌, ◌/◌, ◌%◌, ◌^◌, ◌≤◌, ◌<◌, ◌≡◌, ap, none, some, List, ◌++◌, map,
  append_assoc, map-append, arith, length, drop, All, drop-drop, ◌↔◌, ◌≢◌, le→ltb, pos→ne_zero,
}
use mathlib.Core.List.{flatten}
use native.Mathlib.Decide.{dec_le, ℕ_discrete}
use daqs.DataModel.{VarValue}
use daqs.DataModel.Floats.{Double, IsIeee}
use daqs.DataAccess.Interface.{AccessErr}
use daqs.DataAccess.Compress.{
  apply_compression, ceil_chunk_size, ceil_ammount, compress, both_calls, compress_parts, wrap,
  size_mod,
}
use daqs.DataAccess.Compress.Chunks.{cut, balanced, balance, balanced_lem, IsNear}
use daqs.DataAccess.Compress.Rounds.{summary, cursor_at-eq, rounds_lem, rounds_past}

module _ {W : Type 0} ⦃d : Double W⦄ where
  apply_lem :
      (xs : List (VarValue W)) (c i k : ℕ) (out : List (VarValue W))
      → length xs < 2 ^ 53
      → 0 < c
      → c ≤ length xs
      → i + k * c ≤ length xs
      → apply_compression xs c i k out ≡ some (out ++ map summary (cut k c (drop i xs)))
  unfolding apply_compression
  apply_lem xs c i k out small pos le h =
      rw (cursor_at-eq c i (omega arith)) (rounds_lem xs c k i out pos h)

  apply_past :
      (xs : List (VarValue W)) (c k : ℕ) (out : List (VarValue W))
      → length xs < 2 ^ 53
      → 0 < c
      → c ≤ length xs
      → length xs < k * c
      → apply_compression xs c 0 k out ≡ none
  unfolding apply_compression
  apply_past xs c k out small pos le h =
      rw (cursor_at-eq c 0 (omega arith)) (rounds_past xs c k 0 out pos (omega arith) (omega arith))

  both_calls_lem :
      (xs out : List (VarValue W)) (c k c' i k' : ℕ)
      → length xs < 2 ^ 53
      → (0 < c) × (c ≤ length xs) × (k * c ≤ length xs)
      → (0 < c') × (c' ≤ length xs) × (i + k' * c' ≤ length xs)
      → both_calls xs out c k c' i k'
        ≡ some (out ++ map summary (cut k c xs ++ cut k' c' (drop i xs)))
  unfolding both_calls
  both_calls_lem xs out c k c' i k' small (pos, le, h) (pos', le', h') = rw (
    both_calls,
    apply_lem xs c 0 k out small pos le (omega arith),
    apply_lem xs c' i k' (out ++ map summary (cut k c xs)) small pos' le' h',
    append_assoc,
    map-append,
  )

  both_calls_past :
      (xs out : List (VarValue W)) (c k c' i k' : ℕ)
      → length xs < 2 ^ 53
      → (0 < c) × (c ≤ length xs) × (length xs < k * c)
      → both_calls xs out c k c' i k' ≡ none
  unfolding both_calls
  both_calls_past xs out c k c' i k' small (pos, le, h) =
      rw (both_calls, apply_past xs c k out small pos le h)

  cut-add :
      (a b c : ℕ) (xs : List (VarValue W))
      → cut a c xs ++ cut b c (drop (a * c) xs) ≡ cut (a + b) c xs
  unfolding cut
  cut-add zero b c xs =
      let e : 0 * c ≡ 0 = omega arith in let e' : 0 + b ≡ b = omega arith in rw (e, e')
  cut-add (suc a) b c xs =
      let e : suc a * c ≡ c + a * c = omega arith in
      let e' : suc a + b ≡ suc (a + b) = omega arith in
      rw (e, e', ← drop-drop (a * c) c xs, cut, ← cut-add a b c (drop c xs))

-- The quotient rounded up, from its two bounds.
ceil_exact : (n m c : ℕ) → 0 < m → n % m ≡ 0 → n ≤ c * m → c * m < n + m → c ≡ n / m
ceil_exact n m c pos e lo hi = grind arith

ceil_up : (n m c : ℕ) → 0 < m → n % m ≢ 0 → n ≤ c * m → c * m < n + m → c ≡ n / m + 1
ceil_up n m c pos e lo hi = grind arith

module _ {W : Type 0} ⦃d : Double W⦄ (law : IsIeee W) where
  ceil_chunk-eq :
      (n m : ℕ)
      → 0 < m
      → m ≤ n
      → n < 2 ^ 53
      → (n % m ≡ 0 → ceil_chunk_size W n m ≡ n / m)
        × (n % m ≢ 0 → ceil_chunk_size W n m ≡ n / m + 1)
  ceil_chunk-eq n m pos le small =
      let (lo, hi) = law.ceil_le n m pos small (omega arith) in
      (λ e. ceil_exact n m _ pos e lo hi, λ e. ceil_up n m _ pos e lo hi)

  module _ (max_size : ℕ) (xs out : List (VarValue W)) (m : ℕ) (pos : 0 < m) (le : m ≤ length xs)
      (small : length xs < 2 ^ 53) where
    parts_uneven :
        length xs % m ≢ 0 → compress_parts xs out m ≡ some (out ++ map summary (balanced m xs))
    unfolding balanced compress_parts
    parts_uneven odd =
        let n = length xs in
        let q = n / m in
        let r = n % m in
        let sum = balance n m pos in
        let c : ceil_chunk_size W n m ≡ q + 1 = (ceil_chunk-eq n m pos le small).1 odd in
        let k : ceil_ammount n m ≡ r = ground arith in
        let i : wrap ((q + 1) * r) ≡ r * (q + 1) = grind arith in
        let k' : wrap (m + size_mod - r) ≡ m - r = grind arith in
        rw (c, k, i, k')
          (both_calls_lem xs out (q + 1) r q (r * (q + 1)) (m - r) small
            (grind arith, grind arith, grind arith) (grind arith, grind arith, grind arith))

    even_chunks :
        length xs % m ≡ 0
        → length xs / m ≤ m
        → let q = length xs / m in cut q q xs ++ cut (m - q) q (drop (q * q) xs) ≡ balanced m xs
    unfolding balanced cut
    even_chunks even fits =
        let q = length xs / m in
        let whole : q + (m - q) ≡ m = omega arith in
        let none_before : 0 * (q + 1) ≡ 0 = omega arith in
        let all : m - 0 ≡ m = omega arith in
        rw (cut-add q (m - q) q xs, whole, even, none_before, all)

    parts_even :
        length xs % m ≡ 0
        → length xs ≤ m * m
        → compress_parts xs out m ≡ some (out ++ map summary (balanced m xs))
    unfolding balanced compress_parts
    parts_even even fits =
        let n = length xs in
        let q = n / m in
        let c : ceil_chunk_size W n m ≡ q = (ceil_chunk-eq n m pos le small).0 even in
        let k : ceil_ammount n m ≡ q = ground arith in
        let i : wrap (q * q) ≡ q * q = grind arith in
        let k' : wrap (m + size_mod - q) ≡ m - q = grind arith in
        rw
          (
            c,
            k,
            i,
            k',
            both_calls_lem xs out q q q (q * q) (m - q) small
                (grind arith, grind arith, grind arith) (grind arith, grind arith, grind arith),
          )
          (ap (λ ps. some (out ++ map summary ps)) (even_chunks even (grind arith)))

    parts_past : length xs % m ≡ 0 → m * m < length xs → compress_parts xs out m ≡ none
    unfolding compress_parts
    parts_past even big =
        let n = length xs in
        let q = n / m in
        let c : ceil_chunk_size W n m ≡ q = (ceil_chunk-eq n m pos le small).0 even in
        let k : ceil_ammount n m ≡ q = ground arith in
        rw (c, k) (both_calls_past xs out q q _ _ _ small (grind arith, grind arith, grind arith))

    -- With at least as many values as places, fewer than 2^53 of them, and either a remainder or at
    -- most `max_len` values for each place, the call succeeds, and appends to `out_vals` one summary
    -- for each of the balanced chunks of `in_vals`.
    pub compress-eq-summaries :
        m ≤ max_size
        → (length xs % m ≡ 0 → length xs ≤ m * m)
        → compress max_size xs out m ≡ some (AccessErr.ok, out ++ map summary (balanced m xs))
    unfolding compress
    compress-eq-summaries room fits =
        rw (le→ltb m max_size room, pos→ne_zero m pos)
          (elim (ℕ_discrete (length xs % m) 0) [
            | yes even ↦ rw (parts_even even (fits even))
            | no odd ↦ rw (parts_uneven odd)
          ])

    -- With at least as many values as places, fewer than 2^53 of them, and a positive `max_len` that
    -- `reserve` takes, the call is undefined exactly when `max_len` divides the number of values and
    -- the quotient exceeds `max_len`.
    pub compress_undefined :
        m ≤ max_size
        → (compress max_size xs out m ≡ none) ↔ ((length xs % m ≡ 0) × (m * m < length xs))
    unfolding compress
    compress_undefined room = (
      λ e. elim (ℕ_discrete (length xs % m) 0) [
        | yes even ↦ elim (dec_le (length xs) (m * m)) [
          | yes fits ↦ cc (compress-eq-summaries room (λ _. fits))
          | no big ↦ (even, omega arith)
        ]
        | no odd ↦ cc (compress-eq-summaries room (λ even. absurd (odd even)))
      ],
      λ (even, big). rw (le→ltb m max_size room, pos→ne_zero m pos, parts_past even big),
    )

    -- With at least as many values as places, fewer than 2^53 of them, a positive `max_len` that
    -- `reserve` takes, and, where `max_len` divides their number, a quotient of at most `max_len`, the
    -- call returns Ok and appends to `out_vals` exactly `max_len` values, each of them the summary of a
    -- run of the input; the runs joined are the whole input in order, and the length of each is the
    -- quotient or one more.
    pub compress_partition :
        m ≤ max_size
        → (length xs % m ≡ 0 → length xs ≤ m * m)
        → (runs : List (List (VarValue W))) × (compress max_size xs out m
            ≡ some (AccessErr.ok, out ++ map summary runs))
          × (length runs ≡ m)
          × (flatten runs ≡ xs)
          × All (IsNear (length xs / m)) runs
    compress_partition room fits =
        let (whole, count, near) = balanced_lem m xs pos in
        (balanced m xs, compress-eq-summaries room fits, count, whole, near)
