-- ===== src/DataAccess/Compress/Rounds.antt =====
-- What one round and the loop of `apply_compression` do while the reads stay inside the input, and
-- that the loop is undefined as soon as its chunks do not fit.
use daqs.Base.{
  ℕ, zero, suc, ◌+◌, ◌-◌, ◌*◌, ◌/◌, ◌≤◌, ◌<◌, ◌≡◌, refl, inl, inr, none, some, List, [], ◌∷◌, ◌++◌,
  map, foldl, append_assoc, append-nil, arith, length, get_elem?, take, drop, drop-drop,
  get_elem?-drop, get_elem?-take, get_elem?-lt, get_elem?-some_lt, drop-get_elem?, length-drop,
  length-take, Option-cases,
}
use native.Mathlib.Decide.{dec_le}
use daqs.DataModel.{VarValue, default_variable}
use daqs.DataModel.Floats.{Double}
use daqs.DataAccess.Compress.{
  Cursor, cursor_at, advance, for_each_sum, mean_at, round, rounds, size_mod,
}
use daqs.DataAccess.Compress.Chunks.{cut}

-- The three iterators of round after round, away from the wrap-around of `size_t`.
abbrev pub cursor : ℕ → ℕ → Cursor
cursor c i = record { begin = i; mid = i + c / 2; end = i + c }

pub cursor_at-eq : (c i : ℕ) → i + c < size_mod → cursor_at c i ≡ cursor c i
cursor_at-eq c i h = ground arith

advance-cursor : (c i : ℕ) → advance c (cursor c i) ≡ cursor c (i + c)
advance-cursor c i = ground arith

module _ {W : Type 0} ⦃d : Double W⦄ where
  abbrev pub add_val : W → VarValue W → W
  add_val sum v = d.add sum v.val

  -- The time of the element in the middle of a chunk.
  abbrev pub middle_time : List (VarValue W) → ℕ
  middle_time c = elim (get_elem? c (length c / 2)) [ none ↦ 0 | some v ↦ v.timestamp ]

  -- One value for a chunk: no name, the mean of the values, the time of the middle element.
  unfoldable pub summary : List (VarValue W) → VarValue W
  summary c = record {
    variable = default_variable;
    val = d.div (foldl add_val d.nought c) (d.of_size (length c));
    timestamp = middle_time c;
  }

  for_each_sum_lem :
      (xs : List (VarValue W)) (n i : ℕ) (sum : W)
      → i + n ≤ length xs
      → for_each_sum xs n i sum ≡ some (foldl add_val sum (take n (drop i xs)))
  unfolding for_each_sum
  for_each_sum_lem xs zero i sum h = refl
  for_each_sum_lem xs (suc n) i sum h =
      let (x, e) = get_elem?-lt xs i (omega arith) in
      rw (e, for_each_sum, drop-get_elem? xs i x e)
        (for_each_sum_lem xs n (i + 1) (add_val sum x) (omega arith))

  -- A sum over elements that are not all there is undefined.
  for_each_sum_past :
      (xs : List (VarValue W)) (n i : ℕ) (sum : W)
      → i ≤ length xs
      → length xs < i + n
      → for_each_sum xs n i sum ≡ none
  unfolding for_each_sum
  for_each_sum_past xs zero i sum h k = absurd (omega arith)
  for_each_sum_past xs (suc n) i sum h k = elim (Option-cases (get_elem? xs i)) [
    | inl e ↦ rw (e, for_each_sum)
    | inr (x, e) ↦
        rw (e, for_each_sum)
          (for_each_sum_past xs n (i + 1) (add_val sum x)
            (omega (arith, get_elem?-some_lt xs i x e)) (omega arith))
  ]

  -- The chunk that a round at `i` reads.
  abbrev chunk : List (VarValue W) → ℕ → ℕ → List (VarValue W)
  chunk xs c i = take c (drop i xs)

  length-chunk : (xs : List (VarValue W)) (c i : ℕ) → i + c ≤ length xs → length (chunk xs c i) ≡ c
  length-chunk xs c i h = length-take c (drop i xs) (omega (arith, length-drop i xs))

  -- The element that `mid` points to is the middle one of the chunk.
  chunk_middle :
      (xs : List (VarValue W)) (c i : ℕ)
      → 0 < c
      → i + c ≤ length xs
      → get_elem? (chunk xs c i) (length (chunk xs c i) / 2) ≡ get_elem? xs (i + c / 2)
  chunk_middle xs c i pos h =
      rw (length-chunk xs c i h, get_elem?-take (drop i xs) c (c / 2) (omega arith))
        (get_elem?-drop xs i (c / 2))

  summary-chunk :
      (xs : List (VarValue W)) (c i : ℕ) (x : VarValue W)
      → 0 < c
      → i + c ≤ length xs
      → get_elem? xs (i + c / 2) ≡ some x
      → mean_at c (foldl add_val d.nought (chunk xs c i)) x ≡ summary (chunk xs c i)
  unfolding summary
  summary-chunk xs c i x pos h e = ground (arith, chunk_middle xs c i pos h, length-chunk xs c i h)

  round_lem :
      (xs : List (VarValue W)) (c i : ℕ) (out : List (VarValue W))
      → 0 < c
      → i + c ≤ length xs
      → round xs c (cursor c i) out ≡ some (out ++ summary (chunk xs c i) ∷ [])
  unfolding round
  round_lem xs c i out pos h =
      let width : i + c - i ≡ c = omega arith in
      let (x, e) = get_elem?-lt xs (i + c / 2) (omega arith) in
      rw (round, width, for_each_sum_lem xs c i d.nought h, e, summary-chunk xs c i x pos h e)

  round_past :
      (xs : List (VarValue W)) (c i : ℕ) (out : List (VarValue W))
      → i ≤ length xs
      → length xs < i + c
      → round xs c (cursor c i) out ≡ none
  unfolding round
  round_past xs c i out h k =
      let width : i + c - i ≡ c = omega arith in
      rw (round, width, for_each_sum_past xs c i d.nought h k)

  -- While the chunks fit, the loop appends the summaries of the chunks from `i` on.
  pub rounds_lem :
      (xs : List (VarValue W)) (c k i : ℕ) (out : List (VarValue W))
      → 0 < c
      → i + k * c ≤ length xs
      → rounds xs c k (cursor c i) out ≡ some (out ++ map summary (cut k c (drop i xs)))
  unfolding rounds cut
  rounds_lem xs c zero i out pos h = rw (append-nil out)
  rounds_lem xs c (suc k) i out pos h = rw (
    round_lem xs c i out pos (omega arith),
    rounds,
    advance-cursor c i,
    rounds_lem xs c k (i + c) (out ++ summary (chunk xs c i) ∷ []) pos (omega arith),
    append_assoc,
    drop-drop c i xs,
  )

  -- As soon as the chunks do not fit, the loop is undefined.
  pub rounds_past :
      (xs : List (VarValue W)) (c k i : ℕ) (out : List (VarValue W))
      → 0 < c
      → i ≤ length xs
      → length xs < i + k * c
      → rounds xs c k (cursor c i) out ≡ none
  unfolding rounds
  rounds_past xs c zero i out pos h past = absurd (omega arith)
  rounds_past xs c (suc k) i out pos h past = elim (dec_le (i + c) (length xs)) [
    | yes fits ↦
        rw (round_lem xs c i out pos fits, rounds, advance-cursor c i)
          (rounds_past xs c k (i + c) _ pos fits (omega arith))
    | no over ↦ rw (round_past xs c i out h (omega arith), rounds)
  ]
