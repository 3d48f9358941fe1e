-- ===== src/DataAccess/Compress.antt =====
-- `DataAccess::compress` (src/database-server/data-access/dataaccess.cc). Iterators are positions in
-- `in_vals`; `none` is undefined behaviour: a read past the end, or a division by `max_len` 0.
-- Moving an iterator is not checked, only reading through it. A `size_t` is a number below 2^64.
-- The longest length that `reserve` accepts belongs to the standard library and is an argument.
pub mod Chunks
pub mod Rounds
pub mod Correct
mod Tests
use daqs.Base.{
  ℕ, zero, suc, ◌+◌, ◌-◌, ◌*◌, ◌/◌, ◌%◌, ◌^◌, Option, none, some, List, [], ◌∷◌, ◌++◌, ltb, ◌==◌,
  if◌then◌else◌, length, get_elem?,
}
use daqs.DataModel.{VarValue, set_val, set_timestamp, default_value}
use daqs.DataModel.Floats.{Double}
use daqs.DataAccess.Interface.{AccessErr}

-- The number of values of `size_t`.
abbrev pub size_mod : ℕ
size_mod = 2 ^ 64

abbrev pub wrap : ℕ → ℕ
wrap n = n % size_mod

-- The three iterators of `apply_compression`.
pub record Cursor : Type 0 where
  pub begin : ℕ
  pub mid : ℕ
  pub end : ℕ

abbrev pub cursor_at : ℕ → ℕ → Cursor
cursor_at chunk_size offset = record {
  begin = offset;
  mid = wrap (offset + chunk_size / 2);
  end = wrap (offset + chunk_size);
}

abbrev pub advance : ℕ → Cursor → Cursor
advance chunk_size c = record {
  begin = c.begin + chunk_size;
  mid = c.mid + chunk_size;
  end = c.end + chunk_size;
}

module _ {W : Type 0} ⦃d : Double W⦄ where
  -- `for_each(begin, end, sum += val.val())`, with the number of elements to go.
  pub for_each_sum : List (VarValue W) → ℕ → ℕ → W → Option W
  for_each_sum in_vals zero i sum = some sum
  for_each_sum in_vals (suc n) i sum = elim (get_elem? in_vals i) [
    | none ↦ none
    | some v ↦ for_each_sum in_vals n (i + 1) (d.add sum v.val)
  ]

  -- The value that stands for a chunk: the mean, stamped with the time of the element at `mid`.
  abbrev pub mean_at : ℕ → W → VarValue W → VarValue W
  mean_at chunk_size sum mid =
      set_timestamp (set_val default_value (d.div sum (d.of_size chunk_size))) mid.timestamp

  -- The body of the loop of `apply_compression`.
  pub round : List (VarValue W) → ℕ → Cursor → List (VarValue W) → Option (List (VarValue W))
  unfolding for_each_sum
  round in_vals chunk_size c out = elim (for_each_sum in_vals (c.end - c.begin) c.begin d.nought) [
    | none ↦ none
    | some sum ↦ elim (get_elem? in_vals c.mid) [
      | none ↦ none
      | some mid ↦ some (out ++ mean_at chunk_size sum mid ∷ [])
    ]
  ]

  -- The loop, by the number of rounds left.
  pub rounds : List (VarValue W) → ℕ → ℕ → Cursor → List (VarValue W) → Option (List (VarValue W))
  unfolding round
  rounds in_vals chunk_size zero c out = some out
  rounds in_vals chunk_size (suc k) c out = elim (round in_vals chunk_size c out) [
    | none ↦ none
    | some out' ↦ rounds in_vals chunk_size k (advance chunk_size c) out'
  ]

  pub apply_compression :
      List (VarValue W) → ℕ → ℕ → ℕ → List (VarValue W) → Option (List (VarValue W))
  unfolding rounds
  apply_compression in_vals chunk_size in_vals_offset chunk_ammont out =
      rounds in_vals chunk_size chunk_ammont (cursor_at chunk_size in_vals_offset) out

-- `ceil_chunk_size`, through `double`
abbrev pub ceil_chunk_size : (W : Type 0) ⦃d : Double W⦄ → ℕ → ℕ → ℕ
ceil_chunk_size W ⦃d⦄ size max_len = d.ceil_size (d.div (d.of_size size) (d.of_size max_len))

-- `ceil_ammount`
abbrev pub ceil_ammount : ℕ → ℕ → ℕ
ceil_ammount size max_len = if size % max_len == 0 then size / max_len else size % max_len

-- `floor_ammount`, a `size_t`
abbrev pub floor_ammount : ℕ → ℕ → ℕ
floor_ammount size max_len = wrap (max_len + size_mod - ceil_ammount size max_len)

module _ {W : Type 0} ⦃d : Double W⦄ where
  -- The two calls of `apply_compression`: the second one runs once the first one is done.
  pub both_calls :
      List (VarValue W) → List (VarValue W) → ℕ → ℕ → ℕ → ℕ → ℕ → Option (List (VarValue W))
  both_calls in_vals out ceil_chunk ceil_n floor_chunk offset floor_n =
      elim (apply_compression in_vals ceil_chunk 0 ceil_n out) [
        | none ↦ none
        | some out' ↦ apply_compression in_vals floor_chunk offset floor_n out'
      ]

  -- After `reserve`.
  pub compress_parts : List (VarValue W) → List (VarValue W) → ℕ → Option (List (VarValue W))
  compress_parts in_vals out max_len =
      let size = length in_vals in
      let ceil_chunk = ceil_chunk_size W size max_len in
      let ceil_n = ceil_ammount size max_len in
      both_calls in_vals out ceil_chunk ceil_n (size / max_len) (wrap (ceil_chunk * ceil_n))
        (floor_ammount size max_len)

  pub compress :
      ℕ → List (VarValue W) → List (VarValue W) → ℕ → Option (AccessErr × List (VarValue W))
  compress max_size in_vals out max_len =
      if ltb max_size max_len
      then some (AccessErr.invalid_argument, out)
      else if max_len == 0
      then none
      else (elim (compress_parts in_vals out max_len) [
        | none ↦ none
        | some out' ↦ some (AccessErr.ok, out')
      ])
