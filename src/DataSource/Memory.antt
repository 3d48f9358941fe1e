-- ===== src/DataSource/Memory.antt =====
-- An engine that keeps the two tables in memory and knows the wrapper's statements: the assumptions on
-- SQLite and the conversions hold for it. A number is written_number as so many letters.
use Prim.Native.String.{◌∷◌ as ◌∷ₜ◌}
use Prim.Native.Char.{Char, char, code}
use text.Mathlib.Text.{◌==◌ as str_eq}
use mathlib.Core.Option
use daqs.Base.{
  ◌%◌, ◌^◌, ℕ, zero, suc, ◌+◌, ◌≡◌, refl, Option, none, some, List, [], ◌∷◌, map, String, arith,
  ◌==◌, if◌then◌else◌,
}
use daqs.Base.Int.{pos}
use daqs.DataModel.Floats.{Fraction}
use daqs.DataSource.Engine.{Engine, Arg, Row, Reply, Parsed, quoted, real, integer, parsed, thrown}
use daqs.DataSource.Tables.{
  Tables, create_variable, create_value, insert_variable, insert_written, select_values, always,
  between,
}
use daqs.DataSource.Sql.{
  IsSql, Gives, HasEffect, walk, code_of, variable_cells, value_cells, count_cells,
}
use daqs.DataSource.Statements.{
  create_variable_text, create_value_text, insert_variable_text, insert_value_text,
  select_variables_text, select_values_text, count_values_text, select_between_text,
  count_between_text,
}
use daqs.Protocol.Texts.{chars}

pub letters : ℕ → String → String
letters zero t = t
letters (suc n) t = char 97 tt ∷ₜ letters n t

pub leading : List Char → ℕ
leading [] = 0
leading (c ∷ cs) = let more = suc (leading cs) in if code c == 97 then more else 0

pub behind : List Char → List Char
behind [] = []
behind (c ∷ cs) = let rest = behind cs in if code c == 97 then rest else cs

unfoldable pub fraction_text : Fraction → String
fraction_text x = letters x.num (char 98 tt ∷ₜ letters x.den "")

pub leading-letters : (n : ℕ) (t : String) → leading (chars (letters n t)) ≡ n + leading (chars t)
unfolding leading chars letters
leading-letters zero t = omega arith
leading-letters (suc n) t = rw (leading-letters n t) (omega arith)

behind-letters : (n : ℕ) (t : String) → behind (chars (letters n t)) ≡ behind (chars t)
unfolding behind chars letters
behind-letters zero t = refl
behind-letters (suc n) t = behind-letters n t

-- The database and the clock, which runs around after 2^60 ticks.
pub record Memory : Type 0 where
  pub stored : Tables Fraction
  pub clock : ℕ

abbrev pub answer :
    {A : Type 0} → Option (List Row) → (Row → A → Reply A) → A → Memory → Option (ℕ × A × Memory)
answer none callback a s = some (1, a, s)
answer (some rows) callback a s = code_of (walk callback rows a) s

abbrev pub effect : Memory → Option (Tables Fraction) → ℕ × Memory
effect s none = (1, s)
effect s (some t) = (0, record s { stored = t })

abbrev pub number_text : ℕ → String
number_text n = letters n ""

abbrev pub read_fraction : Option String → Parsed Fraction
read_fraction none = thrown
read_fraction (some t) =
    parsed (record { num = leading (chars t); den = leading (behind (chars t)) })

abbrev pub read_number : Option String → Parsed ℕ
read_number none = thrown
read_number (some t) = parsed (leading (chars t))

abbrev Statement : Type 0
Statement = String × List (Arg Fraction)

-- A fraction over 0 stands for what is no number.
abbrev pub written_number : Fraction → Option Fraction
written_number x = if x.den == 0 then none else some x

insert_variable_args : List (Arg Fraction) → Tables Fraction → Option (Tables Fraction)
insert_variable_args (quoted name ∷ quoted color ∷ _) t = insert_variable name color t
insert_variable_args _ t = none

insert_value_args : List (Arg Fraction) → Tables Fraction → Option (Tables Fraction)
insert_value_args (real x ∷ integer (pos n) ∷ quoted name ∷ _) t =
    insert_written (written_number x) n name t
insert_value_args _ t = none

changed : Statement → Tables Fraction → Option (Tables Fraction)
changed (text, args) t =
    if str_eq text create_variable_text
    then create_variable t
    else if str_eq text create_value_text
    then create_value t
    else if str_eq text insert_variable_text
    then insert_variable_args args t
    else if str_eq text insert_value_text
    then insert_value_args args t
    else none

rows_of : Statement → Tables Fraction → Option (List Row)
rows_of (text, quoted name ∷ []) t =
    if str_eq text select_values_text
    then Option.map (map (value_cells fraction_text number_text)) (select_values name always t)
    else if str_eq text count_values_text
    then Option.map (count_cells number_text) (select_values name always t)
    else none
rows_of (text, quoted name ∷ integer lo ∷ integer hi ∷ []) t =
    if str_eq text select_between_text
    then Option.map (map (value_cells fraction_text number_text))
        (select_values name (between lo hi) t)
    else if str_eq text count_between_text
    then Option.map (count_cells number_text) (select_values name (between lo hi) t)
    else none
rows_of (text, []) t =
    if str_eq text select_variables_text then Option.map (map variable_cells) t.variables else none
rows_of _ t = none

unfoldable pub memory : Engine Fraction Memory
unfolding changed rows_of leading behind letters insert_variable_args insert_value_args
    fraction_text
memory = record {
  Query = Statement;
  plain = λ text. (text, []);
  mprintf = λ text args. (text, args);
  open_file = λ path s. (0, s);
  run = λ q s. effect s (changed q s.stored);
  exec = λ A q callback a s. answer (rows_of q s.stored) callback a s;
  stod = read_fraction;
  stoull = read_number;
  now = λ s. pos (s.clock % 2 ^ 60);
  ticks = 1000000;
}

pub effect_lem :
    (o : Option (Tables Fraction)) (s : Memory) → HasEffect memory (λ m. m.stored) o s (effect s o)
unfolding memory
effect_lem none s = (λ p. omega (arith, p), refl)
effect_lem (some t) s = (refl, refl)

pub answer_lem :
    (q : memory.Query) (o : Option (List Row)) (s : Memory)
    → ((A : Type 0) (callback : Row → A → Reply A) (a : A)
        → memory.exec A q callback a s ≡ answer o callback a s)
    → Gives memory (λ m. m.stored) q o s
answer_lem q none s h = λ A callback a. (0, s, h A callback a, refl)
answer_lem q (some rows) s h = λ A callback a. (s, h A callback a, refl)

pub leading-number_text : (n : ℕ) → leading (chars (number_text n)) ≡ n
unfolding leading chars
leading-number_text n = rw (leading-letters n "") (omega arith)

pub fraction_text-read : (x : Fraction) → read_fraction (some (fraction_text x)) ≡ parsed x
unfolding fraction_text leading behind chars
fraction_text-read x =
    let all : (n : ℕ) → n + 0 ≡ n = λ n. omega arith in
    rw
      (
        leading-letters x.num _,
        behind-letters x.num _,
        leading-letters x.den _,
        all x.num,
        all x.den,
      )
      refl

unfoldable pub memory-IsSql : IsSql memory
unfolding memory changed rows_of insert_variable_args insert_value_args
memory-IsSql = record {
  tables = λ s. s.stored;
  rounded = written_number;
  val_text = fraction_text;
  number_text = number_text;
  stod_text = fraction_text-read;
  stoull_text = λ n h. rw (leading-number_text n) refl;
  run_create_variable = λ s. effect_lem (create_variable s.stored) s;
  run_create_value = λ s. effect_lem (create_value s.stored) s;
  run_insert_variable = λ name color s. effect_lem (insert_variable name color s.stored) s;
  run_insert_value = λ x n name s. effect_lem (insert_written (written_number x) n name s.stored) s;
  exec_variables = λ s. answer_lem (memory.plain select_variables_text) _ s (λ A callback a. refl);
  exec_values = λ name s.
      answer_lem (memory.mprintf select_values_text (quoted name ∷ [])) _ s (λ A callback a. refl);
  exec_between = λ name lo hi s.
      answer_lem (memory.mprintf select_between_text (quoted name ∷ integer lo ∷ integer hi ∷ [])) _
        s (λ A callback a. refl);
  exec_count = λ name s.
      answer_lem (memory.mprintf count_values_text (quoted name ∷ [])) _ s (λ A callback a. refl);
  exec_count_between = λ name lo hi s.
      answer_lem (memory.mprintf count_between_text (quoted name ∷ integer lo ∷ integer hi ∷ [])) _
        s (λ A callback a. refl);
}

-- A database with one variable and two values, and an empty one.
abbrev pub half : ℕ → Fraction
half n = record { num = n; den = 2 }

abbrev pub sample_tables : Tables Fraction
sample_tables = record {
  variables = some (record { id = 1; name = "temp"; color = "#f00" } ∷ []);
  values = some (
      record { val = half 41; timestamp = 1000; variable_id = 1 }
      ∷ record { val = half 43; timestamp = 2000; variable_id = 1 }
      ∷ []);
  next_id = 2;
}

abbrev pub sample_memory : Memory
sample_memory = record { stored = sample_tables; clock = 3000000000 }

abbrev pub empty_memory : Memory
empty_memory = record {
  stored = record { variables = none; values = none; next_id = 1 };
  clock = 0;
}
