-- ===== src/Protocol/Plain.antt =====
-- A codec for which the assumptions on the generated classes hold: each field is written out in order,
-- a list with its length in front, and an empty message as one number.
use daqs.Base.{
  ℕ, ◌∙◌, inl, inr, Bool-cases, zero, suc, ◌≡◌, refl, ap, String, Option, none, some, List, [], ◌∷◌,
  length, ◌==◌, if◌then◌else◌,
}
use daqs.Base.Int.{ℤ, pos, negsuc, fits_int64}
use daqs.DataModel.Floats.{Fraction}
use daqs.Protocol.{
  ResponseStatus, MessageType, Header, SaveVariable, SaveValue, Failure, GetValues, GetVariables,
  ValueItem, Format, Codec, RoundTrips, IsProtobuf, IsInt64, HasInt64,
}
use daqs.Protocol.Texts.{chars, codes, text_of, text_of-codes}

-- A value in front of a list of numbers, and the way back.
pub record Shape (A : Type 0) : Type 0 where
  pub put : A → List ℕ → List ℕ
  pub get : List ℕ → A × List ℕ
  pub get-put : (a : A) (r : List ℕ) → get (put a r) ≡ (a, r)

instance abbrev number : Shape ℕ
number = record {
  put = λ n r. n ∷ r;
  get = λ r. elim r [ [] ↦ (0, []) | n ∷ r' ↦ (n, r') ];
  get-put = λ n r. refl;
}

abbrev pair : {A B : Type 0} → Shape A → Shape B → Shape (A × B)
pair f g = record {
  put = λ p r. f.put p.0 (g.put p.1 r);
  get = λ r. (((f.get r).0, (g.get (f.get r).1).0), (g.get (f.get r).1).1);
  get-put = λ p r. rw (f.get-put p.0 (g.put p.1 r), g.get-put p.1 r) refl;
}

abbrev by :
    {A B : Type 0} (f : Shape A) (to : A → B) (from : B → A) → ((b : B) → to (from b) ≡ b) → Shape B
by f to from h = record {
  put = λ b. f.put (from b);
  get = λ r. (to (f.get r).0, (f.get r).1);
  get-put = λ b r. rw (f.get-put (from b) r, h b) refl;
}

pub get_times : {A : Type 0} → Shape A → ℕ → List ℕ → List A × List ℕ
get_times f zero r = ([], r)
get_times f (suc n) r = let (a, r') = f.get r in let (xs, r'') = get_times f n r' in (a ∷ xs, r'')

pub put_all : {A : Type 0} → Shape A → List A → List ℕ → List ℕ
put_all f [] r = r
put_all f (a ∷ xs) r = f.put a (put_all f xs r)

pub get_times-put_all :
    {A : Type 0} (f : Shape A) (xs : List A) (r : List ℕ)
    → get_times f (length xs) (put_all f xs r) ≡ (xs, r)
unfolding get_times put_all
get_times-put_all f [] r = refl
get_times-put_all f (a ∷ xs) r = rw (f.get-put a (put_all f xs r), get_times-put_all f xs r) refl

abbrev items : {A : Type 0} → Shape A → Shape (List A)
unfolding get_times put_all
items f = record {
  put = λ xs r. length xs ∷ put_all f xs r;
  get = λ r. elim r [ [] ↦ ([], []) | n ∷ r' ↦ get_times f n r' ];
  get-put = get_times-put_all f;
}

abbrev text : Shape String
text = by (items number) text_of codes text_of-codes

abbrev first : {A : Type 0} → List A → Option A
first [] = none
first (a ∷ _) = some a

abbrev at_most_one : {A : Type 0} → Option A → List A
at_most_one none = []
at_most_one (some a) = a ∷ []

pub first-at_most_one : {A : Type 0} (o : Option A) → first (at_most_one o) ≡ o
first-at_most_one none = refl
first-at_most_one (some a) = refl

abbrev optional : {A : Type 0} → Shape A → Shape (Option A)
unfolding get_times put_all
optional f = by (items f) first at_most_one first-at_most_one

abbrev int_of : ℕ × ℕ → ℤ
int_of (zero, n) = pos n
int_of (suc _, n) = negsuc n

abbrev of_int : ℤ → ℕ × ℕ
of_int (pos n) = (0, n)
of_int (negsuc n) = (1, n)

pub int_of-of_int : (z : ℤ) → int_of (of_int z) ≡ z
int_of-of_int (pos n) = refl
int_of-of_int (negsuc n) = refl

abbrev int : Shape ℤ
int = by (pair number number) int_of of_int int_of-of_int

abbrev status_at : ℕ → ResponseStatus
status_at zero = ResponseStatus.ok
status_at (suc zero) = ResponseStatus.failed
status_at _ = ResponseStatus.invalid_argument

abbrev status_number : ResponseStatus → ℕ
status_number ResponseStatus.ok = 0
status_number ResponseStatus.failed = 1
status_number ResponseStatus.invalid_argument = 2

pub status_at-status_number : (st : ResponseStatus) → status_at (status_number st) ≡ st
status_at-status_number ResponseStatus.ok = refl
status_at-status_number ResponseStatus.failed = refl
status_at-status_number ResponseStatus.invalid_argument = refl

abbrev type_at : ℕ → MessageType
type_at n =
    if n == 0
    then MessageType.request_add_var
    else if n == 1
    then MessageType.request_save_value
    else if n == 2
    then MessageType.request_get_values
    else if n == 3
    then MessageType.request_get_variables
    else if n == 4
    then MessageType.response_failure
    else if n == 5
    then MessageType.response_values
    else MessageType.response_variables

abbrev type_number : MessageType → ℕ
type_number MessageType.request_add_var = 0
type_number MessageType.request_save_value = 1
type_number MessageType.request_get_values = 2
type_number MessageType.request_get_variables = 3
type_number MessageType.response_failure = 4
type_number MessageType.response_values = 5
type_number MessageType.response_variables = 6

pub type_at-type_number : (t : MessageType) → type_at (type_number t) ≡ t
type_at-type_number MessageType.request_add_var = refl
type_at-type_number MessageType.request_save_value = refl
type_at-type_number MessageType.request_get_values = refl
type_at-type_number MessageType.request_get_variables = refl
type_at-type_number MessageType.response_failure = refl
type_at-type_number MessageType.response_values = refl
type_at-type_number MessageType.response_variables = refl

abbrev header : Shape Header
header =
    by (pair number number) (λ p. record { msg_type = type_at p.0; body_size = p.1 })
      (λ h. (type_number h.msg_type, h.body_size)) (λ h. rw (type_at-type_number h.msg_type) refl)

abbrev variable : Shape SaveVariable
variable =
    by (pair text text) (λ p. record { name = p.0; color = p.1 }) (λ v. (v.name, v.color))
      (λ v. refl)

abbrev fraction : Shape Fraction
fraction =
    by (pair number number) (λ p. record { num = p.0; den = p.1 }) (λ x. (x.num, x.den)) (λ x. refl)

abbrev save_value : Shape (SaveValue Fraction)
save_value =
    by (pair text fraction) (λ p. record { variable = p.0; value = p.1 })
      (λ v. (v.variable, v.value)) (λ v. refl)

abbrev message_type : Shape MessageType
message_type = by number type_at type_number type_at-type_number

abbrev failure : Shape Failure
failure =
    by
      (pair (by number status_at status_number status_at-status_number)
        (pair text (optional message_type)))
      (λ p. record { status = p.0; msg = p.1.0; prev_msg = p.1.1 })
      (λ m. (m.status, (m.msg, m.prev_msg))) (λ m. refl)

abbrev get_values : Shape GetValues
get_values =
    by (pair text (pair (optional int) (optional int)))
      (λ p. record { variable = p.0; start = p.1.0; end = p.1.1 })
      (λ m. (m.variable, (m.start, m.end))) (λ m. refl)

abbrev get_variables : Shape GetVariables
get_variables = by number (λ n. record {}) (λ m. 0) (λ m. refl)

abbrev value : Shape (ValueItem Fraction)
value =
    by (pair text (pair fraction number))
      (λ p. record { name = p.0; value = p.1.0; timestamp = p.1.1 })
      (λ v. (v.name, (v.value, v.timestamp))) (λ v. refl)

abbrev alone : {A : Type 0} → Shape A → Format A
alone f = record { serialize = λ a. f.put a []; parse = λ bytes. (f.get bytes).0 }

alone-RoundTrips : {A : Type 0} (f : Shape A) → RoundTrips (alone f)
alone-RoundTrips f a = ap (λ p. p.0) (f.get-put a [])

-- No bytes for an empty list.
abbrev repeated : {A : Type 0} → Shape A → Format (List A)
repeated f = record {
  serialize = λ xs. elim xs [ [] ↦ [] | a ∷ r ↦ (items f).put (a ∷ r) [] ];
  parse = λ bytes. elim bytes [ [] ↦ [] | b ∷ r ↦ ((items f).get (b ∷ r)).0 ];
}

-- A date out of the range of `int64` is not read.
abbrev in_int64 : Option ℤ → Option ℤ
in_int64 none = none
in_int64 (some z) = if fits_int64 z then some z else none

in_int64-IsInt64 : (o : Option ℤ) → IsInt64 (in_int64 o)
in_int64-IsInt64 none = tt
in_int64-IsInt64 (some z) = elim (Bool-cases (fits_int64 z)) [
  | inl fits ↦ rw fits fits
  | inr far ↦ rw far tt
]

in_int64_same : (o : Option ℤ) → IsInt64 o → in_int64 o ≡ o
in_int64_same none h = refl
in_int64_same (some z) h = rw h refl

abbrev dated : GetValues → GetValues
dated gv = record gv { start = in_int64 gv.start; end = in_int64 gv.end }

abbrev get_values_format : Format GetValues
get_values_format = record {
  serialize = (alone get_values).serialize;
  parse = λ bytes. dated ((alone get_values).parse bytes);
}

get_values-parse :
    (gv : GetValues) → HasInt64 gv → get_values_format.parse (get_values_format.serialize gv) ≡ gv
get_values-parse gv (from, to) =
    ap dated (alone-RoundTrips get_values gv)
    ∙ rw (in_int64_same gv.start from, in_int64_same gv.end to) refl

repeated-RoundTrips : {A : Type 0} (f : Shape A) → RoundTrips (repeated f)
unfolding items get_times
repeated-RoundTrips f [] = refl
repeated-RoundTrips f (a ∷ r) = ap (λ p. p.0) (get_times-put_all f (a ∷ r) [])

unfoldable pub plain_codec : Codec Fraction
unfolding items put_all get_times chars
plain_codec = record {
  meta = alone number;
  header = alone header;
  save_variable = alone variable;
  save_value = alone save_value;
  failure = alone failure;
  get_values = get_values_format;
  get_variables = alone get_variables;
  values = repeated value;
  variables = repeated variable;
}

pub plain_codec-IsProtobuf : IsProtobuf plain_codec
unfolding plain_codec
plain_codec-IsProtobuf = record {
  meta_parse = λ n _. refl;
  meta_length = λ n. refl;
  header_parse = λ h _. alone-RoundTrips header h;
  save_variable_parse = alone-RoundTrips variable;
  save_value_parse = alone-RoundTrips save_value;
  failure_parse = alone-RoundTrips failure;
  get_values_parse = get_values-parse;
  get_values_range = λ bytes.
      let gv = (alone get_values).parse bytes in
      (in_int64-IsInt64 gv.start, in_int64-IsInt64 gv.end);
  get_variables_parse = alone-RoundTrips get_variables;
  values_parse = repeated-RoundTrips value;
  variables_parse = repeated-RoundTrips variable;
}
