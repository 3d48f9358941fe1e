-- ===== src/Protocol.antt =====
-- The messages of src/protocol/messages.proto, and what the generated classes do with them: a parameter.
-- A message on the wire is MetaHeader, Header, body.
pub mod Frame
pub mod Texts
pub mod Plain
use daqs.Base.{ℕ, ◌^◌, ◌<◌, ◌≡◌, true, String, Option, none, some, List, length}
use daqs.Base.Int.{ℤ, fits_int64}

pub data ResponseStatus : Type 0 where
  ok failed invalid_argument : ResponseStatus

pub data MessageType : Type 0 where
  request_add_var request_save_value request_get_values request_get_variables : MessageType
  response_failure response_values response_variables : MessageType

-- `MetaHeader` has one field, `headerSize`.
pub record Header : Type 0 where
  pub msg_type : MessageType
  pub body_size : ℕ

pub record SaveVariable : Type 0 where
  pub name : String
  pub color : String

pub record SaveValue (W : Type 0) : Type 0 where
  pub variable : String
  pub value : W

pub record Failure : Type 0 where
  pub status : ResponseStatus
  pub msg : String
  pub prev_msg : Option MessageType

-- The two dates are `int64`; a message that was parsed has none out of its range.
pub record GetValues : Type 0 where
  pub variable : String
  pub start : Option ℤ
  pub end : Option ℤ

pub record GetVariables : Type 0 where

-- The message `VarValue`.
pub record ValueItem (W : Type 0) : Type 0 where
  pub name : String
  pub value : W
  pub timestamp : ℕ

-- `SerializeToArray`, and what `ParseFromArray` leaves in a new message; its result is not looked at.
pub record Format (M : Type 0) : Type 0 where
  pub serialize : M → List ℕ
  pub parse : List ℕ → M

pub record Codec (W : Type 0) : Type 0 where
  pub meta : Format ℕ
  pub header : Format Header
  pub save_variable : Format SaveVariable
  pub save_value : Format (SaveValue W)
  pub failure : Format Failure
  pub get_values : Format GetValues
  pub get_variables : Format GetVariables
  pub values : Format (List (ValueItem W))
  pub variables : Format (List SaveVariable)

abbrev pub RoundTrips : {M : Type 0} → Format M → Type 0
RoundTrips {M} f = (m : M) → f.parse (f.serialize m) ≡ m

-- A field of type `int64` that is there is in its range.
abbrev pub IsInt64 : Option ℤ → Type 0
IsInt64 none = Unit
IsInt64 (some z) = fits_int64 z ≡ true

abbrev pub HasInt64 : GetValues → Type 0
HasInt64 gv = IsInt64 gv.start × IsInt64 gv.end

-- A parsed message is the one that was serialised; the sizes are `fixed64`, so they round trip below
-- 2^64, and the dates of `GetValues` are `int64`, so that they round trip in its range and nothing else
-- is ever parsed. A MetaHeader takes the same number of bytes whatever its field.
pub record IsProtobuf {W : Type 0} (c : Codec W) : Type 0 where
  pub meta_parse : (n : ℕ) → n < 2 ^ 64 → c.meta.parse (c.meta.serialize n) ≡ n
  pub meta_length : (n : ℕ) → length (c.meta.serialize n) ≡ length (c.meta.serialize 1)
  pub header_parse : (h : Header) → h.body_size < 2 ^ 64 → c.header.parse (c.header.serialize h) ≡ h
  pub save_variable_parse : RoundTrips c.save_variable
  pub save_value_parse : RoundTrips c.save_value
  pub failure_parse : RoundTrips c.failure
  pub get_values_parse :
      (gv : GetValues) → HasInt64 gv → c.get_values.parse (c.get_values.serialize gv) ≡ gv
  pub get_values_range : (bytes : List ℕ) → HasInt64 (c.get_values.parse bytes)
  pub get_variables_parse : RoundTrips c.get_variables
  pub values_parse : RoundTrips c.values
  pub variables_parse : RoundTrips c.variables
