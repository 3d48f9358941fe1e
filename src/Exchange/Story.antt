-- ===== src/Exchange/Story.antt =====
-- What the server promises: a history of the variables, the answer to each request on it, and the
-- history that follows. No database, session or byte is mentioned.
use text.Mathlib.Text.{◌==◌ as str_eq}
use daqs.Base.{
  ℕ, suc, ◌+◌, ◌≤◌, ◌<◌, ◌≡◌, true, false, inl, inr, Bool, Bool-cases, String, Option, none, some,
  List, [], ◌∷◌, ◌++◌, map, length, length-append, arith, if◌then◌else◌,
}
use daqs.Base.Int.{quot}
use daqs.DataModel.{Variable, VarValue, default_variable}
use daqs.DataModel.Floats.{Double}
use daqs.DataSource.{TimePoint}
use daqs.DataSource.Tables.{between}
use daqs.DataSource.History.{History, has_name, values_of, new_entry, history_with}
use daqs.DataAccess.Fetch.{Shows}
use daqs.Protocol.{MessageType, ResponseStatus}
use daqs.Session.{max_values_ammount}
use daqs.Exchange.{
  Request, Answer, add_var, save_val, all_vars, all_values, values_between, refused,
}

-- The values whose time passes the test.
unfoldable pub within : {W : Type 0} → (ℕ → Bool) → List (VarValue W) → List (VarValue W)
within test [] = []
within test (v ∷ vs) = let rest = within test vs in if test v.timestamp then v ∷ rest else rest

pub length-within :
    {W : Type 0} (test : ℕ → Bool) (vs : List (VarValue W)) → length (within test vs) ≤ length vs
unfolding within
length-within test [] = omega arith
length-within test (v ∷ vs) = elim (Bool-cases (test v.timestamp)) [
  | inl e ↦ rw e (omega (arith, length-within test vs))
  | inr e ↦ rw e (omega (arith, length-within test vs))
]

-- A value is kept as the database rounds it, at some time, and without a name; an infinity or a NaN
-- is refused.
pub data Said {W : Type 0} ⦃d : Double W⦄ (rounded : W → Option W) (ticks : ℕ)
    : History W → Request W → Answer W → History W → Type 0 where
  added :
      (h : History W) (var : Variable)
      → has_name var.name h ≡ false
      → Said rounded ticks h
          (add_var var)
          (Answer.status "Ok" ResponseStatus.ok (some MessageType.request_add_var))
          (h ++ new_entry var ∷ [])
  not_added :
      (h : History W) (var : Variable)
      → has_name var.name h ≡ true
      → Said rounded ticks h (add_var var) (refused "Failed to save value") h
  saved :
      (h : History W) (name : String) (value : W) (n : ℕ) (x : W)
      → has_name name h ≡ true
      → rounded value ≡ some x
      → Said rounded ticks h
          (save_val name value)
          (Answer.status "Ok" ResponseStatus.ok none)
          (history_with name (record { variable = default_variable; val = x; timestamp = n }) h)
  not_saved :
      (h : History W) (name : String) (value : W)
      → has_name name h ≡ false
      → Said rounded ticks h (save_val name value) (refused "Failed to save value") h
  no_number :
      (h : History W) (name : String) (value : W)
      → rounded value ≡ none
      → Said rounded ticks h (save_val name value) (refused "Failed to save value") h
  listed :
      (h : History W)
      → Said rounded ticks h all_vars (Answer.variables (map (λ en. en.variable) h)) h
  shown :
      (h : History W) (name : String) (r : List (VarValue W))
      → Shows max_values_ammount (values_of name h) r
      → Said rounded ticks h (all_values name) (Answer.values r) h
  shown_between :
      (h : History W) (name : String) (start end : TimePoint) (r : List (VarValue W))
      → Shows max_values_ammount
          (within (between (quot start ticks) (quot end ticks)) (values_of name h))
          r
      → Said rounded ticks h (values_between name start end) (Answer.values r) h

-- Request after request.
pub data Story {W : Type 0} ⦃d : Double W⦄ (rounded : W → Option W) (ticks : ℕ)
    : History W → List (Request W) → List (Answer W) → History W → Type 0 where
  silence : (h : History W) → Story rounded ticks h [] [] h
  said :
      {h h' h'' : History W} {r : Request W} {a : Answer W} {rs : List (Request W)}
      {ans : List (Answer W)}
      → Said rounded ticks h r a h'
      → Story rounded ticks h' rs ans h''
      → Story rounded ticks h (r ∷ rs) (a ∷ ans) h''

-- With so many values more, every variable has fewer than 120 · 120.
abbrev pub HasRoom : {W : Type 0} → ℕ → History W → Type 0
HasRoom n h = (name : String) → length (values_of name h) + n < 14400

module _ {W : Type 0} where
  length-new_entry :
      (name : String) (var : Variable) (h : History W)
      → length (values_of name (h ++ new_entry var ∷ [])) ≤ length (values_of name h)
  unfolding values_of
  length-new_entry name var [] = elim (Bool-cases (str_eq var.name name)) [
    | inl e ↦ rw e (omega arith)
    | inr e ↦ rw e (omega arith)
  ]
  length-new_entry name var (en ∷ h) = elim (Bool-cases (str_eq en.variable.name name)) [
    | inl e ↦ rw e (omega arith)
    | inr e ↦ rw e (length-new_entry name var h)
  ]

  length-history_with :
      (name name' : String) (v : VarValue W) (h : History W)
      → length (values_of name (history_with name' v h)) ≤ length (values_of name h) + 1
  unfolding values_of
  length-history_with name name' v [] = omega arith
  length-history_with name name' v (en ∷ h) = elim (Bool-cases (str_eq en.variable.name name')) [
    | inl e ↦ elim (Bool-cases (str_eq en.variable.name name)) [
      | inl e' ↦ rw (e, e') (omega (arith, length-append en.values (v ∷ [])))
      | inr e' ↦ rw (e, e') (length-history_with name name' v h)
    ]
    | inr e ↦ elim (Bool-cases (str_eq en.variable.name name)) [
      | inl e' ↦ rw (e, e') (omega arith)
      | inr e' ↦ rw (e, e') (length-history_with name name' v h)
    ]
  ]

  fewer :
      (n : ℕ) (h h' : History W)
      → ((name : String) → length (values_of name h') ≤ length (values_of name h) + 1)
      → HasRoom (suc n) h
      → HasRoom n h'
  fewer n h h' more room name = omega (arith, more name, room name)

  pub Said-HasRoom :
      ⦃d : Double W⦄ (n : ℕ) {rounded : W → Option W} {ticks : ℕ} {h h' : History W} {r : Request W}
      {a : Answer W}
      → Said rounded ticks h r a h'
      → HasRoom (suc n) h
      → HasRoom n h'
  Said-HasRoom n (Said.added h var free) room =
      fewer n h _ (λ name. omega (arith, length-new_entry name var h)) room
  Said-HasRoom n (Said.saved h name value k x known number) room =
      fewer n h _ (λ name'. length-history_with name' name _ h) room
  Said-HasRoom n (Said.not_added h var taken) room = fewer n h h (λ name. omega arith) room
  Said-HasRoom n (Said.not_saved h name value free) room = fewer n h h (λ name. omega arith) room
  Said-HasRoom n (Said.no_number h name value bad) room = fewer n h h (λ name. omega arith) room
  Said-HasRoom n (Said.listed h) room = fewer n h h (λ name. omega arith) room
  Said-HasRoom n (Said.shown h name r s) room = fewer n h h (λ name. omega arith) room
  Said-HasRoom n (Said.shown_between h name start end r s) room =
      fewer n h h (λ name. omega arith) room
