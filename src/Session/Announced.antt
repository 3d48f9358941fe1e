-- ===== src/Session/Announced.antt =====
-- The sizes of the buffers that the handlers of a session make (src/database-server/session.cc,
-- `read_header` and `read_body`), and those that the peer's bytes announce.
use daqs.Base.{
  ℕ, ◌≤◌, ◌≡◌, refl, ◌⊎◌, inl, inr, arith, Bool, true, false, not, ◌&&◌, Option, none, some, List,
  if◌then◌else◌, length, ◌==◌, Bool-cases,
}
use daqs.DataAccess.Interface.{IDataAccess}
use daqs.Protocol.{Codec, MessageType, Header}
use daqs.Session.{
  Phase, Event, reading_meta, reading_header, reading_body, writing, ended, did_read, did_write,
  mh_size, on_meta, on_header, on_write, read_body, send_status_response, step,
}
use daqs.Session.Safety.{IsSound, IsWriting, Follows, step-Follows, on_body_failed}

-- The size of the buffer that a handler makes when the session is to read into it.
abbrev pub announced : Phase → ℕ
announced (reading_header h_size) = h_size
announced (reading_body t b_size) = b_size
announced _ = 0

abbrev pub is_request : MessageType → Bool
is_request MessageType.response_failure = false
is_request MessageType.response_values = false
is_request MessageType.response_variables = false
is_request _ = true

abbrev pub told_body : Header → ℕ
told_body h = if is_request h.msg_type then h.body_size else 0

module _ {W : Type 0} (c : Codec W) where
  -- What the peer announces for the next read: the size of a header, or that of a request's body.
  abbrev pub told : Phase → Event → ℕ
  told reading_meta (did_read false bytes) =
      if length bytes == mh_size c then c.meta.parse bytes else 0
  told (reading_header n) (did_read false bytes) =
      if length bytes == n then told_body (c.header.parse bytes) else 0
  told _ _ = 0

  announced-read_body :
      (t : MessageType) (n : ℕ) → announced (read_body c t n) ≡ (if is_request t then n else 0)
  unfolding read_body send_status_response
  announced-read_body MessageType.request_add_var n = refl
  announced-read_body MessageType.request_save_value n = refl
  announced-read_body MessageType.request_get_values n = refl
  announced-read_body MessageType.request_get_variables n = refl
  announced-read_body MessageType.response_failure n = refl
  announced-read_body MessageType.response_values n = refl
  announced-read_body MessageType.response_variables n = refl

  announced-on_meta :
      (b : Bool) (bytes : List ℕ)
      → announced (on_meta c b bytes) ≡ (if b then c.meta.parse bytes else 0)
  unfolding on_meta send_status_response
  announced-on_meta true bytes = refl
  announced-on_meta false bytes = refl

  announced-on_header :
      (b : Bool) (bytes : List ℕ)
      → announced (on_header c b bytes) ≡ (if b then told_body (c.header.parse bytes) else 0)
  unfolding on_header send_status_response
  announced-on_header true bytes =
      let h = c.header.parse bytes in announced-read_body h.msg_type h.body_size
  announced-on_header false bytes = refl

  announced-on_write : (b : Bool) → announced (on_write c b) ≡ 0
  unfolding on_write send_status_response
  announced-on_write true = refl
  announced-on_write false = refl

announced-IsWriting : (p : Phase) → IsWriting p → announced p ≡ 0
announced-IsWriting (writing f) h = refl
announced-IsWriting reading_meta h = refl
announced-IsWriting (reading_header n) h = absurd h
announced-IsWriting (reading_body t n) h = absurd h
announced-IsWriting ended h = refl

module _ {W S : Type 0} (c : Codec W) (da : IDataAccess W S) (ticks : ℕ) where
  -- A step makes the buffer that its bytes ask for, or none that is larger than the one before.
  abbrev pub Makes : Phase → Event → S → Option (Phase × S) → Type 0
  Makes p ev s none = told c p ev ≡ 0
  Makes p ev s (some (p', s')) =
      ((announced p' ≡ told c p ev) × (s' ≡ s)) ⊎ ((told c p ev ≡ 0) × (announced p' ≤ announced p))

  whole-Makes :
      (t : MessageType) (n : ℕ) (ec : Bool) (bytes : List ℕ) (s : S) (o : Option (Phase × S))
      → (not ec && length bytes == n) ≡ true
      → Follows c da ticks (reading_body t n) (did_read ec bytes) s o
      → Makes (reading_body t n) (did_read ec bytes) s o
  whole-Makes t n true bytes s o whole h = cc
  whole-Makes t n false bytes s none whole h = refl
  whole-Makes t n false bytes s (some (p', s')) whole (inl (_, answers)) =
      let none_made = announced-IsWriting p' answers in inr (refl, omega arith)
  whole-Makes t n false bytes s (some (p', s')) whole (inr (part, _, _, _)) = absurd (part whole)

  failed-Makes :
      (t : MessageType) (n : ℕ) (ec : Bool) (bytes : List ℕ) (s : S)
      → (not ec && length bytes == n) ≡ false
      → Makes
          (reading_body t n)
          (did_read ec bytes)
          s
          (step c da ticks (reading_body t n) (did_read ec bytes) s)
  unfolding step
  failed-Makes t n true bytes s part =
      rw (on_body_failed c da ticks t bytes s) (inr (refl, omega arith))
  failed-Makes t n false bytes s part =
      rw (part, on_body_failed c da ticks t bytes s) (inr (refl, omega arith))

  pub step-Makes :
      (p : Phase) (ev : Event) (s : S) → IsSound p → Makes p ev s (step c da ticks p ev s)
  unfolding step
  step-Makes reading_meta (did_read true bytes) s h = inl (announced-on_meta c _ bytes, refl)
  step-Makes reading_meta (did_read false bytes) s h = inl (announced-on_meta c _ bytes, refl)
  step-Makes (reading_header n) (did_read true bytes) s h =
      inl (announced-on_header c _ bytes, refl)
  step-Makes (reading_header n) (did_read false bytes) s h =
      inl (announced-on_header c _ bytes, refl)
  step-Makes (reading_body t n) (did_read ec bytes) s h =
      elim (Bool-cases (not ec && length bytes == n)) [
        | inl whole ↦
            whole-Makes t n ec bytes s _ whole
              (step-Follows c da ticks (reading_body t n) (did_read ec bytes) s h)
        | inr part ↦ failed-Makes t n ec bytes s part
      ]
  step-Makes (writing f) (did_write ec n) s h = inl (announced-on_write c _, refl)
  step-Makes ended ev s h = inl (refl, refl)
  step-Makes reading_meta (did_write ec n) s h = inl (refl, refl)
  step-Makes (reading_header m) (did_write ec n) s h = inr (refl, omega arith)
  step-Makes (reading_body t m) (did_write ec n) s h = inr (refl, omega arith)
  step-Makes (writing f) (did_read ec bytes) s h = inl (refl, refl)
