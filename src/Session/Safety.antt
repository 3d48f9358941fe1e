-- ===== src/Session/Safety.antt =====
-- What can go wrong in a session: where it ends, when the stored data can change, and what a socket
-- that takes no more writes does to it.
use daqs.Base.{
  ℕ, ◌≡◌, ◌≢◌, refl, ◌⊎◌, inl, inr, Bool, true, false, not, ◌&&◌, String, Option, none, some, List,
  [], ◌∷◌, ◌==◌, length, All, Bool-cases,
}
use daqs.DataModel.{Variable, VarValue}
use daqs.DataAccess.Interface.{AccessErr, IDataAccess}
use daqs.Protocol.{MessageType, ResponseStatus, Codec}
use daqs.Session.{
  Phase, Event, reading_meta, reading_header, reading_body, writing, ended, did_read, did_write,
  step, run, on_meta, on_header, on_body, on_write, read_body, send_status_response,
  send_values_response, send_variables_response, reply_added, reply_saved, reply_values,
  reply_variables, read_add_variable_request, read_save_value_request, read_get_values_request,
  read_get_variables_request,
}

abbrev pub IsRequest : MessageType → Type 0
IsRequest MessageType.response_failure = ⊥
IsRequest MessageType.response_values = ⊥
IsRequest MessageType.response_variables = ⊥
IsRequest _ = Unit

-- The session reads bodies of requests only.
abbrev pub IsSound : Phase → Type 0
IsSound (reading_body t n) = IsRequest t
IsSound _ = Unit

-- The pending operation is the read of a body, and it gave all the bytes.
abbrev pub IsWholeBody : Phase → Event → Type 0
IsWholeBody (reading_body t n) (did_read ec bytes) = (not ec && length bytes == n) ≡ true
IsWholeBody _ _ = ⊥

abbrev pub IsWriting : Phase → Type 0
IsWriting (writing f) = Unit
IsWriting _ = ⊥

module _ {W : Type 0} (c : Codec W) where
  send_status-IsWriting :
      (msg : String) (st : ResponseStatus) (prev : Option MessageType)
      → IsWriting (send_status_response c msg st prev)
  unfolding send_status_response
  send_status-IsWriting msg st prev = tt

  module _ {S : Type 0} (da : IDataAccess W S) (ticks : ℕ) where
    -- The result of the handler of a whole body: a response is written.
    abbrev Responds : Option (Phase × S) → Type 0
    Responds none = Unit
    Responds (some (p, s)) = IsWriting p

    added-Responds : (r : Option (AccessErr × S)) → Responds (reply_added c da ticks r)
    unfolding send_status_response
    added-Responds none = tt
    added-Responds (some (AccessErr.ok, s)) = tt
    added-Responds (some (AccessErr.failed, s)) = tt
    added-Responds (some (AccessErr.invalid_argument, s)) = tt

    saved-Responds : (r : Option (AccessErr × S)) → Responds (reply_saved c da ticks r)
    unfolding send_status_response
    saved-Responds none = tt
    saved-Responds (some (AccessErr.ok, s)) = tt
    saved-Responds (some (AccessErr.failed, s)) = tt
    saved-Responds (some (AccessErr.invalid_argument, s)) = tt

    values-Responds :
        (r : Option (List (VarValue W) × AccessErr × S)) → Responds (reply_values c da ticks r)
    unfolding send_status_response send_values_response
    values-Responds none = tt
    values-Responds (some (vs, AccessErr.ok, s)) = tt
    values-Responds (some (vs, AccessErr.failed, s)) = tt
    values-Responds (some (vs, AccessErr.invalid_argument, s)) = tt

    variables-Responds :
        (r : Option (List Variable × AccessErr × S)) → Responds (reply_variables c da ticks r)
    unfolding send_status_response send_variables_response
    variables-Responds none = tt
    variables-Responds (some (vs, AccessErr.ok, s)) = tt
    variables-Responds (some (vs, AccessErr.failed, s)) = tt
    variables-Responds (some (vs, AccessErr.invalid_argument, s)) = tt

    on_body-Responds :
        (t : MessageType) (bytes : List ℕ) (s : S)
        → IsRequest t
        → Responds (on_body c da ticks t true bytes s)
    unfolding on_body read_add_variable_request read_save_value_request read_get_values_request
        read_get_variables_request
    on_body-Responds MessageType.request_add_var bytes s h = added-Responds _
    on_body-Responds MessageType.request_save_value bytes s h = saved-Responds _
    on_body-Responds MessageType.request_get_values bytes s h = values-Responds _
    on_body-Responds MessageType.request_get_variables bytes s h = variables-Responds _
    on_body-Responds MessageType.response_failure bytes s h = absurd h
    on_body-Responds MessageType.response_values bytes s h = absurd h
    on_body-Responds MessageType.response_variables bytes s h = absurd h

    pub on_body_failed :
        (t : MessageType) (bytes : List ℕ) (s : S)
        → on_body c da ticks t false bytes s ≡ some (ended, s)
    unfolding on_body
    on_body_failed MessageType.request_add_var bytes s = refl
    on_body_failed _ bytes s = refl

    -- The phase after a header: the read of a request's body, or a response.
    abbrev IsNext : Phase → Type 0
    IsNext (reading_body t n) = IsRequest t
    IsNext p = IsWriting p

    read_body-IsNext : (t : MessageType) (n : ℕ) → IsNext (read_body c t n)
    unfolding read_body send_status_response
    read_body-IsNext MessageType.request_add_var n = tt
    read_body-IsNext MessageType.request_save_value n = tt
    read_body-IsNext MessageType.request_get_values n = tt
    read_body-IsNext MessageType.request_get_variables n = tt
    read_body-IsNext MessageType.response_failure n = tt
    read_body-IsNext MessageType.response_values n = tt
    read_body-IsNext MessageType.response_variables n = tt

    -- The read of a body, or nothing, is pending.
    abbrev pub IsLast : Phase → Type 0
    IsLast (reading_body t n) = Unit
    IsLast ended = Unit
    IsLast _ = ⊥

    -- What a step may lead to, by phase and event. At a whole body the step may be undefined, and
    -- else writes; otherwise the stored data stays and the session ends only if the phase is last.
    abbrev pub Follows : Phase → Event → S → Option (Phase × S) → Type 0
    Follows p ev s none = IsWholeBody p ev
    Follows p ev s (some (p', s')) =
        (IsWholeBody p ev × IsWriting p')
        ⊎ ((¬ IsWholeBody p ev) × (s' ≡ s) × IsSound p' × (IsLast p ⊎ (p' ≢ ended)))

    IsNext-IsSound : (p : Phase) → IsNext p → IsSound p × (p ≢ ended)
    IsNext-IsSound (reading_body t n) h = (h, λ e. cc)
    IsNext-IsSound (writing f) h = (tt, λ e. cc)
    IsNext-IsSound reading_meta h = absurd h
    IsNext-IsSound (reading_header n) h = absurd h
    IsNext-IsSound ended h = absurd h

    on_header-IsNext : (b : Bool) (bytes : List ℕ) → IsNext (on_header c b bytes)
    unfolding on_header send_status_response
    on_header-IsNext true bytes = read_body-IsNext _ _
    on_header-IsNext false bytes = tt

    on_meta-IsSound :
        (b : Bool) (bytes : List ℕ) → IsSound (on_meta c b bytes) × (on_meta c b bytes ≢ ended)
    unfolding on_meta send_status_response
    on_meta-IsSound true bytes = (tt, λ e. cc)
    on_meta-IsSound false bytes = (tt, λ e. cc)

    on_write-IsSound : (b : Bool) → IsSound (on_write c b) × (on_write c b ≢ ended)
    unfolding on_write send_status_response
    on_write-IsSound true = (tt, λ e. cc)
    on_write-IsSound false = (tt, λ e. cc)

    -- A step that leaves the data alone and does not end the session.
    quiet :
        (p : Phase) (ev : Event) (s : S) (p' : Phase)
        → ¬ IsWholeBody p ev
        → IsSound p' × (p' ≢ ended)
        → Follows p ev s (some (p', s))
    quiet p ev s p' part (sound, on) = inr (part, refl, sound, inr on)

    responded :
        (p : Phase) (ev : Event) (s : S) (r : Option (Phase × S))
        → IsWholeBody p ev
        → Responds r
        → Follows p ev s r
    responded p ev s none whole h = whole
    responded p ev s (some (p', s')) whole h = inl (whole, h)

    -- From a phase that is sound, so that only bodies of requests are read, one event leads to one
    -- of these: the whole body has come, and a response is being written or the result is undefined;
    -- or it has not, and then the stored data stays as it was, the new phase is sound, and it is not
    -- the end of the session unless a body was being read or the session had ended already.
    pub step-Follows :
        (p : Phase) (ev : Event) (s : S) → IsSound p → Follows p ev s (step c da ticks p ev s)
    unfolding step
    step-Follows reading_meta (did_read ec bytes) s h =
        quiet reading_meta (did_read ec bytes) s _ (λ w. w) (on_meta-IsSound _ bytes)
    step-Follows (reading_header n) (did_read ec bytes) s h =
        quiet (reading_header n) (did_read ec bytes) s _ (λ w. w)
          (IsNext-IsSound _ (on_header-IsNext _ bytes))
    step-Follows (reading_body t n) (did_read ec bytes) s h =
        elim (Bool-cases (not ec && length bytes == n)) [
          | inl whole ↦
              responded (reading_body t n) (did_read ec bytes) s _ whole
                (rw whole (on_body-Responds t bytes s h))
          | inr part ↦ rw (part, on_body_failed t bytes s) (inr (λ w. cc, refl, tt, inl tt))
        ]
    step-Follows (writing f) (did_write ec n) s h =
        quiet (writing f) (did_write ec n) s _ (λ w. w) (on_write-IsSound _)
    step-Follows ended (did_read ec bytes) s h = inr (λ w. w, refl, tt, inl tt)
    step-Follows ended (did_write ec n) s h = inr (λ w. w, refl, tt, inl tt)
    step-Follows reading_meta (did_write ec n) s h =
        quiet reading_meta (did_write ec n) s _ (λ w. w) (tt, λ e. cc)
    step-Follows (reading_header m) (did_write ec n) s h =
        quiet (reading_header m) (did_write ec n) s _ (λ w. w) (tt, λ e. cc)
    step-Follows (reading_body t m) (did_write ec n) s h =
        quiet (reading_body t m) (did_write ec n) s _ (λ w. w) (h, λ e. cc)
    step-Follows (writing f) (did_read ec bytes) s h =
        quiet (writing f) (did_read ec bytes) s _ (λ w. w) (tt, λ e. cc)

-- The write of a response that the socket refuses.
abbrev pub IsFailedWrite : Event → Type 0
IsFailedWrite (did_write true n) = Unit
IsFailedWrite _ = ⊥

module _ {W S : Type 0} (c : Codec W) (da : IDataAccess W S) (ticks : ℕ) where
  -- While the socket refuses every write, the session goes on for ever: after any positive number of
  -- refusals it is writing the same FAILED response once more, and it never ends.
  pub run_dead_socket :
      (evs : List Event) (ev : Event) (f : List ℕ) (s : S)
      → All IsFailedWrite (ev ∷ evs)
      → run c da ticks (writing f) (ev ∷ evs) s
        ≡ some (send_status_response c "writing response" ResponseStatus.failed none, s)
  unfolding run step on_write send_status_response
  run_dead_socket [] (did_write true n) f s h = refl
  run_dead_socket (ev ∷ evs) (did_write true n) f s (h, hs) = run_dead_socket evs ev _ s hs
  run_dead_socket evs (did_write false n) f s (h, hs) = absurd h
  run_dead_socket evs (did_read ec bytes) f s (h, hs) = absurd h
