-- ===== src/Session/Serve.antt =====
-- A request that the client writes is served by the session as it is meant.
use daqs.Base.{
  ℕ, ◌≡◌, refl, ap, true, false, String, Option, none, some, List, ◌++◌, length, ==_refl,
}
use daqs.Base.Int.{ℤ, quot, scale, fits_int64, fits_int64-scale-quot, fits_int64-quot}
use daqs.DataModel.{Variable, VarValue}
use daqs.DataSource.{TimePoint}
use daqs.DataAccess.Interface.{AccessErr, IDataAccess}
use daqs.Protocol.{MessageType, ResponseStatus, GetValues, Codec, IsProtobuf}
use daqs.Protocol.Frame.{frame}
use daqs.Session.{
  max_values_ammount, Phase, writing, reading_body, did_read, step, on_body, read_body,
  read_add_variable_request, read_save_value_request, read_get_values_request,
  read_get_variables_request, get_values, send_status_response, send_values_response,
  send_variables_response, reply_added, reply_saved, reply_values, reply_variables,
}
use daqs.Session.Stream.{
  receive_message, with_rest, receive_message-frame, send_response-frame, wanted, handled,
}
use daqs.Client.Writing.{
  send_var-frame, send_var_val-frame, request_vars-frame, request_var_values-frame,
  request_var_values_between-frame,
}
use daqs.Exchange.{
  on_status, on_data, request_body, HasDates, IsSmall, refused, Request, add_var, save_val,
  all_vars, all_values, values_between, sent, meaning, Answer, status, values, variables,
  answer_bytes,
}

-- A session that writes an answer.
abbrev pub answers : {W S : Type 0} → Codec W → Option (Answer W × S) → Option (Phase × S)
answers c none = none
answers c (some (a, s)) = some (writing (answer_bytes c a), s)

-- Each response that the session sends is the frame of an answer.
module _ {W : Type 0} (c : Codec W) where
  pub send_status-answer :
      (msg : String) (st : ResponseStatus) (prev : Option MessageType)
      → send_status_response c msg st prev ≡ writing (answer_bytes c (status msg st prev))
  unfolding send_status_response
  send_status-answer msg st prev = send_response-frame c _ _

  pub send_values-answer :
      (vs : List (VarValue W)) → send_values_response c vs ≡ writing (answer_bytes c (values vs))
  unfolding send_values_response
  send_values-answer vs = send_response-frame c _ _

  pub send_variables-answer :
      (vs : List Variable) → send_variables_response c vs ≡ writing (answer_bytes c (variables vs))
  unfolding send_variables_response
  send_variables-answer vs = send_response-frame c _ _

module _ {W S : Type 0} (c : Codec W) (da : IDataAccess W S) (ticks : ℕ) where
  abbrev at_state :
      (s : S) {p q : Phase} → p ≡ q → ◌≡◌ {A = Option (Phase × S)} (some (p, s)) (some (q, s))
  at_state s e = ap (λ p. some (p, s)) e

  pub added-answers :
      (r : Option (AccessErr × S))
      → reply_added c da ticks r
        ≡ answers c (
            on_status da
              (status "Ok" ResponseStatus.ok (some MessageType.request_add_var))
              (refused "Failed to save value")
              r)
  added-answers none = refl
  added-answers (some (AccessErr.ok, s)) = at_state s (send_status-answer c _ _ _)
  added-answers (some (AccessErr.failed, s)) = at_state s (send_status-answer c _ _ _)
  added-answers (some (AccessErr.invalid_argument, s)) = at_state s (send_status-answer c _ _ _)

  pub saved-answers :
      (r : Option (AccessErr × S))
      → reply_saved c da ticks r
        ≡ answers c
            (on_status da (status "Ok" ResponseStatus.ok none) (refused "Failed to save value") r)
  saved-answers none = refl
  saved-answers (some (AccessErr.ok, s)) = at_state s (send_status-answer c _ _ _)
  saved-answers (some (AccessErr.failed, s)) = at_state s (send_status-answer c _ _ _)
  saved-answers (some (AccessErr.invalid_argument, s)) = at_state s (send_status-answer c _ _ _)

  pub values-answers :
      (r : Option (List (VarValue W) × AccessErr × S))
      → reply_values c da ticks r ≡ answers c (on_data da values (refused "Failed to get values") r)
  values-answers none = refl
  values-answers (some (vs, AccessErr.ok, s)) = at_state s (send_values-answer c vs)
  values-answers (some (vs, AccessErr.failed, s)) = at_state s (send_status-answer c _ _ _)
  values-answers (some (vs, AccessErr.invalid_argument, s)) =
      at_state s (send_status-answer c _ _ _)

  pub variables-answers :
      (r : Option (List Variable × AccessErr × S))
      → reply_variables c da ticks r
        ≡ answers c (on_data da variables (refused "Failed to get variables") r)
  variables-answers none = refl
  variables-answers (some (vs, AccessErr.ok, s)) = at_state s (send_variables-answer c vs)
  variables-answers (some (vs, AccessErr.failed, s)) = at_state s (send_status-answer c _ _ _)
  variables-answers (some (vs, AccessErr.invalid_argument, s)) =
      at_state s (send_status-answer c _ _ _)

module _ {W S : Type 0} (c : Codec W) (law : IsProtobuf c) (da : IDataAccess W S) (ticks : ℕ) where
  pub step_body :
      (t : MessageType) (body : List ℕ) (s : S)
      → step c da ticks (reading_body t (length body)) (did_read false body) s
        ≡ on_body c da ticks t true body s
  unfolding step
  step_body t body s = rw (==_refl (length body))

  handled-add_var :
      (var : Variable) (s : S)
      → handled c law da ticks MessageType.request_add_var
          (c.save_variable.serialize (record { name = var.name; color = var.color }))
          s
        ≡ answers c (meaning da ticks (add_var var) s)
  unfolding on_body read_add_variable_request read_body meaning
  handled-add_var var s =
      rw (step_body, on_body, law.save_variable_parse) (added-answers c da ticks _)

  handled_save_val :
      (var_name : String) (value : W) (s : S)
      → handled c law da ticks MessageType.request_save_value
          (c.save_value.serialize (record { variable = var_name; value = value }))
          s
        ≡ answers c (meaning da ticks (save_val var_name value) s)
  unfolding on_body read_save_value_request read_body meaning
  handled_save_val var_name value s =
      rw (step_body, on_body, law.save_value_parse) (saved-answers c da ticks _)

  handled_all_vars :
      (s : S)
      → handled c law da ticks MessageType.request_get_variables
          (c.get_variables.serialize (record {}))
          s
        ≡ answers c (meaning da ticks all_vars s)
  unfolding on_body read_get_variables_request read_body meaning
  handled_all_vars s = rw (step_body, on_body) (variables-answers c da ticks _)

  handled_all_values :
      (var_name : String) (s : S)
      → handled c law da ticks MessageType.request_get_values
          (c.get_values.serialize (record { variable = var_name; start = none; end = none }))
          s
        ≡ answers c (meaning da ticks (all_values var_name) s)
  unfolding on_body read_get_values_request get_values read_body meaning
  handled_all_values var_name s =
      let gv : GetValues = record { variable = var_name; start = none; end = none } in
      rw (step_body, on_body, law.get_values_parse gv (tt, tt)) (values-answers c da ticks _)

  get_values_between :
      (var_name : String) (from to : ℤ) (s : S)
      → fits_int64 (scale from ticks) ≡ true
      → fits_int64 (scale to ticks) ≡ true
      → get_values c da ticks (record { variable = var_name; start = some from; end = some to }) s
        ≡ da.fetch_variable_values_between var_name
            (scale from ticks)
            (scale to ticks)
            max_values_ammount
            s
  unfolding get_values
  get_values_between var_name from to s e e' = rw (get_values, e, e')

  handled_values_between :
      (var_name : String) (start end : TimePoint) (s : S)
      → fits_int64 start ≡ true
      → fits_int64 end ≡ true
      → handled c law da ticks MessageType.request_get_values
          (c.get_values.serialize (record {
            variable = var_name;
            start = some (quot start ticks);
            end = some (quot end ticks);
          }))
          s
        ≡ answers c (meaning da ticks (values_between var_name start end) s)
  unfolding on_body read_get_values_request read_body meaning
  handled_values_between var_name start end s fits fits' =
      let gv : GetValues = record {
        variable = var_name;
        start = some (quot start ticks);
        end = some (quot end ticks);
      } in
      rw
        (
          step_body,
          on_body,
          law.get_values_parse gv
              (fits_int64-quot start ticks fits, fits_int64-quot end ticks fits'),
          get_values_between var_name (quot start ticks) (quot end ticks) s
              (fits_int64-scale-quot start ticks fits) (fits_int64-scale-quot end ticks fits'),
        )
        (values-answers c da ticks _)

  pub handled-meaning :
      (r : Request W) (s : S)
      → HasDates r
      → let (t, body) = request_body c ticks r in
        handled c law da ticks t body s ≡ answers c (meaning da ticks r s)
  handled-meaning (add_var var) s h = handled-add_var var s
  handled-meaning (save_val var_name value) s h = handled_save_val var_name value s
  handled-meaning all_vars s h = handled_all_vars s
  handled-meaning (all_values var_name) s h = handled_all_values var_name s
  handled-meaning (values_between var_name start end) s (fits, fits') =
      handled_values_between var_name start end s fits fits'

  pub sent-frame :
      (r : Request W)
      → sent c ticks r ≡ frame c (request_body c ticks r).0 (request_body c ticks r).1
  sent-frame (add_var var) = send_var-frame c var
  sent-frame (save_val var_name value) = send_var_val-frame c var_name value
  sent-frame all_vars = request_vars-frame c
  sent-frame (all_values var_name) = request_var_values-frame c var_name
  sent-frame (values_between var_name start end) =
      request_var_values_between-frame c ticks var_name start end

  -- A request waits for the whole of its body.
  wanted-request :
      (r : Request W)
      → let (t, body) = request_body c ticks r in
        wanted c (read_body c t (length body)) ≡ length body
  unfolding wanted read_body
  wanted-request (add_var var) = refl
  wanted-request (save_val var_name value) = refl
  wanted-request all_vars = refl
  wanted-request (all_values var_name) = refl
  wanted-request (values_between var_name start end) = refl

  -- A session that waits for a message and is fed the bytes of any request of the client, with more
  -- bytes behind, makes the call of the data access that the request means, and starts to write the
  -- frame of the answer; the bytes behind are not read. The sizes fit 64 bits and so do the dates.
  pub request_served :
      (r : Request W) (rest : List ℕ) (s : S)
      → IsSmall c (request_body c ticks r)
      → HasDates r
      → receive_message c da ticks (sent c ticks r ++ rest) s
        ≡ with_rest rest (answers c (meaning da ticks r s))
  request_served r rest s (small, small') dates =
      let (t, body) = request_body c ticks r in
      rw (
        sent-frame r,
        receive_message-frame c law da ticks t body rest s small small' (wanted-request r),
        handled-meaning r s dates,
      )
