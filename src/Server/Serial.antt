-- ===== src/Server/Serial.antt =====
-- The sessions of one server, as they interleave: what a request does depends on the requests before it
-- only.
use mathlib.Core.Path.{subst}
use daqs.Base.{
  ℕ, zero, suc, ◌≡◌, refl, inl, inr, true, false, not, ◌&&◌, Option, none, some, List, [], ◌∷◌,
  ◌++◌, ◌==◌, if◌then◌else◌, sym, ap, ◌∙◌, length, All, All-append, get_elem?, Bool-cases,
  Option-cases,
}
use daqs.DataAccess.Interface.{IDataAccess}
use daqs.Protocol.{MessageType, Codec}
use daqs.Session.{
  Phase, Event, reading_meta, reading_header, reading_body, writing, ended, did_read, did_write,
  step, on_body,
}
use daqs.Session.Safety.{IsSound, IsWholeBody, IsWriting, Follows, step-Follows}
use daqs.Server.System.{
  System, Action, did_accept, completed, with_phase, do_accept, moved, step_at, react, react_all,
}

-- A request's type and its body.
abbrev pub Body : Type 0
Body = MessageType × List ℕ

-- The body that an event completes.
abbrev pub body_in : Phase → Event → List Body
body_in (reading_body t n) (did_read ec bytes) =
    if not ec && length bytes == n then (t, bytes) ∷ [] else []
body_in _ _ = []

abbrev pub AllSound : List Phase → Type 0
AllSound ps = All IsSound ps

pub with_phase-AllSound :
    (i : ℕ) (q : Phase) (ps : List Phase) → IsSound q → AllSound ps → AllSound (with_phase i q ps)
unfolding with_phase
with_phase-AllSound i q [] h hs = tt
with_phase-AllSound zero q (p ∷ ps) h (h', hs) = (h, hs)
with_phase-AllSound (suc i) q (p ∷ ps) h (h', hs) = (h', with_phase-AllSound i q ps h hs)

pub get_elem?-IsSound :
    (i : ℕ) (p : Phase) (ps : List Phase) → AllSound ps → get_elem? ps i ≡ some p → IsSound p
get_elem?-IsSound i p [] hs e = cc
get_elem?-IsSound zero p (q ∷ ps) (h, hs) e = let same : q ≡ p = cc in subst IsSound same h
get_elem?-IsSound (suc i) p (q ∷ ps) (h, hs) e = get_elem?-IsSound i p ps hs e

pub IsWriting-IsSound : (p : Phase) → IsWriting p → IsSound p
IsWriting-IsSound (writing f) h = tt
IsWriting-IsSound reading_meta h = tt
IsWriting-IsSound (reading_header n) h = tt
IsWriting-IsSound (reading_body t n) h = absurd h
IsWriting-IsSound ended h = tt

module _ {W S : Type 0} (c : Codec W) (da : IDataAccess W S) (ticks : ℕ) where
  abbrev pub body_at : Event → Option Phase → List Body
  body_at ev none = []
  body_at ev (some p) = body_in p ev

  -- The bodies that an action completes: one at most.
  abbrev pub bodies : Action → System S → List Body
  bodies (did_accept ec) y = []
  bodies (completed i ev) y = body_at ev (get_elem? y.sessions i)

  -- The bodies that a run completes, in their order.
  unfoldable pub requests : List Action → System S → List Body
  requests [] y = []
  requests (a ∷ acts) y =
      bodies a y ++ elim (react c da ticks a y) [ none ↦ [] | some y' ↦ requests acts y' ]

  -- What they do one after another, without sessions.
  pub serial : List Body → S → Option S
  serial [] s = some s
  serial ((t, body) ∷ rest) s = elim (on_body c da ticks t true body s) [
    | none ↦ none
    | some (p, s') ↦ serial rest s'
  ]

  abbrev pub worlds : Option (System S) → Option S
  worlds none = none
  worlds (some y) = some y.world

  unserved :
      (t : MessageType) (body : List ℕ) (bs : List Body) (s : S)
      → on_body c da ticks t true body s ≡ none
      → serial ((t, body) ∷ bs) s ≡ none
  unfolding serial
  unserved t body bs s u = rw (serial, u) refl

  served :
      (t : MessageType) (body : List ℕ) (bs : List Body) (s s' : S) (p : Phase)
      → on_body c da ticks t true body s ≡ some (p, s')
      → serial ((t, body) ∷ bs) s ≡ serial bs s'
  unfolding serial
  served t body bs s s' p u = rw (serial, u) refl

  -- A body that is served, and what is served behind it.
  pub serial-some :
      (t : MessageType) (body : List ℕ) (bs : List Body) (s s' : S)
      → serial ((t, body) ∷ bs) s ≡ some s'
      → (p : Phase) × (s1 : S) × (on_body c da ticks t true body s ≡ some (p, s1))
        × (serial bs s1 ≡ some s')
  serial-some t body bs s s' e = elim (Option-cases (on_body c da ticks t true body s)) [
    | inl u ↦ let none_is : none ≡ some s' = sym (unserved t body bs s u) ∙ e in cc
    | inr ((p, s1), u) ↦ (p, s1, u, sym (served t body bs s s1 p u) ∙ e)
  ]

  serial-append :
      (bs cs : List Body) (s s' : S) → serial bs s ≡ some s' → serial (bs ++ cs) s ≡ serial cs s'
  unfolding serial
  serial-append [] cs s s' e = let same : s ≡ s' = cc in ap (serial cs) same
  serial-append ((t, body) ∷ bs) cs s s' e =
      elim (Option-cases (on_body c da ticks t true body s)) [
        | inl u ↦ let none_is : none ≡ some s' = sym (unserved t body bs s u) ∙ e in cc
        | inr ((p, s1), u) ↦
            rw (served t body (bs ++ cs) s s1 p u)
              (serial-append bs cs s1 s' (sym (served t body bs s s1 p u) ∙ e))
      ]

  serial_append_none : (bs cs : List Body) (s : S) → serial bs s ≡ none → serial (bs ++ cs) s ≡ none
  unfolding serial
  serial_append_none [] cs s e = cc
  serial_append_none ((t, body) ∷ bs) cs s e =
      elim (Option-cases (on_body c da ticks t true body s)) [
        | inl u ↦ unserved t body (bs ++ cs) s u
        | inr ((p, s1), u) ↦
            rw (served t body (bs ++ cs) s s1 p u)
              (serial_append_none bs cs s1 (sym (served t body bs s s1 p u) ∙ e))
      ]

  -- What one session's step may lead to, when it completes these bodies.
  abbrev Moves : List Body → S → Option (Phase × S) → Type 0
  Moves bs s none = serial bs s ≡ none
  Moves bs s (some (p, s')) = (serial bs s ≡ some s') × IsSound p

  quiet-Moves :
      (p : Phase) (ev : Event) (s : S) (r : Option (Phase × S))
      → ¬ IsWholeBody p ev
      → Follows c da ticks p ev s r
      → Moves [] s r
  unfolding serial
  quiet-Moves p ev s none part h = absurd (part h)
  quiet-Moves p ev s (some (p', s')) part (inl (w, _)) = absurd (part w)
  quiet-Moves p ev s (some (p', s')) part (inr (_, same, sound, _)) = (ap some (sym same), sound)

  whole-Moves :
      (t : MessageType) (n : ℕ) (ev : Event) (bytes : List ℕ) (s : S) (r : Option (Phase × S))
      → IsWholeBody (reading_body t n) ev
      → on_body c da ticks t true bytes s ≡ r
      → Follows c da ticks (reading_body t n) ev s r
      → Moves ((t, bytes) ∷ []) s r
  unfolding serial
  whole-Moves t n ev bytes s none whole e h = unserved t bytes [] s e
  whole-Moves t n ev bytes s (some (p, s')) whole e (inl (_, w)) =
      (served t bytes [] s s' p e, IsWriting-IsSound p w)
  whole-Moves t n ev bytes s (some (p, s')) whole e (inr (part, _, _, _)) = absurd (part whole)

  pub step-Moves :
      (p : Phase) (ev : Event) (s : S) → IsSound p → Moves (body_in p ev) s (step c da ticks p ev s)
  unfolding step
  step-Moves (reading_body t n) (did_read ec bytes) s h =
      let next = step-Follows c da ticks (reading_body t n) (did_read ec bytes) s h in
      elim (Bool-cases (not ec && length bytes == n)) [
        | inl whole ↦ rw whole (
            whole-Moves t n (did_read ec bytes) bytes s _ whole refl (
              subst
                (λ b.
                  Follows c da ticks (reading_body t n) (did_read ec bytes) s
                    (on_body c da ticks t b bytes s))
                whole next))
        | inr part ↦ rw part (
            subst (λ b. Moves [] s (on_body c da ticks t b bytes s)) part
              (quiet-Moves (reading_body t n) (did_read ec bytes) s
                (step c da ticks (reading_body t n) (did_read ec bytes) s) (λ w. cc) next))
      ]
  step-Moves (reading_body t n) (did_write ec m) s h =
      quiet-Moves (reading_body t n) (did_write ec m) s
        (step c da ticks (reading_body t n) (did_write ec m) s) (λ w. w)
        (step-Follows c da ticks (reading_body t n) (did_write ec m) s h)
  step-Moves reading_meta ev s h =
      quiet-Moves reading_meta ev s _ (λ w. w) (step-Follows c da ticks reading_meta ev s h)
  step-Moves (reading_header n) ev s h =
      quiet-Moves (reading_header n) ev s _ (λ w. w)
        (step-Follows c da ticks (reading_header n) ev s h)
  step-Moves (writing f) ev s h =
      quiet-Moves (writing f) ev s _ (λ w. w) (step-Follows c da ticks (writing f) ev s h)
  step-Moves ended ev s h =
      quiet-Moves ended ev s (step c da ticks ended ev s) (λ w. w)
        (step-Follows c da ticks ended ev s h)

  -- What one action may lead to, when it completes these bodies.
  abbrev pub Leads : List Body → S → Option (System S) → Type 0
  Leads bs s none = serial bs s ≡ none
  Leads bs s (some y) = (serial bs s ≡ some y.world) × AllSound y.sessions

  moved-Leads :
      (i : ℕ) (ps : List Phase) (bs : List Body) (s : S) (r : Option (Phase × S))
      → AllSound ps
      → Moves bs s r
      → Leads bs s (moved c da ticks i ps r)
  moved-Leads i ps bs s none sound h = h
  moved-Leads i ps bs s (some (p, s')) sound (same, new) =
      (same, with_phase-AllSound i p ps new sound)

  step_at-Leads :
      (i : ℕ) (ev : Event) (ps : List Phase) (s : S)
      → AllSound ps
      → Leads (body_at ev (get_elem? ps i)) s (step_at c da ticks i ev ps s (get_elem? ps i))
  unfolding serial
  step_at-Leads i ev ps s sound = elim (Option-cases (get_elem? ps i)) [
    | inl out ↦ rw out (refl, sound)
    | inr (p, here) ↦ rw here (
        moved-Leads i ps (body_in p ev) s (step c da ticks p ev s) sound
          (step-Moves p ev s (get_elem?-IsSound i p ps sound here)))
  ]

  pub react-Leads :
      (a : Action) (y : System S)
      → AllSound y.sessions
      → Leads (bodies a y) y.world (react c da ticks a y)
  unfolding react do_accept serial
  react-Leads (did_accept true) y sound = (refl, sound)
  react-Leads (did_accept false) y sound = (refl, All-append IsSound _ _ sound (tt, tt))
  react-Leads (completed i ev) y sound = step_at-Leads i ev y.sessions y.world sound

  -- Sessions read bodies of requests only, and this is so for ever.
  abbrev pub Ends : Option (System S) → Type 0
  Ends none = Unit
  Ends (some y) = AllSound y.sessions

  -- If every session of the server reads bodies of requests only, then this is so after all actions,
  -- however they interleave, and the stored data are what the requests whose bodies were completed
  -- make of them one after another, each as a whole, in the order of their completion; the run is
  -- undefined exactly if this is.
  pub react_all-serial :
      (acts : List Action) (y : System S)
      → AllSound y.sessions
      → (worlds (react_all c da ticks acts y) ≡ serial (requests acts y) y.world)
        × Ends (react_all c da ticks acts y)
  unfolding react_all requests serial
  react_all-serial [] y sound = (refl, sound)
  react_all-serial (a ∷ acts) y sound =
      let lead = react-Leads a y sound in
      elim (Option-cases (react c da ticks a y)) [
        | inl u ↦
            rw (react_all, u)
              (
                sym (serial_append_none (bodies a y) [] y.world (subst (Leads _ y.world) u lead)),
                tt,
              )
        | inr (y', u) ↦
            let (same, sound') : Leads (bodies a y) y.world (some y') =
              subst (Leads _ y.world) u lead in
            let (rest, ends) = react_all-serial acts y' sound' in
            rw (react_all, u)
              (rest ∙ sym (serial-append (bodies a y) _ y.world y'.world same), ends)
      ]
