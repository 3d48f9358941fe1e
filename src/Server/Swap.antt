-- ===== src/Server/Swap.antt =====
-- Two handlers of different sessions, in either order.
use mathlib.Core.Path.{subst}
use daqs.Base.{
  ℕ, zero, suc, ◌≡◌, ◌≢◌, refl, sym, ap, ◌∙◌, inl, inr, not, ◌&&◌, Option, none, some, List, [],
  ◌∷◌, ◌==◌, if◌then◌else◌, length, get_elem?, Bool-cases, Option-cases,
}
use daqs.DataAccess.Interface.{IDataAccess}
use daqs.Protocol.{Codec}
use daqs.Session.{
  Phase, Event, reading_meta, reading_header, reading_body, writing, ended, did_read, did_write,
  step,
}
use daqs.Session.Safety.{on_body_failed}
use daqs.Server.System.{
  System, Action, completed, with_phase, react, react_all, react_all-none, react_all-some,
}
use daqs.Server.Serial.{Body, body_in, body_at, bodies}

pub get_elem?-with_phase :
    (i j : ℕ) (q : Phase) (ps : List Phase)
    → i ≢ j
    → get_elem? (with_phase i q ps) j ≡ get_elem? ps j
unfolding with_phase
get_elem?-with_phase i j q [] h = refl
get_elem?-with_phase zero zero q (p ∷ ps) h = absurd (h refl)
get_elem?-with_phase zero (suc j) q (p ∷ ps) h = refl
get_elem?-with_phase (suc i) zero q (p ∷ ps) h = refl
get_elem?-with_phase (suc i) (suc j) q (p ∷ ps) h =
    get_elem?-with_phase i j q ps (λ e. h (ap suc e))

with_phase_swap :
    (i j : ℕ) (q r : Phase) (ps : List Phase)
    → i ≢ j
    → with_phase j r (with_phase i q ps) ≡ with_phase i q (with_phase j r ps)
unfolding with_phase
with_phase_swap i j q r [] h = refl
with_phase_swap zero zero q r (p ∷ ps) h = absurd (h refl)
with_phase_swap zero (suc j) q r (p ∷ ps) h = refl
with_phase_swap (suc i) zero q r (p ∷ ps) h = refl
with_phase_swap (suc i) (suc j) q r (p ∷ ps) h =
    ap (λ xs. p ∷ xs) (with_phase_swap i j q r ps (λ e. h (ap suc e)))

with_phase_out :
    (i : ℕ) (q : Phase) (ps : List Phase) → get_elem? ps i ≡ none → with_phase i q ps ≡ ps
unfolding with_phase
with_phase_out i q [] e = refl
with_phase_out zero q (p ∷ ps) e = cc
with_phase_out (suc i) q (p ∷ ps) e = ap (λ xs. p ∷ xs) (with_phase_out i q ps e)

module _ {W S : Type 0} (c : Codec W) (da : IDataAccess W S) (ticks : ℕ) where
  -- A step that completes no body leads to one phase, whatever is stored.
  pub step_quiet :
      (p : Phase) (ev : Event)
      → body_in p ev ≡ []
      → (q : Phase) × ((s : S) → step c da ticks p ev s ≡ some (q, s))
  unfolding step
  step_quiet reading_meta (did_read ec bytes) e = (_, λ s. refl)
  step_quiet (reading_header n) (did_read ec bytes) e = (_, λ s. refl)
  step_quiet (reading_body t n) (did_read ec bytes) e =
      elim (Bool-cases (not ec && length bytes == n)) [
        | inl whole ↦
            let e' : ◌≡◌ {A = List Body} ((t, bytes) ∷ []) [] =
              subst
                (λ b. ◌≡◌ {A = List Body} (if◌then◌else◌ {A = List Body} b ((t, bytes) ∷ []) []) [])
                whole e in
            cc
        | inr part ↦ (ended, λ s. rw part (on_body_failed c da ticks t bytes s))
      ]
  step_quiet (writing f) (did_write ec n) e = (_, λ s. refl)
  step_quiet reading_meta (did_write ec n) e = (_, λ s. refl)
  step_quiet (reading_header m) (did_write ec n) e = (_, λ s. refl)
  step_quiet (reading_body t m) (did_write ec n) e = (_, λ s. refl)
  step_quiet (writing f) (did_read ec bytes) e = (_, λ s. refl)
  step_quiet ended (did_read ec bytes) e = (_, λ s. refl)
  step_quiet ended (did_write ec n) e = (_, λ s. refl)

  -- The same for the server, whatever the other sessions do.
  react_quiet :
      (i : ℕ) (ev : Event) (o : Option Phase)
      → body_at c da ticks ev o ≡ []
      → (q : Phase) × ((ps : List Phase) (s : S)
          → get_elem? ps i ≡ o
          → react c da ticks (completed i ev) (record { sessions = ps; world = s })
            ≡ some (record { sessions = with_phase i q ps; world = s }))
  unfolding react
  react_quiet i ev none e = (ended, λ ps s out. rw (out, with_phase_out i ended ps out) refl)
  react_quiet i ev (some p) e =
      let (q, all) = step_quiet p ev e in (q, λ ps s here. rw (here, all s) refl)

  abbrev sys : List Phase → S → System S
  sys ps s = record { sessions = ps; world = s }

  -- A handler at `j`, and before or after it one at `i` that moves the session to `q`.
  swap_at :
      (i j : ℕ) (ev ev' : Event) (acts : List Action) (q : Phase) (ps : List Phase) (s : S)
      → i ≢ j
      → ((ps' : List Phase) (s' : S)
          → get_elem? ps' i ≡ get_elem? ps i
          → react c da ticks (completed i ev) (sys ps' s') ≡ some (sys (with_phase i q ps') s'))
      → (o : Option Phase) → get_elem? ps j ≡ o
      → react_all c da ticks (completed j ev' ∷ acts) (sys (with_phase i q ps) s)
        ≡ react_all c da ticks (completed j ev' ∷ completed i ev ∷ acts) (sys ps s)
  unfolding react
  swap_at i j ev ev' acts q ps s apart moves none out =
      react_all-some c da ticks (completed j ev') acts (sys (with_phase i q ps) s) _
        (rw (get_elem?-with_phase i j q ps apart, out) refl)
      ∙ sym (
          react_all-some c da ticks (completed j ev') (completed i ev ∷ acts) (sys ps s) (sys ps s)
            (rw out refl)
          ∙ react_all-some c da ticks (completed i ev) acts (sys ps s) _ (moves ps s refl))
  swap_at i j ev ev' acts q ps s apart moves (some p) here =
      let away = get_elem?-with_phase i j q ps apart in
      elim (Option-cases (step c da ticks p ev' s)) [
        | inl u ↦
            react_all-none c da ticks (completed j ev') acts (sys (with_phase i q ps) s)
              (rw (away, here, u) refl)
            ∙ sym (
                react_all-none c da ticks (completed j ev') (completed i ev ∷ acts) (sys ps s)
                  (rw (here, u) refl))
        | inr ((r, s'), u) ↦
            let back = get_elem?-with_phase j i r ps (λ e. apart (sym e)) in
            react_all-some c da ticks (completed j ev') acts (sys (with_phase i q ps) s)
              (sys (with_phase j r (with_phase i q ps)) s') (rw (away, here, u) refl)
            ∙ (ap (λ xs. react_all c da ticks acts (sys xs s')) (with_phase_swap i j q r ps apart)
                ∙ sym (
                    react_all-some c da ticks (completed j ev') (completed i ev ∷ acts) (sys ps s)
                      (sys (with_phase j r ps) s') (rw (here, u) refl)
                    ∙ react_all-some c da ticks (completed i ev) acts (sys (with_phase j r ps) s') _
                        (moves (with_phase j r ps) s' back)))
      ]

  -- Two completions of different sessions can be swapped, whatever is done after them, if the first
  -- completes no body of a request: the server is in the same state, or in both orders undefined.
  pub react_all_swap :
      (i j : ℕ) (ev ev' : Event) (acts : List Action) (y : System S)
      → i ≢ j
      → bodies c da ticks (completed i ev) y ≡ []
      → react_all c da ticks (completed i ev ∷ completed j ev' ∷ acts) y
        ≡ react_all c da ticks (completed j ev' ∷ completed i ev ∷ acts) y
  react_all_swap i j ev ev' acts y apart quiet =
      let (q, moves) = react_quiet i ev (get_elem? y.sessions i) quiet in
      react_all-some c da ticks (completed i ev) (completed j ev' ∷ acts) y _
        (moves y.sessions y.world refl)
      ∙ swap_at i j ev ev' acts q y.sessions y.world apart moves (get_elem? y.sessions j) refl
