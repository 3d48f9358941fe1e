-- ===== src/Server/Replies.antt =====
-- What the sessions answer, in the order in which the bodies of their requests were completed.
use mathlib.Core.Path.{subst}
use daqs.Base.{
  ℕ, zero, suc, ◌≡◌, refl, ◌∙◌, inl, inr, ◌⊎◌, true, not, ◌&&◌, Option, none, some, List, [], ◌∷◌,
  ◌++◌, ◌==◌, length, get_elem?, Bool-cases, Option-cases,
}
use daqs.DataAccess.Interface.{IDataAccess}
use daqs.Protocol.{MessageType, Codec}
use daqs.Session.{
  Phase, Event, reading_meta, reading_header, reading_body, writing, ended, did_read, did_write,
  step, on_body,
}
use daqs.Session.Safety.{IsSound, IsRequest}
use daqs.Server.System.{System, Action, did_accept, completed, with_phase, do_accept, react}
use daqs.Server.Serial.{
  Body, body_in, bodies, AllSound, get_elem?-IsSound, requests, react-Leads, Leads,
}
use daqs.Server.Swap.{step_quiet}

pub get_elem?-with_phase_same :
    (i : ℕ) (p q : Phase) (ps : List Phase)
    → get_elem? ps i ≡ some p
    → get_elem? (with_phase i q ps) i ≡ some q
unfolding with_phase
get_elem?-with_phase_same i p q [] e = cc
get_elem?-with_phase_same zero p q (p' ∷ ps) e = refl
get_elem?-with_phase_same (suc i) p q (p' ∷ ps) e = get_elem?-with_phase_same i p q ps e

abbrev phase_of : Option Phase → List Phase
phase_of none = []
phase_of (some p) = p ∷ []

-- The phase of the session that completed a body, behind the action.
abbrev pub reply : {S : Type 0} → Action → List Body → System S → List Phase
reply (completed i ev) (b ∷ bs) y' = phase_of (get_elem? y'.sessions i)
reply a bs y' = []

-- What follows an action, if it is defined.
abbrev pub after : {S B : Type 0} → Option (System S) → (System S → List B) → List B
after none f = []
after (some y) f = f y

module _ {W S : Type 0} (c : Codec W) (da : IDataAccess W S) (ticks : ℕ) where
  unfoldable pub replies : List Action → System S → List Phase
  replies [] y = []
  replies (a ∷ acts) y = elim (react c da ticks a y) [
    | none ↦ []
    | some y' ↦ reply a (bodies c da ticks a y) y' ++ replies acts y'
  ]

  pub replies-next :
      (a : Action) (acts : List Action) (y y' : System S)
      → react c da ticks a y ≡ some y'
      → replies (a ∷ acts) y ≡ reply a (bodies c da ticks a y) y' ++ replies acts y'
  unfolding replies
  replies-next a acts y y' e = rw (replies, e) refl

  pub requests-after :
      (a : Action) (acts : List Action) (y : System S) (bs : List Body)
      → bodies c da ticks a y ≡ bs
      → requests c da ticks (a ∷ acts) y
        ≡ bs ++ after (react c da ticks a y) (requests c da ticks acts)
  unfolding requests
  requests-after a acts y bs e = elim (Option-cases (react c da ticks a y)) [
    | inl u ↦ rw (requests, e, u) refl
    | inr (y', u) ↦ rw (requests, e, u) refl
  ]

  -- A step completes no body, or it is the handler of the body that it completes.
  abbrev BodyOf : Phase → Event → Type 0
  BodyOf p ev =
      (body_in p ev ≡ [])
      ⊎ ((t : MessageType) × (body : List ℕ) × (body_in p ev ≡ (t, body) ∷ [])
          × IsRequest t
          × ((s : S) → step c da ticks p ev s ≡ on_body c da ticks t true body s))

  step-BodyOf : (p : Phase) (ev : Event) → IsSound p → BodyOf p ev
  unfolding step
  step-BodyOf (reading_body t n) (did_read ec bytes) h =
      elim (Bool-cases (not ec && length bytes == n)) [
        | inl whole ↦ inr (t, bytes, rw whole refl, h, λ s. rw whole refl)
        | inr part ↦ inl (rw part refl)
      ]
  step-BodyOf (reading_body t n) (did_write ec m) h = inl refl
  step-BodyOf reading_meta ev h = inl refl
  step-BodyOf (reading_header n) ev h = inl refl
  step-BodyOf (writing f) ev h = inl refl
  step-BodyOf ended ev h = inl refl

  -- An action that completes no body leaves what is stored.
  abbrev pub Quiet : Action → System S → Type 0
  Quiet a y =
      (bodies c da ticks a y ≡ [])
      × ((y' : System S) × (react c da ticks a y ≡ some y') × (y'.world ≡ y.world))

  -- An action that completes a body is its handler, and the session's phase is what this gives.
  abbrev pub Serves : Action → System S → Type 0
  Serves a y =
      (t : MessageType) × (body : List ℕ) × (bodies c da ticks a y ≡ (t, body) ∷ [])
      × IsRequest t
      × ((p : Phase) (s' : S)
          → on_body c da ticks t true body y.world ≡ some (p, s')
          → (y' : System S) × (react c da ticks a y ≡ some y')
            × (y'.world ≡ s')
            × (reply a ((t, body) ∷ []) y' ≡ p ∷ []))

  completed-Quiet :
      (i : ℕ) (ev : Event) (p : Phase) (y : System S)
      → get_elem? y.sessions i ≡ some p
      → body_in p ev ≡ []
      → Quiet (completed i ev) y
  unfolding react
  completed-Quiet i ev p y here none_in =
      let (q, all) = step_quiet c da ticks p ev none_in in
      (
        rw here none_in,
        (
          record { sessions = with_phase i q y.sessions; world = y.world },
          rw (here, all y.world) refl,
          refl,
        ),
      )

  completed-Serves :
      (i : ℕ) (ev : Event) (p : Phase) (y : System S)
      → get_elem? y.sessions i ≡ some p
      → (t : MessageType) (body : List ℕ) → body_in p ev ≡ (t, body) ∷ []
      → IsRequest t
      → ((s : S) → step c da ticks p ev s ≡ on_body c da ticks t true body s)
      → Serves (completed i ev) y
  unfolding react
  completed-Serves i ev p y here t body is request by = (
    t,
    body,
    rw here is,
    request,
    λ q s' u.
        let run : step c da ticks p ev y.world ≡ some (q, s') = by y.world ∙ u in
        (
          record { sessions = with_phase i q y.sessions; world = s' },
          rw (here, run) refl,
          refl,
          rw (get_elem?-with_phase_same i p q y.sessions here) refl,
        ),
  )

  pub react-cases : (a : Action) (y : System S) → AllSound y.sessions → Quiet a y ⊎ Serves a y
  unfolding react do_accept
  react-cases (did_accept ec) y sound = inl (refl, (_, refl, refl))
  react-cases (completed i ev) y sound = elim (Option-cases (get_elem? y.sessions i)) [
    | inl out ↦ inl (rw out refl, (y, rw out refl, refl))
    | inr (p, here) ↦ elim (step-BodyOf p ev (get_elem?-IsSound i p y.sessions sound here)) [
      | inl none_in ↦ inl (completed-Quiet i ev p y here none_in)
      | inr (t, body, is, request, by) ↦ inr (completed-Serves i ev p y here t body is request by)
    ]
  ]

  pub react-AllSound :
      (a : Action) (y y' : System S)
      → AllSound y.sessions
      → react c da ticks a y ≡ some y'
      → AllSound y'.sessions
  react-AllSound a y y' sound e =
      let lead : Leads c da ticks (bodies c da ticks a y) y.world (some y') =
        subst (Leads c da ticks (bodies c da ticks a y) y.world) e
          (react-Leads c da ticks a y sound) in
      lead.1
