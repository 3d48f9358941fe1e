-- ===== src/Hmi/Latest.antt =====
-- What the graphical program shows, whatever happens to it: the latest lists that it heard of.
use daqs.Base.{
  ℕ, ◌≡◌, refl, ap, ◌∙◌, sym, Bool-cases, true, false, String, Option, none, some, List, [], ◌∷◌,
  ◌++◌, map, inl, inr, All,
}
use daqs.Base.Int.{ℤ, scale, fits_int64}
use daqs.DataModel.{Variable, VarValue}
use daqs.Protocol.{Codec}
use daqs.Client.{Socket, Signal, response_received, values_received, variables_received}
use daqs.Client.Connection.{Client}
use daqs.Client.Machine.{ready_read, packets}
use daqs.Client.{request_var_values_between}
use daqs.Hmi.{QColor, Output, writes}
use daqs.Hmi.VarsModel.{model_of, on_variables_received, clear}
use daqs.Hmi.VarValuesModel.{value_model_of, on_values_received, on_timeout, get_values}
use daqs.Hmi.App.{App, on_signal}
use daqs.Hmi.Events.{
  fire, Happening, has_come, timed_out, chosen, appended, Program, on_signals, happen, happen_all,
}

abbrev pub or_else : {A : Type 0} → Option A → Option A → Option A
or_else (some x) o = some x
or_else none o = o

module _ {W : Type 0} where
  abbrev values_in : Option (Signal W) → Option (List (VarValue W))
  values_in (some (values_received vals)) = some vals
  values_in _ = none

  abbrev variables_in : Option (Signal W) → Option (List Variable)
  variables_in (some (variables_received vars)) = some vars
  variables_in _ = none

  -- The last list of its kind.
  abbrev pub last_of :
      {A : Type 0} → (Option (Signal W) → Option A) → List (Option (Signal W)) → Option A
  last_of f [] = none
  last_of f (s ∷ signals) = or_else (last_of f signals) (f s)

  abbrev pub last_values : List (Option (Signal W)) → Option (List (VarValue W))
  last_values = last_of values_in

  abbrev pub last_variables : List (Option (Signal W)) → Option (List Variable)
  last_variables = last_of variables_in

-- A list shown stands until the next one comes.
abbrev pub shown : {A B : Type 0} → (A → B) → Option (List A) → List B → List B
shown f none old = old
shown f (some xs) old = map f xs

shown-or_else :
    {A B : Type 0} (f : A → B) (later now : Option (List A)) (old : List B)
    → shown f (or_else later now) old ≡ shown f later (shown f now old)
shown-or_else f none now old = refl
shown-or_else f (some xs) now old = refl

module _ {W A B : Type 0} (g : Option (Signal W) → Option (List A)) (f : A → B) where
  shown-append :
      (xs ys : List (Option (Signal W))) (old : List B)
      → shown f (last_of g (xs ++ ys)) old ≡ shown f (last_of g ys) (shown f (last_of g xs) old)
  shown-append [] ys old = refl
  shown-append (x ∷ xs) ys old =
      shown-or_else f (last_of g (xs ++ ys)) (g x) old
      ∙ (shown-append xs ys (shown f (g x) old)
          ∙ ap (shown f (last_of g ys)) (sym (shown-or_else f (last_of g xs) (g x) old)))

module _ {W C D : Type 0} (q : QColor C) (from_msecs : ℤ → D) where
  -- The program shows what the signals say.
  abbrev pub Latest : List (Option (Signal W)) → App W C D → App W C D → Type 0
  Latest signals app app' =
      (app'.data_layer.vals
        ≡ shown (value_model_of from_msecs) (last_values signals) app.data_layer.vals)
      × (app'.vars_model.vars ≡ shown (model_of q) (last_variables signals) app.vars_model.vars)

  Latest-trans :
      (xs ys : List (Option (Signal W))) (a b d : App W C D)
      → Latest xs a b
      → Latest ys b d
      → Latest (xs ++ ys) a d
  Latest-trans xs ys a b d (e, e') (u, u') = (
    u
        ∙ (ap (shown (value_model_of from_msecs) (last_values ys)) e
            ∙ sym (shown-append values_in (value_model_of from_msecs) xs ys a.data_layer.vals)),
    u'
        ∙ (ap (shown (model_of q) (last_variables ys)) e'
            ∙ sym (shown-append variables_in (model_of q) xs ys a.vars_model.vars)),
  )

  signal-Latest :
      (c : Codec W) (s : Signal W) (app : App W C D)
      → Latest (some s ∷ []) app (on_signal c q from_msecs s app).0
  unfolding on_signal on_values_received on_variables_received clear
  signal-Latest c (values_received vals) app = (refl, refl)
  signal-Latest c (variables_received vars) app = (refl, refl)
  signal-Latest c (response_received prev_msg status msg) app = (refl, refl)

  signals-Latest :
      (c : Codec W) (signals : List (Option (Signal W))) (app : App W C D)
      → Latest signals app (on_signals c q from_msecs signals app).0
  unfolding on_signals
  signals-Latest c [] app = (refl, refl)
  signals-Latest c (none ∷ signals) app =
      Latest-trans (none ∷ []) signals app app _ (refl, refl) (signals-Latest c signals app)
  signals-Latest c (some s ∷ signals) app =
      let app' = (on_signal c q from_msecs s app).0 in
      Latest-trans (some s ∷ []) signals app app' _ (signal-Latest c s app)
        (signals-Latest c signals app')

-- The packets that come.
abbrev pub come : {C : Type 0} → List (Happening C) → List (List ℕ)
come [] = []
come (has_come bytes ∷ hs) = bytes ∷ come hs
come (_ ∷ hs) = come hs

-- A range that is chosen fits the clock.
abbrev pub InRange : {C : Type 0} → ℕ → Happening C → Type 0
InRange ticks (chosen var s e) =
    (fits_int64 (scale s ticks) ≡ true) × (fits_int64 (scale e ticks) ≡ true)
InRange ticks _ = Unit

module _ {W C D K : Type 0} (c : Codec W) (q : QColor C) (from_msecs : ℤ → D) (ticks : ℕ)
    (sock : Socket K) (fuel : ℕ) (arrive : List ℕ → K → K) where
  -- The client has read the packets, and the program shows what the signals for them say.
  abbrev pub ShowsAll :
      List (Option (Signal W)) × Client K → Program W C D K → Program W C D K → Type 0
  ShowsAll (signals, cl) p p' = (p'.client ≡ cl) × Latest q from_msecs signals p.app p'.app

  abbrev pub run : List (Happening C) → Program W C D K → Option (Program W C D K × List Output)
  run = happen_all c q from_msecs ticks sock fuel arrive

  abbrev pub read : List (Happening C) → Program W C D K → List (Option (Signal W)) × Client K
  read hs p = packets c sock fuel arrive (come hs) p.client

  happens :
      (h : Happening C) (hs : List (Happening C)) (p p' p'' : Program W C D K)
      (out out' : List Output)
      → happen c q from_msecs ticks sock fuel arrive h p ≡ some (p', out)
      → run hs p' ≡ some (p'', out')
      → run (h ∷ hs) p ≡ some (p'', out ++ out')
  unfolding happen_all
  happens h hs p p' p'' out out' e u = rw (happen_all, e, u) refl

  get_values-fits :
      (var : String) (s e : ℤ)
      → fits_int64 (scale s ticks) ≡ true
      → fits_int64 (scale e ticks) ≡ true
      → get_values c ticks var s e
        ≡ some
            (writes (request_var_values_between c ticks var (scale s ticks) (scale e ticks)) ∷ [])
  unfolding get_values
  get_values-fits var s e fits fits' = rw (get_values, fits, fits') refl

  pub shown_latest :
      (hs : List (Happening C)) (p : Program W C D K)
      → All (InRange ticks) hs
      → (p' : Program W C D K) × (out : List Output) × (run hs p ≡ some (p', out))
        × ShowsAll (read hs p) p p'
  unfolding happen_all happen fire packets
  shown_latest [] p fits = (p, [], refl, (refl, (refl, refl)))
  shown_latest (has_come bytes ∷ hs) p (_, more) =
      let cl = record p.client { socket = arrive bytes p.client.socket } in
      let (signals, cl') = ready_read c sock fuel cl in
      let app' = (on_signals c q from_msecs signals p.app).0 in
      let (p'', out', runs, (same, latest)) =
        shown_latest hs (record p { app = app'; client = cl' }) more in
      (
        p'',
        _,
        happens (has_come bytes) hs p _ p'' _ out' refl runs,
        (
          same,
          Latest-trans q from_msecs signals _ p.app app' p''.app
              (signals-Latest q from_msecs c signals p.app) latest,
        ),
      )
  shown_latest (timed_out ∷ hs) p (_, more) = elim (Bool-cases p.timer) [
    | inl on ↦
        let (p'', out', runs, shows) = shown_latest hs (record p { timer = false }) more in
        (
          p'',
          _,
          happens timed_out hs p (record p { timer = false }) p'' (on_timeout c) out' (rw on refl)
              runs,
          shows,
        )
    | inr off ↦
        let (p'', out', runs, shows) = shown_latest hs p more in
        (p'', _, happens timed_out hs p p p'' [] out' (rw off refl) runs, shows)
  ]
  shown_latest (chosen var s e ∷ hs) p ((fits, fits'), more) =
      let (p'', out', runs, shows) = shown_latest hs p more in
      let asked = request_var_values_between c ticks var (scale s ticks) (scale e ticks) in
      (
        p'',
        _,
        happens (chosen var s e) hs p p p'' (writes asked ∷ []) out'
            (rw (happen, get_values-fits var s e fits fits') refl) runs,
        shows,
      )
  shown_latest (appended var ∷ hs) p (_, more) =
      let (p'', out', runs, shows) = shown_latest hs p more in
      (p'', _, happens (appended var) hs p _ p'' _ out' refl runs, shows)
