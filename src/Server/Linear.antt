-- ===== src/Server/Linear.antt =====
-- Runs of the server over SQLite as histories, request after request.
use mathlib.Core.Path.{subst}
use daqs.Base.{
  ℕ, ◌≤◌, ◌<◌, ◌≡◌, refl, sym, ap, ◌∙◌, arith, true, inl, inr, some, List, [], ◌∷◌, ◌++◌, map,
  length, All,
}
use daqs.DataModel.Floats.{Double, IsIeee}
use daqs.DataSource.Engine.{Engine}
use daqs.DataSource.Sql.{IsSql}
use daqs.DataSource.History.{History}
use daqs.DataAccess.Interface.{IDataAccess}
use daqs.DataAccess.Represents.{Represents, HasClock, source_access}
use daqs.Protocol.{Codec}
use daqs.Session.{max_values_ammount, Phase, writing, on_body}
use daqs.Session.Serve.{answers}
use daqs.Exchange.{Answer, answer_bytes, HasDates}
use daqs.Exchange.Story.{Story, Said, HasRoom, Said-HasRoom}
use daqs.Exchange.Asked.{asked_by, on_body-asked}
use daqs.Exchange.Answered.{request-Answered}
use daqs.Server.System.{System, Action, react, react_all, react_all-some}
use daqs.Server.Serial.{Body, AllSound, bodies, requests}
use daqs.Server.Replies.{
  after, reply, replies, replies-next, requests-after, react-cases, react-AllSound,
}

module _ {W S : Type 0} ⦃d : Double W⦄ (e : Engine W S) (sql : IsSql e) (max_size : ℕ)
    (c : Codec W) where
  open sql use {rounded}

  abbrev da : IDataAccess W S
  da = source_access e sql max_size

  -- The dates that bodies ask for.
  abbrev pub AllDates : List Body → Type 0
  AllDates bs = All (λ b. HasDates (asked_by c e.ticks b)) bs

  -- A run, the bodies it completes, and the history it is.
  abbrev pub Linear : List Action → System S → List Body → History W → Type 0
  Linear acts y bs h =
      (y' : System S) × (ans : List (Answer W)) × (h' : History W) × (react_all c da e.ticks acts y
        ≡ some y')
      × (replies c da e.ticks acts y ≡ map (λ a. writing (answer_bytes c a)) ans)
      × Story rounded e.ticks h (map (asked_by c e.ticks) bs) ans h'
      × Represents e sql max_size y'.world h'

  pub requests-next :
      (a : Action) (acts : List Action) (y y' : System S) (bs : List Body)
      → bodies c da e.ticks a y ≡ bs
      → react c da e.ticks a y ≡ some y'
      → requests c da e.ticks (a ∷ acts) y ≡ bs ++ requests c da e.ticks acts y'
  requests-next a acts y y' bs is run =
      requests-after c da e.ticks a acts y bs is
      ∙ ap (λ o. bs ++ after o (requests c da e.ticks acts)) run

  replies-reply :
      (a : Action) (acts : List Action) (y y' : System S) (bs : List Body) (ps : List Phase)
      → bodies c da e.ticks a y ≡ bs
      → react c da e.ticks a y ≡ some y'
      → reply a bs y' ≡ ps
      → replies c da e.ticks (a ∷ acts) y ≡ ps ++ replies c da e.ticks acts y'
  replies-reply a acts y y' bs ps is run wrote =
      replies-next c da e.ticks a acts y y' run
      ∙ ap (λ qs. qs ++ replies c da e.ticks acts y') (ap (λ xs. reply a xs y') is ∙ wrote)

  reply_none : (a : Action) (y' : System S) → reply a [] y' ≡ []
  reply_none (Action.did_accept ec) y' = refl
  reply_none (Action.completed i ev) y' = refl

  quiet-Linear :
      (a : Action) (acts : List Action) (y y' : System S) (h : History W)
      → bodies c da e.ticks a y ≡ []
      → react c da e.ticks a y ≡ some y'
      → Linear acts y' (requests c da e.ticks acts y') h
      → Linear (a ∷ acts) y (requests c da e.ticks acts y') h
  quiet-Linear a acts y y' h quiet run (y'', ans, h', done, wrote, story, rep) = (
    y'',
    ans,
    h',
    react_all-some c da e.ticks a acts y y' run ∙ done,
    replies-reply a acts y y' [] [] quiet run (reply_none a y') ∙ wrote,
    story,
    rep,
  )

  serves-Linear :
      (a : Action) (acts : List Action) (y y' : System S) (h h1 : History W) (b : Body)
      (an : Answer W)
      → bodies c da e.ticks a y ≡ b ∷ []
      → react c da e.ticks a y ≡ some y'
      → reply a (b ∷ []) y' ≡ writing (answer_bytes c an) ∷ []
      → Said rounded e.ticks h (asked_by c e.ticks b) an h1
      → Linear acts y' (requests c da e.ticks acts y') h1
      → Linear (a ∷ acts) y (b ∷ requests c da e.ticks acts y') h
  serves-Linear a acts y y' h h1 b an one run wrote said (y'', ans, h', done, more, story, rep) = (
    y'',
    an ∷ ans,
    h',
    react_all-some c da e.ticks a acts y y' run ∙ done,
    replies-reply a acts y y' (b ∷ []) _ one run wrote
        ∙ ap (λ ps. writing (answer_bytes c an) ∷ ps) more,
    Story.said said story,
    rep,
  )

  -- If the run's bodies are these, their dates fit and there is room for them, the run is a history.
  abbrev Goes : List Action → System S → History W → List Body → Type 0
  Goes acts y h bs = AllDates bs → HasRoom (length bs) h → Linear acts y bs h

  module _ (ieee : IsIeee W) (room : max_values_ammount ≤ max_size) (ticks : 0 < e.ticks)
      (clock : HasClock e sql max_size) where
    act-Goes :
        (a : Action) (acts : List Action) (y : System S) (h : History W)
        → AllSound y.sessions
        → Represents e sql max_size y.world h
        → ((y' : System S) (h' : History W)
            → AllSound y'.sessions
            → Represents e sql max_size y'.world h'
            → Goes acts y' h' (requests c da e.ticks acts y'))
        → Goes (a ∷ acts) y h (requests c da e.ticks (a ∷ acts) y)
    act-Goes a acts y h sound rep on = elim (react-cases c da e.ticks a y sound) [
      | inl (quiet, (y', run, same)) ↦
          subst (Goes (a ∷ acts) y h) (sym (requests-next a acts y y' [] quiet run)) (λ dates few.
            quiet-Linear a acts y y' h quiet run (
              on y' h (react-AllSound c da e.ticks a y y' sound run)
                (subst (λ s. Represents e sql max_size s h) (sym same) rep) dates few))
      | inr (t, body, one, request, serves) ↦
          subst (Goes (a ∷ acts) y h) (sym (requests-after c da e.ticks a acts y _ one))
            (λ (date, dates) few.
              let (s', h1, (an, means, said), rep1) =
                request-Answered e sql max_size ieee room h (asked_by c e.ticks (t, body)) y.world
                  ticks clock rep (λ name. omega (arith, few name)) in
              let handled : on_body c da e.ticks t true body y.world
                  ≡ some (writing (answer_bytes c an), s') =
                on_body-asked c e.ticks da t body y.world ticks request date
                ∙ ap (answers c) means in
              let (y', run, same, wrote) = serves _ s' handled in
              let next : after (react c da e.ticks a y) (requests c da e.ticks acts)
                  ≡ requests c da e.ticks acts y' =
                ap (λ o. after o (requests c da e.ticks acts)) run in
              subst (λ bs. Linear (a ∷ acts) y ((t, body) ∷ bs) h) (sym next)
                (serves-Linear a acts y y' h h1 (t, body) an one run wrote said
                  (on y' h1 (react-AllSound c da e.ticks a y y' sound run)
                    (subst (λ s. Represents e sql max_size s h1) (sym same) rep1)
                    (subst AllDates next dates)
                    (subst (λ bs. HasRoom (length bs) h1) next (Said-HasRoom _ said few)))))
    ]

    -- The server over an SQLite database is one history of the variables, however its sessions
    -- interleave. If the sessions read bodies of requests only and the database represents a history,
    -- then any run is defined; each session that completed a request's body writes the bytes of an
    -- answer; these answers, in the order in which the bodies were completed, are those that the
    -- history allows to the requests that the bodies ask for, one after another; and the database
    -- represents the history that results. The dates asked for fit, time is not before the epoch and
    -- fits, and no variable comes to 14400 values, counting the requests as well.
    pub linearized :
        (acts : List Action) (y : System S) (h : History W)
        → AllSound y.sessions
        → Represents e sql max_size y.world h
        → AllDates (requests c da e.ticks acts y)
        → HasRoom (length (requests c da e.ticks acts y)) h
        → Linear acts y (requests c da e.ticks acts y) h
    unfolding react_all requests replies
    linearized [] y h sound rep dates few = (y, [], h, refl, refl, Story.silence h, rep)
    linearized (a ∷ acts) y h sound rep dates few =
        act-Goes a acts y h sound rep (λ y' h'. linearized acts y' h') dates few
