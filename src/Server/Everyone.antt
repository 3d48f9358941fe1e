-- ===== src/Server/Everyone.antt =====
-- All sessions of the server over SQLite, whose clients have written requests, turn after turn.
use mathlib.Core.Path.{subst}
use daqs.Base.{
  ℕ, ◌-◌, ◌+◌, ◌≡◌, refl, sym, arith, inl, inr, Option, some, List, [], ◌++◌, map, All, append-nil,
  get_elem?, ◌==◌, ==_refl, if◌then◌else◌, Bool-cases,
}
use daqs.DataModel.Floats.{Double}
use daqs.DataSource.Engine.{Engine}
use daqs.DataSource.Sql.{IsSql}
use daqs.DataSource.History.{History}
use daqs.DataAccess.Interface.{IDataAccess}
use daqs.DataAccess.Represents.{Represents, source_access}
use daqs.Protocol.{Codec}
use daqs.Session.{Phase, Event, step}
use daqs.Exchange.{Request, Answer}
use daqs.Exchange.Story.{Story, HasRoom}
use daqs.Server.System.{completed, with_phase, react}
use daqs.Server.Network.{Net, put, turn}
use daqs.Server.Log.{
  Log, all_requests, all_answers, requests_of, answers_of, tag, of-tag, of-tag_other,
  all_requests-tag, all_answers-tag, eq_of, All-behind,
}
use daqs.Server.Advance.{Advances}
use daqs.Server.Stage.{Small}
use daqs.Server.Places.{Answers, Requests, StageAt, work_left, moved-StageAt, work_left_moved}

react_at :
    {W S : Type 0} (c : Codec W) (da : IDataAccess W S) (ticks i : ℕ) (ev : Event) (p q : Phase)
    (ps : List Phase) (s s' : S)
    → get_elem? ps i ≡ some p
    → step c da ticks p ev s ≡ some (q, s')
    → react c da ticks (completed i ev) (record { sessions = ps; world = s })
      ≡ some (record { sessions = with_phase i q ps; world = s' })
unfolding react
react_at c da ticks i ev p q ps s s' here e = rw (here, e) refl

-- A turn of the session at `i`, in the numbers of turns needed.
abbrev pub one_less : ℕ → (ℕ → ℕ) → ℕ → ℕ
one_less i f j = if i == j then f j - 1 else f j

module _ {W S : Type 0} ⦃d : Double W⦄ (e : Engine W S) (sql : IsSql e) (max_size : ℕ)
    (c : Codec W) where
  open sql use {rounded}

  abbrev da : IDataAccess W S
  da = source_access e sql max_size

  abbrev pub Stages : Net S → Answers c e.ticks → Requests c e.ticks → Type 0
  Stages net ans rest =
      (j : ℕ) → StageAt c e.ticks j net.system.sessions net.incoming net.written ans rest

  -- The answers and the requests of every session, before and after what the log says.
  abbrev pub Splits :
      Log W
      → Answers c e.ticks
      → Requests c e.ticks
      → Answers c e.ticks
      → Requests c e.ticks
      → Type 0
  Splits log ans rest ans' rest' =
      (j : ℕ) → (ans' j ≡ ans j ++ answers_of j log) × (rest j ≡ requests_of j log ++ rest' j)

  -- A way to go on: with what follows, and the work that a session then has left.
  abbrev pub GoesOn :
      Option (Net S)
      → ((ℕ → ℕ) → ℕ → ℕ)
      → ℕ
      → Net S
      → Answers c e.ticks
      → Requests c e.ticks
      → History W
      → Type 0
  GoesOn o left turns_taken net ans rest h =
      (net' : Net S) × (log : Log W) × (ans' : Answers c e.ticks) × (rest' : Requests c e.ticks)
      × (h' : History W) × (o ≡ some net')
      × Stages net' ans' rest'
      × Splits log ans rest ans' rest'
      × Story rounded e.ticks h (all_requests log) (all_answers log) h'
      × Represents e sql max_size net'.system.world h'
      × ((n : ℕ) → HasRoom (turns_taken + n) h → HasRoom n h')
      × ((j : ℕ)
          → work_left c e.ticks net'.system.sessions rest' j
            ≡ left (work_left c e.ticks net.system.sessions rest) j)

  pub stays :
      (i : ℕ) (net : Net S) (ans : Answers c e.ticks) (rest : Requests c e.ticks) (h : History W)
      → turn c da e.ticks i net ≡ some net
      → work_left c e.ticks net.system.sessions rest i ≡ 0
      → Stages net ans rest
      → Represents e sql max_size net.system.world h
      → GoesOn (turn c da e.ticks i net) (one_less i) 1 net ans rest h
  stays i net ans rest h same idle stages rep = (
    net,
    [],
    ans,
    rest,
    h,
    same,
    stages,
    (λ j. (sym (append-nil (ans j)), refl)),
    Story.silence h,
    rep,
    (λ n room name. omega (arith, room name)),
    (λ j. elim (Bool-cases (i == j)) [
      | inl here ↦
          let none_left : work_left c e.ticks net.system.sessions rest j ≡ 0 =
            subst (λ k. work_left c e.ticks net.system.sessions rest k ≡ 0) (eq_of i j here) idle in
          rw here (omega (arith, none_left))
      | inr other ↦ rw other refl
    ]),
  )

  news-Splits :
      (i : ℕ) (news : List (Request W × Answer W)) (left : List (Request W))
      (ans : Answers c e.ticks) (rest : Requests c e.ticks)
      → rest i ≡ map (λ x. x.0) news ++ left
      → Splits (tag i news) ans rest (put i (ans i ++ map (λ x. x.1) news) ans) (put i left rest)
  news-Splits i news left ans rest divides j = elim (Bool-cases (i == j)) [
    | inl same ↦
        let Same : ℕ → Type 0 = λ k.
          (put i (ans i ++ map (λ x. x.1) news) ans k ≡ ans k ++ answers_of k (tag i news))
          × (rest k ≡ requests_of k (tag i news) ++ put i left rest k) in
        let at_i : Same i = rw (==_refl i, of-tag i news) (refl, divides) in
        subst Same (eq_of i j same) at_i
    | inr other ↦ rw (other, of-tag_other i j news other) (sym (append-nil (ans j)), refl)
  ]

  pub advances :
      (i : ℕ) (p : Phase) (net : Net S) (ans : Answers c e.ticks) (rest : Requests c e.ticks)
      (h : History W)
      → get_elem? net.system.sessions i ≡ some p
      → Stages net ans rest
      → Advances e sql max_size c p
          (net.incoming i)
          (net.written i)
          (ans i)
          (rest i)
          net.system.world
          h
      → GoesOn (turn c da e.ticks i net) (one_less i) 1 net ans rest h
  unfolding turn
  advances i p net ans rest h here stages
        (ev, inc', new, q, s', h', news, left, comp, run, at, divides, story, rep, room, less) =
      let ps = net.system.sessions in
      let moves = react_at c da e.ticks i ev p q ps net.system.world s' here run in
      let small =
        All-behind (Small c e.ticks) (map (λ x. x.0) news) left
          (subst (All (Small c e.ticks)) divides (stages i p here).1) in
      (
        record {
          system = record { sessions = with_phase i q ps; world = s' };
          incoming = put i inc' net.incoming;
          written = put i (net.written i ++ new) net.written;
        },
        tag i news,
        put i (ans i ++ map (λ x. x.1) news) ans,
        put i left rest,
        h',
        rw (turn, here, comp, moves) refl,
        moved-StageAt c e.ticks i p q ps net.incoming net.written ans rest inc'
            (net.written i ++ new) (ans i ++ map (λ x. x.1) news) left here stages at small,
        news-Splits i news left ans rest divides,
        rw (all_requests-tag i news, all_answers-tag i news) story,
        rep,
        (λ n few. room n (λ name. omega (arith, few name))),
        work_left_moved c e.ticks i p q ps rest left here less,
      )
