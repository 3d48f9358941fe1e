-- ===== src/Server/Served.antt =====
-- The clients of the server over SQLite, all together: each is answered, in one history.
use mathlib.Core.Path.{subst}
use daqs.Base.{
  ℕ, ◌-◌, ◌+◌, ◌≤◌, ◌<◌, ◌≡◌, refl, sym, ap, ◌∙◌, arith, inl, inr, List, [], ◌∷◌, ◌++◌, map, length,
  append-nil, append_assoc, map-append, get_elem?, ◌==◌, Bool-cases, Option, Option-cases,
}
use daqs.DataModel.Floats.{Double, IsIeee}
use daqs.DataSource.Engine.{Engine}
use daqs.DataSource.Sql.{IsSql}
use daqs.DataSource.History.{History}
use daqs.DataAccess.Interface.{IDataAccess}
use daqs.DataAccess.Represents.{Represents, HasClock, source_access}
use daqs.Protocol.{Codec, IsProtobuf}
use daqs.Session.{max_values_ammount, mh_size}
use daqs.Exchange.{Request, Answer}
use daqs.Exchange.Story.{Story, HasRoom}
use daqs.Server.Network.{Net, turn, turns}
use daqs.Server.Log.{Log, of, all_requests, all_answers, requests_of, answers_of, of-append, count}
use daqs.Server.Turn.{turn-Advances}
use daqs.Server.Places.{Answers, Requests, work_left}
use daqs.Server.Everyone.{Stages, Splits, GoesOn, one_less, stays, advances}

Story-append :
    {W : Type 0} ⦃d : Double W⦄ {rounded : W → Option W} {ticks : ℕ} {h h' h'' : History W}
    {rs rs' : List (Request W)} {ans ans' : List (Answer W)}
    → Story rounded ticks h rs ans h'
    → Story rounded ticks h' rs' ans' h''
    → Story rounded ticks h (rs ++ rs') (ans ++ ans') h''
Story-append (Story.silence h) more = more
Story-append (Story.said one story) more = Story.said one (Story-append story more)

module _ {W S : Type 0} ⦃d : Double W⦄ (e : Engine W S) (sql : IsSql e) (max_size : ℕ) (c : Codec W)
    (law : IsProtobuf c) (some_meta : 0 < mh_size c) (ieee : IsIeee W)
    (room : max_values_ammount ≤ max_size) (ticks : 0 < e.ticks)
    (clock : HasClock e sql max_size) where
  open sql use {rounded}

  abbrev da : IDataAccess W S
  da = source_access e sql max_size

  turn-GoesOn :
      (i : ℕ) (net : Net S) (ans : Answers c e.ticks) (rest : Requests c e.ticks) (h : History W)
      → Stages e sql max_size c net ans rest
      → Represents e sql max_size net.system.world h
      → HasRoom 1 h
      → GoesOn e sql max_size c (turn c da e.ticks i net) (one_less i) 1 net ans rest h
  unfolding turn
  turn-GoesOn i net ans rest h stages rep few =
      elim (Option-cases (get_elem? net.system.sessions i)) [
        | inl out ↦
            stays e sql max_size c i net ans rest h (rw (turn, out) refl) (rw out refl) stages rep
        | inr (p, here) ↦
            let (at, small) = stages i p here in
            elim (turn-Advances e sql max_size c law some_meta ieee room ticks clock p
              (net.incoming i) (net.written i) (ans i) (rest i) net.system.world h at small rep
              few) [
                | inl (no_bytes, idle) ↦
                    stays e sql max_size c i net ans rest h (rw (turn, here, no_bytes) refl)
                      (rw here idle) stages rep
                | inr adv ↦ advances e sql max_size c i p net ans rest h here stages adv
              ]
      ]

  abbrev taken : List ℕ → (ℕ → ℕ) → ℕ → ℕ
  taken is f j = f j - count j is

  Splits-append :
      (log log' : Log W) (a a' a'' : Answers c e.ticks) (r r' r'' : Requests c e.ticks)
      → Splits e sql max_size c log a r a' r'
      → Splits e sql max_size c log' a' r' a'' r''
      → Splits e sql max_size c (log ++ log') a r a'' r''
  Splits-append log log' a a' a'' r r' r'' first then_ j =
      let (ea, er) = first j in
      let (ea', er') = then_ j in
      let all_answers_are =
        ap (map (λ x. x.1)) (of-append j log log') ∙ map-append (λ x. x.1) (of j log) (of j log') in
      let all_requests_are =
        ap (map (λ x. x.0)) (of-append j log log') ∙ map-append (λ x. x.0) (of j log) (of j log') in
      (
        ea'
            ∙ (ap (λ xs. xs ++ answers_of j log') ea
                ∙ (append_assoc (a j) (answers_of j log) (answers_of j log')
                    ∙ ap (λ xs. a j ++ xs) (sym all_answers_are))),
        er
            ∙ (ap (λ xs. requests_of j log ++ xs) er'
                ∙ (sym (append_assoc (requests_of j log) (requests_of j log') (r'' j))
                    ∙ ap (λ xs. xs ++ r'' j) (sym all_requests_are))),
      )

  pub turns-GoesOn :
      (is : List ℕ) (net : Net S) (ans : Answers c e.ticks) (rest : Requests c e.ticks)
      (h : History W)
      → Stages e sql max_size c net ans rest
      → Represents e sql max_size net.system.world h
      → HasRoom (length is) h
      → GoesOn e sql max_size c (turns c da e.ticks is net) (taken is) (length is) net ans rest h
  unfolding turns
  turns-GoesOn [] net ans rest h stages rep few = (
    net,
    [],
    ans,
    rest,
    h,
    refl,
    stages,
    (λ j. (sym (append-nil (ans j)), refl)),
    Story.silence h,
    rep,
    (λ n space name. omega (arith, space name)),
    (λ j. omega arith),
  )
  turns-GoesOn (i ∷ is) net ans rest h stages rep few =
      let (net1, log1, ans1, rest1, h1, run1, stages1, splits1, story1, rep1, space1, work1) =
        turn-GoesOn i net ans rest h stages rep (λ name. omega (arith, few name)) in
      let (net2, log2, ans2, rest2, h2, run2, stages2, splits2, story2, rep2, space2, work2) =
        turns-GoesOn is net1 ans1 rest1 h1 stages1 rep1
          (space1 (length is) (λ name. omega (arith, few name))) in
      (
        net2,
        log1 ++ log2,
        ans2,
        rest2,
        h2,
        rw (turns, run1) run2,
        stages2,
        Splits-append log1 log2 ans ans1 ans2 rest rest1 rest2 splits1 splits2,
        subst (λ xs. Story rounded e.ticks h xs (all_answers (log1 ++ log2)) h2)
            (sym (map-append (λ x. x.1.0) log1 log2))
            (subst (λ ys. Story rounded e.ticks h (all_requests log1 ++ all_requests log2) ys h2)
              (sym (map-append (λ x. x.1.1) log1 log2)) (Story-append story1 story2)),
        rep2,
        (λ n space. space2 n (space1 (length is + n) (λ name. omega (arith, space name)))),
        (λ j. elim (Bool-cases (i == j)) [
          | inl same ↦
              let before : work_left c e.ticks net1.system.sessions rest1 j
                  ≡ work_left c e.ticks net.system.sessions rest j - 1 =
                work1 j ∙ rw same refl in
              rw same (omega (arith, work2 j, before))
          | inr other ↦
              let before : work_left c e.ticks net1.system.sessions rest1 j
                  ≡ work_left c e.ticks net.system.sessions rest j =
                work1 j ∙ rw other refl in
              rw other (omega (arith, work2 j, before))
        ]),
      )
