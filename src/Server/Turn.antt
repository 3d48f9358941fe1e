-- ===== src/Server/Turn.antt =====
-- Any turn of a session whose client has written requests, over SQLite.
use mathlib.Core.Path.{subst, ap₂}
use daqs.Base.{
  ℕ, ◌≤◌, ◌<◌, ◌≡◌, refl, sym, ap, ◌∙◌, ◌⊎◌, arith, inl, inr, false, List, [], ◌∷◌, ◌++◌, length,
  leb, All, append-nil,
}
use daqs.DataModel.Floats.{Double, IsIeee}
use daqs.DataSource.Engine.{Engine}
use daqs.DataSource.Sql.{IsSql}
use daqs.DataSource.History.{History}
use daqs.DataAccess.Interface.{IDataAccess}
use daqs.DataAccess.Represents.{Represents, HasClock, source_access}
use daqs.Protocol.{Codec, IsProtobuf}
use daqs.Session.{
  max_values_ammount, Phase, reading_meta, reading_header, reading_body, writing, ended, did_read,
  step, mh_size,
}
use daqs.Session.Serve.{answers, handled-meaning}
use daqs.Exchange.{Request, Answer, answer_bytes}
use daqs.Exchange.Story.{Story, HasRoom, Said-HasRoom}
use daqs.Exchange.Answered.{request-Answered}
use daqs.Server.Stage.{
  taking-append, type_of, body_of, stream, written_of, At, Small, read_body-request,
}
use daqs.Server.Advance.{Advances, Waits, meta-Advances, header-Advances, writing-Advances}

module _ {W S : Type 0} ⦃d : Double W⦄ (e : Engine W S) (sql : IsSql e) (max_size : ℕ) (c : Codec W)
    (law : IsProtobuf c) (some_meta : 0 < mh_size c) (ieee : IsIeee W)
    (room : max_values_ammount ≤ max_size) (ticks : 0 < e.ticks)
    (clock : HasClock e sql max_size) where
  abbrev da : IDataAccess W S
  da = source_access e sql max_size

  body-Advances :
      (wr : List (List ℕ)) (ans : List (Answer W)) (r : Request W) (rs : List (Request W)) (s : S)
      (h : History W)
      → let body = body_of c e.ticks r in
        Small c e.ticks r
        → wr ≡ written_of c e.ticks ans
        → Represents e sql max_size s h
        → HasRoom 1 h
        → Advances e sql max_size c
            (reading_body (type_of c e.ticks r) (length body))
            (body ++ stream c e.ticks rs)
            wr
            ans
            (r ∷ rs)
            s
            h
  body-Advances wr ans r rs s h (small, dates) same rep few =
      let t = type_of c e.ticks r in
      let body = body_of c e.ticks r in
      let (s', h1, (a, means, said), rep1) =
        request-Answered e sql max_size ieee room h r s ticks clock rep few in
      (
        did_read false body,
        stream c e.ticks rs,
        [],
        writing (answer_bytes c a),
        s',
        h1,
        (r, a) ∷ [],
        rs,
        taking-append body (stream c e.ticks rs),
        ap (λ p. step c da e.ticks p (did_read false body) s)
              (sym (read_body-request c e.ticks r (length body)))
            ∙ (handled-meaning c law da e.ticks r s dates ∙ ap (answers c) means),
        (ans, a, refl, refl, refl, append-nil wr ∙ same),
        refl,
        Story.said said (Story.silence h1),
        rep1,
        (λ n. Said-HasRoom n said),
        omega arith,
      )

  along-Advances :
      {p p' : Phase} {inc inc' : List ℕ} {wr wr' : List (List ℕ)} {rest rest' : List (Request W)}
      (ans : List (Answer W)) (s : S) (h : History W)
      → p ≡ p'
      → inc ≡ inc'
      → wr ≡ wr'
      → rest ≡ rest'
      → Advances e sql max_size c p' inc' wr' ans rest' s h
      → Advances e sql max_size c p inc wr ans rest s h
  along-Advances {p} {p'} {inc} {inc'} {wr} {wr'} {rest} {rest'} ans s h ep ei ew er adv =
      subst (λ x. Advances e sql max_size c x inc wr ans rest s h) (sym ep)
        (subst (λ x. Advances e sql max_size c p' x wr ans rest s h) (sym ei)
          (subst (λ x. Advances e sql max_size c p' inc' x ans rest s h) (sym ew)
            (subst (λ x. Advances e sql max_size c p' inc' wr' ans x s h) (sym er) adv)))

  idle-Waits : (inc : List ℕ) → inc ≡ [] → Waits e sql max_size c reading_meta inc []
  idle-Waits inc there =
      let short : leb (mh_size c) (length inc) ≡ false = ground (arith, ap length there) in
      (rw short refl, refl)

  -- A session in any phase takes its turn, or its client has written nothing more.
  pub turn-Advances :
      (p : Phase) (inc : List ℕ) (wr : List (List ℕ)) (ans : List (Answer W))
      (rest : List (Request W)) (s : S) (h : History W)
      → At c e.ticks p inc wr ans rest
      → All (Small c e.ticks) rest
      → Represents e sql max_size s h
      → HasRoom 1 h
      → Waits e sql max_size c p inc rest ⊎ Advances e sql max_size c p inc wr ans rest s h
  turn-Advances reading_meta inc wr ans [] s h (there, same) small rep few =
      inl (idle-Waits inc there)
  turn-Advances reading_meta inc wr ans (r ∷ rs) s h (there, same) (small, more) rep few = inr (
      along-Advances ans s h refl there refl refl
        (meta-Advances e sql max_size c law some_meta wr ans r rs s h small same rep))
  turn-Advances (reading_header n) inc wr ans rest s h (r, rs, is, size, there, same) small rep
        few =
      let all : All (Small c e.ticks) (r ∷ rs) = subst (All (Small c e.ticks)) is small in
      inr (
        along-Advances ans s h (ap reading_header size) there refl is
          (header-Advances e sql max_size c law some_meta wr ans r rs s h all.0 same rep))
  turn-Advances (reading_body t n) inc wr ans rest s h (r, rs, is, kind, size, there, same) small
        rep few =
      let all : All (Small c e.ticks) (r ∷ rs) = subst (All (Small c e.ticks)) is small in
      inr (
        along-Advances ans s h (ap₂ reading_body kind size) there refl is
          (body-Advances wr ans r rs s h all.0 same rep few))
  turn-Advances (writing f) inc wr ans rest s h (before, a, is, bytes, there, same) small rep few =
      inr (
        along-Advances ans s h (ap writing bytes) refl same refl (
          subst
            (λ xs.
              Advances e sql max_size c (writing (answer_bytes c a)) inc
                (written_of c e.ticks before) xs rest s h)
            (sym is)
            (writing-Advances e sql max_size c law some_meta inc before a rest s h there rep)))
  turn-Advances ended inc wr ans rest s h at small rep few = absurd at
