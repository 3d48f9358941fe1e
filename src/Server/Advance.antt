-- ===== src/Server/Advance.antt =====
-- One turn of a session whose client has written requests.

use daqs.Base.{
  ℕ, suc, ◌+◌, ◌<◌, ◌≡◌, refl, sym, ap, ◌∙◌, arith, false, none, some, List, [], ◌∷◌, ◌++◌, map,
  length, ==_refl, append-nil, map-append,
}
use daqs.DataModel.Floats.{Double}
use daqs.DataSource.Engine.{Engine}
use daqs.DataSource.Sql.{IsSql}
use daqs.DataSource.History.{History}
use daqs.DataAccess.Interface.{IDataAccess}
use daqs.DataAccess.Represents.{Represents, source_access}
use daqs.Protocol.{Header, Codec, IsProtobuf}
use daqs.Protocol.Frame.{header_bytes, meta_bytes}
use daqs.Session.{
  Phase, Event, reading_meta, reading_header, reading_body, writing, did_read, did_write, step,
  on_write, mh_size,
}
use daqs.Session.Stream.{step_meta, step_header}
use daqs.Exchange.{Request, Answer, answer_bytes}
use daqs.Exchange.Story.{Story, HasRoom}
use daqs.Server.Network.{taking, completion}
use daqs.Server.Stage.{
  taking-append, type_of, body_of, stream, written_of, At, work, Small, read_body-request,
}

module _ {W S : Type 0} ⦃d : Double W⦄ (e : Engine W S) (sql : IsSql e) (max_size : ℕ)
    (c : Codec W) where
  open sql use {rounded}

  abbrev da : IDataAccess W S
  da = source_access e sql max_size

  -- A turn is taken, with its new answer if it gives one.
  abbrev pub Advances :
      Phase → List ℕ → List (List ℕ) → List (Answer W) → List (Request W) → S → History W → Type 0
  Advances p inc wr ans rest s h =
      (ev : Event) × (inc' : List ℕ) × (new : List (List ℕ)) × (q : Phase) × (s' : S)
      × (h' : History W) × (news : List (Request W × Answer W)) × (rest' : List (Request W))
      × (completion c p inc ≡ some (ev, inc', new))
      × (step c da e.ticks p ev s ≡ some (q, s'))
      × At c e.ticks q inc' (wr ++ new) (ans ++ map (λ x. x.1) news) rest'
      × (rest ≡ map (λ x. x.0) news ++ rest')
      × Story rounded e.ticks h (map (λ x. x.0) news) (map (λ x. x.1) news) h'
      × Represents e sql max_size s' h'
      × ((n : ℕ) → HasRoom (suc n) h → HasRoom n h')
      × (work c e.ticks q rest' + 1 ≡ work c e.ticks p rest)

  -- A turn that cannot be taken, since the client has written nothing more.
  abbrev pub Waits : Phase → List ℕ → List (Request W) → Type 0
  Waits p inc rest = (completion c p inc ≡ none) × (work c e.ticks p rest ≡ 0)

  less_room : (h : History W) (n : ℕ) → HasRoom (suc n) h → HasRoom n h
  less_room h n room name = omega (arith, room name)

  written_nil :
      (wr : List (List ℕ)) (ans : List (Answer W))
      → wr ≡ written_of c e.ticks ans
      → wr ++ [] ≡ written_of c e.ticks (ans ++ [])
  written_nil wr ans same =
      append-nil wr ∙ (same ∙ ap (written_of c e.ticks) (sym (append-nil ans)))

  module _ (law : IsProtobuf c) (some_meta : 0 < mh_size c) where
    pub meta-Advances :
        (wr : List (List ℕ)) (ans : List (Answer W)) (r : Request W) (rs : List (Request W)) (s : S)
        (h : History W)
        → Small c e.ticks r
        → wr ≡ written_of c e.ticks ans
        → Represents e sql max_size s h
        → Advances reading_meta (stream c e.ticks (r ∷ rs)) wr ans (r ∷ rs) s h
    meta-Advances wr ans r rs s h ((small, small'), dates) same rep =
        let hdr = header_bytes c (type_of c e.ticks r) (body_of c e.ticks r) in
        let mb = meta_bytes c (type_of c e.ticks r) (body_of c e.ticks r) in
        let tail = hdr ++ (body_of c e.ticks r ++ stream c e.ticks rs) in
        let sized = law.meta_length (length hdr) in
        (
          did_read false mb,
          tail,
          [],
          reading_header (length hdr),
          s,
          h,
          [],
          r ∷ rs,
          ap (λ n. taking n (mb ++ tail)) (sym sized) ∙ taking-append mb tail,
          step_meta c law da e.ticks mb s sized
              ∙ ap (λ n. some (reading_header n, s)) (law.meta_parse (length hdr) small'),
          (r, rs, refl, refl, refl, written_nil wr ans same),
          refl,
          Story.silence h,
          rep,
          less_room h,
          omega arith,
        )

    pub header-Advances :
        (wr : List (List ℕ)) (ans : List (Answer W)) (r : Request W) (rs : List (Request W)) (s : S)
        (h : History W)
        → let hdr = header_bytes c (type_of c e.ticks r) (body_of c e.ticks r) in
          Small c e.ticks r
          → wr ≡ written_of c e.ticks ans
          → Represents e sql max_size s h
          → Advances
              (reading_header (length hdr))
              (hdr ++ (body_of c e.ticks r ++ stream c e.ticks rs))
              wr
              ans
              (r ∷ rs)
              s
              h
    header-Advances wr ans r rs s h ((small, small'), dates) same rep =
        let t = type_of c e.ticks r in
        let body = body_of c e.ticks r in
        let hdr = header_bytes c t body in
        let hd : Header = record { msg_type = t; body_size = length body } in
        (
          did_read false hdr,
          body ++ stream c e.ticks rs,
          [],
          reading_body t (length body),
          s,
          h,
          [],
          r ∷ rs,
          taking-append hdr (body ++ stream c e.ticks rs),
          step_header c law da e.ticks hd hdr s (law.header_parse hd small)
              ∙ ap (λ p. some (p, s)) (read_body-request c e.ticks r (length body)),
          (r, rs, refl, refl, refl, refl, written_nil wr ans same),
          refl,
          Story.silence h,
          rep,
          less_room h,
          omega arith,
        )

    pub writing-Advances :
        (inc : List ℕ) (before : List (Answer W)) (a : Answer W) (rest : List (Request W)) (s : S)
        (h : History W)
        → inc ≡ stream c e.ticks rest
        → Represents e sql max_size s h
        → Advances
            (writing (answer_bytes c a))
            inc
            (written_of c e.ticks before)
            (before ++ a ∷ [])
            rest
            s
            h
    unfolding step on_write
    writing-Advances inc before a rest s h there rep =
        let f = answer_bytes c a in
        let all = map-append (answer_bytes c) before (a ∷ []) in
        (
          did_write false (length f),
          inc,
          f ∷ [],
          reading_meta,
          s,
          h,
          [],
          rest,
          refl,
          rw (==_refl (length f)) refl,
          (there, sym all ∙ ap (written_of c e.ticks) (sym (append-nil (before ++ a ∷ [])))),
          refl,
          Story.silence h,
          rep,
          less_room h,
          omega arith,
        )
