-- ===== src/Server/Clients.antt =====
-- The clients of the server over SQLite, all together: each is answered, in one history.
use mathlib.Core.Path.{subst}
use daqs.Base.{
  ℕ, zero, suc, ◌*◌, ◌≤◌, ◌<◌, ◌≡◌, refl, sym, ap, ◌∙◌, arith, inl, inr, Option, some, List, [],
  ◌∷◌, ◌++◌, length, All, append-nil, append_assoc, get_elem?, Option-cases,
}
use daqs.DataModel.Floats.{Double, IsIeee}
use daqs.DataSource.Engine.{Engine}
use daqs.DataSource.Sql.{IsSql}
use daqs.DataSource.History.{History}
use daqs.DataAccess.Interface.{IDataAccess}
use daqs.DataAccess.Represents.{Represents, HasClock, source_access}
use daqs.Protocol.{Codec, IsProtobuf}
use daqs.Protocol.Frame.{frame}
use daqs.Session.{max_values_ammount, Phase, reading_meta, mh_size}
use daqs.Session.Serve.{sent-frame}
use daqs.Session.Series.{sent_all}
use daqs.Exchange.{Request}
use daqs.Exchange.Story.{Story, HasRoom}
use daqs.Server.Network.{Net, turns}
use daqs.Server.Log.{Log, all_requests, all_answers, requests_of, count}
use daqs.Server.Stage.{At, work, Small, stream, written_of}
use daqs.Server.Places.{work_left, work_of}
use daqs.Server.Everyone.{Stages}
use daqs.Server.Served.{turns-GoesOn}
use daqs.Server.Outcome.{Wrote, ServedAt, AnsweredAt, At-Wrote, At-done}

-- Sessions that wait for a message.
abbrev pub fresh : ℕ → List Phase
fresh zero = []
fresh (suc n) = reading_meta ∷ fresh n

fresh-reading_meta : (n j : ℕ) (p : Phase) → get_elem? (fresh n) j ≡ some p → p ≡ reading_meta
fresh-reading_meta zero j p e = cc
fresh-reading_meta (suc n) zero p e = cc
fresh-reading_meta (suc n) (suc j) p e = fresh-reading_meta n j p e

module _ {W S : Type 0} ⦃d : Double W⦄ (e : Engine W S) (sql : IsSql e) (max_size : ℕ)
    (c : Codec W) where
  open sql use {rounded}

  abbrev da : IDataAccess W S
  da = source_access e sql max_size

  -- So many sessions were accepted, and each client has written its requests.
  abbrev pub begun : ℕ → (ℕ → List (Request W)) → S → Net S
  begun n asked s = record {
    system = record { sessions = fresh n; world = s };
    incoming = λ j. sent_all c da e.ticks (asked j) [];
    written = λ j. [];
  }

  -- What is so for every session, of a run that is one history.
  abbrev pub OneHistory :
      (ℕ → Option Phase → List (List ℕ) → Log W → Type 0) → Option (Net S) → History W → Type 0
  OneHistory For o h =
      (net : Net S) × (log : Log W) × (h' : History W) × (o ≡ some net)
      × Story rounded e.ticks h (all_requests log) (all_answers log) h'
      × Represents e sql max_size net.system.world h'
      × ((j : ℕ) → For j (get_elem? net.system.sessions j) (net.written j) log)

  module _ (law : IsProtobuf c) (some_meta : 0 < mh_size c) (ieee : IsIeee W)
      (room : max_values_ammount ≤ max_size) (ticks : 0 < e.ticks)
      (clock : HasClock e sql max_size) where
    sent_all-stream : (rs : List (Request W)) → sent_all c da e.ticks rs [] ≡ stream c e.ticks rs
    unfolding sent_all frame
    sent_all-stream [] = refl
    sent_all-stream (r ∷ rs) =
        rw (sent-frame c law da e.ticks r, append_assoc, append_assoc, sent_all-stream rs) refl

    begun-Stages :
        (n : ℕ) (asked : ℕ → List (Request W)) (s : S)
        → ((j : ℕ) → All (Small c e.ticks) (asked j))
        → Stages e sql max_size c (begun n asked s) (λ j. []) asked
    begun-Stages n asked s small j p here = (
      subst (λ q. At c e.ticks q (sent_all c da e.ticks (asked j) []) [] [] (asked j))
          (sym (fresh-reading_meta n j p here)) (sent_all-stream (asked j), refl),
      small j,
    )

    fresh-work :
        (n : ℕ) (asked : ℕ → List (Request W)) (j : ℕ)
        → work_left c e.ticks (fresh n) asked j ≤ 4 * length (asked j)
    fresh-work n asked j = elim (Option-cases (get_elem? (fresh n) j)) [
      | inl out ↦ rw out (omega arith)
      | inr (p, here) ↦ rw (here, fresh-reading_meta n j p here) (omega arith)
    ]

    -- Several clients have each written some requests to a server over SQLite, whose database
    -- represents a history. Then whatever turns the sessions take, in any order, the run is defined;
    -- there is one log of requests and answers, each of some client, which the history allows one
    -- after another; the database represents the history that results; and of every client the
    -- requests in the log are its first ones, in their order, and the answers to these are what its
    -- session has written, where the last one may still be being written. The sizes and dates fit, a
    -- MetaHeader has a byte at least, time is not before the epoch and fits, and no variable comes to
    -- 14400 values, counting the turns as well.
    pub everyone_served :
        (n : ℕ) (asked : ℕ → List (Request W)) (is : List ℕ) (s : S) (h : History W)
        → Represents e sql max_size s h
        → HasRoom (length is) h
        → ((j : ℕ) → All (Small c e.ticks) (asked j))
        → OneHistory
            (λ j o wr log. ServedAt c e.ticks o wr (asked j) j log)
            (turns c da e.ticks is (begun n asked s))
            h
    everyone_served n asked is s h rep few small =
        let (net, log, ans, rest, h', run, stages, splits, story, rep', space, less) =
          turns-GoesOn e sql max_size c law some_meta ieee room ticks clock is (begun n asked s)
            (λ j. []) asked h (begun-Stages n asked s small) rep few in
        (
          net,
          log,
          h',
          run,
          story,
          rep',
          (λ j. elim (Option-cases (get_elem? net.system.sessions j)) [
            | inl out ↦ rw out tt
            | inr (p, here) ↦
                let (answers_are, asked_are) = splits j in
                let wrote =
                  At-Wrote c e.ticks p (net.incoming j) (net.written j) (ans j) (rest j)
                    (stages j p here).0 in
                rw here
                  (rest j, asked_are, subst (Wrote c e.ticks p (net.written j)) answers_are wrote)
          ]),
        )

    -- When under the same conditions every session takes four turns or more for each request of its
    -- client, in whatever order the sessions take them, all requests are answered, in one history: the
    -- log that it allows has of every client just its requests, in their order, and their answers are
    -- what its session has written.
    pub everyone_answered :
        (n : ℕ) (asked : ℕ → List (Request W)) (is : List ℕ) (s : S) (h : History W)
        → Represents e sql max_size s h
        → HasRoom (length is) h
        → ((j : ℕ) → All (Small c e.ticks) (asked j))
        → ((j : ℕ) → 4 * length (asked j) ≤ count j is)
        → OneHistory
            (λ j o wr log. AnsweredAt c e.ticks o wr (asked j) j log)
            (turns c da e.ticks is (begun n asked s))
            h
    everyone_answered n asked is s h rep few small enough =
        let (net, log, ans, rest, h', run, stages, splits, story, rep', space, less) =
          turns-GoesOn e sql max_size c law some_meta ieee room ticks clock is (begun n asked s)
            (λ j. []) asked h (begun-Stages n asked s small) rep few in
        (
          net,
          log,
          h',
          run,
          story,
          rep',
          (λ j. elim (Option-cases (get_elem? net.system.sessions j)) [
            | inl out ↦ rw out tt
            | inr (p, here) ↦
                let (answers_are, asked_are) = splits j in
                let no_work : work c e.ticks p (rest j) ≡ 0 =
                  sym (ap (λ o. work_of c e.ticks o (rest j)) here)
                  ∙ (less j ∙ omega (arith, enough j, fresh-work n asked j)) in
                let (done, wrote) =
                  At-done c e.ticks p (net.incoming j) (net.written j) (ans j) (rest j)
                    (stages j p here).0 no_work in
                rw here (
                  asked_are ∙ (ap (λ xs. requests_of j log ++ xs) done ∙ append-nil _),
                  wrote ∙ ap (written_of c e.ticks) answers_are,
                )
          ]),
        )
