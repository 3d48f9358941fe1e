-- ===== src/Hmi/Behind.antt =====
-- How the graphical program falls behind the answers that come.
use daqs.Base.{ℕ, suc, ◌≡◌, sym, ap, ◌∙◌, some, List, [], ◌++◌, map, All, length, take, drop}
use mathlib.Core.Path.{subst}
use daqs.Base.Int.{ℤ}
use daqs.Protocol.{Codec, IsProtobuf}
use daqs.Client.{Socket}
use daqs.Client.Reading.{IsStream}
use daqs.Client.Listen.{heard, all_bytes, Fits}
use daqs.Client.Machine.{packets, Packet, packet_bytes, answers_in, Heard, one_for_each}
use daqs.Hmi.{QColor, Output}
use daqs.Hmi.Events.{Happening, Program}
use daqs.Hmi.Latest.{Latest, InRange, come, run, shown_latest}

module _ {W C D K : Type 0} (c : Codec W) (q : QColor C) (from_msecs : ℤ → D) (ticks : ℕ)
    (sock : Socket K) (fuel : ℕ) (arrive : List ℕ → K → K) (law : IsProtobuf c)
    (str : IsStream sock)
    (arrives : (bs : List ℕ) (k : K) → str.buffered (arrive bs k) ≡ str.buffered k ++ bs) where
  -- Whatever happens to the running program, if the ranges that are chosen fit the clock in ticks, it
  -- goes on; and when packets have come in which there stand whole answers, one in each at least and
  -- with sizes that fit, it shows what the first answers say, one for each packet. The list of values
  -- is that of the last of these with values, the list of variables that of the last with variables,
  -- and where there was none the list is the old one; a list that is empty on the wire is not heard.
  -- The bytes of the other answers stay unread. At the beginning nothing was unread.
  pub first_shown :
      (ps : List (Packet c)) (hs : List (Happening C)) (p : Program W C D K)
      → All (InRange ticks) hs
      → come hs ≡ map (packet_bytes c) ps
      → All (Fits c) (answers_in c ps)
      → p.client.slots ≡ 1
      → str.buffered p.client.socket ≡ []
      → let answers = answers_in c ps in
        (p' : Program W C D K) × (out : List Output) × (run c q from_msecs ticks sock
            (suc fuel)
            arrive
            hs
            p
          ≡ some (p', out))
        × Latest q from_msecs (map (heard c) (take (length ps) answers)) p.app p'.app
        × (str.buffered p'.client.socket ≡ all_bytes c (drop (length ps) answers) [])
  first_shown ps hs p in_range are fits one empty =
      let (p', out, runs, (same, latest)) =
        shown_latest c q from_msecs ticks sock (suc fuel) arrive hs p in_range in
      let (signals, left, _) =
        subst
          (λ bs.
            Heard c str (take (length ps) (answers_in c ps)) (drop (length ps) (answers_in c ps))
              (packets c sock (suc fuel) arrive bs p.client))
          (sym are) (one_for_each c law sock str fuel arrive arrives ps p.client one fits empty) in
      (
        p',
        out,
        runs,
        subst (λ xs. Latest q from_msecs xs p.app p'.app) signals latest,
        ap (λ cl. str.buffered cl.socket) same ∙ left,
      )
