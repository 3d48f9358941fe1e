-- ===== src/Hmi/Answered.antt =====
-- An answer with values that comes to the graphical program, from its packet to the model that shows it
-- (src/database-server/client/client.cc, src/hmi/model/varvaluesmodel.cc).
use daqs.Base.{
  ℕ, ◌≡◌, ◌≢◌, refl, sym, ap, ◌∙◌, arith, none, some, List, [], ◌∷◌, ◌++◌, map, length, ◌==◌,
  pos→ne_zero, append-nil, false, suc,
}
use daqs.Base.Int.{ℤ}
use daqs.DataModel.{VarValue}
use daqs.Protocol.{Codec, IsProtobuf}
use daqs.Exchange.{values, answer_bytes}
use daqs.Session.{value_item}
use daqs.Client.{Socket}
use daqs.Client.Answers.{received, signal_of}
use daqs.Client.Listen.{heard, Fits}
use daqs.Client.Machine.{ready_read-Heard}
use daqs.Client.Reading.{IsStream}
use daqs.Hmi.{QColor, Output, vals_changed}
use daqs.Hmi.VarValuesModel.{on_values_received, value_model_of}
use daqs.Hmi.App.{App, on_signal}
use daqs.Hmi.Events.{has_come, Program, on_signals, happen}

map-received :
    {W D : Type 0} (from_msecs : ℤ → D) (vs : List (VarValue W))
    → map (value_model_of from_msecs) (map received vs) ≡ map (value_model_of from_msecs) vs
map-received from_msecs [] = refl
map-received from_msecs (v ∷ vs) =
    ap (◌∷◌ (value_model_of from_msecs v)) (map-received from_msecs vs)

-- An empty list of values leaves the model, and no signal is emitted; another one is shown instead of
-- what was, with one signal.
abbrev pub ShowsAnswer :
    {W C D : Type 0} → (ℤ → D) → List (VarValue W) → App W C D → App W C D → List Output → Type 0
ShowsAnswer from_msecs [] app app' out = (app' ≡ app) × (out ≡ [])
ShowsAnswer from_msecs (v ∷ r) app app' out =
    (app' ≡ record app { data_layer = record { vals = map (value_model_of from_msecs) (v ∷ r) } })
    × (out ≡ vals_changed ∷ [])

module _ {W C D : Type 0} (c : Codec W) (law : IsProtobuf c) (q : QColor C) (from_msecs : ℤ → D)
    (empty : c.values.serialize [] ≡ []) where
  values_some :
      (v : VarValue W) (r : List (VarValue W)) → c.values.serialize (map value_item (v ∷ r)) ≢ []
  values_some v r e =
      let same : map value_item (v ∷ r) ≡ [] =
        sym (law.values_parse (map value_item (v ∷ r)))
        ∙ (ap c.values.parse (e ∙ sym empty) ∙ law.values_parse []) in
      cc

  length-pos : (bytes : List ℕ) → bytes ≢ [] → (length bytes == 0) ≡ false
  length-pos [] h = absurd (h refl)
  length-pos (b ∷ bs) h = pos→ne_zero (length (b ∷ bs)) (omega arith)

  heard_empty : heard c (values []) ≡ none
  heard_empty = rw empty refl

  heard-some :
      (v : VarValue W) (r : List (VarValue W))
      → heard c (values (v ∷ r)) ≡ some (signal_of (values (v ∷ r)))
  heard-some v r = rw (length-pos _ (values_some v r)) refl

  heard-ShowsAnswer :
      (r : List (VarValue W)) (app : App W C D)
      → let (app', out) = on_signals c q from_msecs (heard c (values r) ∷ []) app in
        ShowsAnswer from_msecs r app app' out
  unfolding on_signals on_signal on_values_received
  heard-ShowsAnswer [] app = rw heard_empty (refl, refl)
  heard-ShowsAnswer (v ∷ r) app = rw (heard-some v r) (
    ap (λ vs. record app { data_layer = record { vals = vs } }) (map-received from_msecs (v ∷ r)),
    refl,
  )

  module _ {K : Type 0} (ticks : ℕ) (sock : Socket K) (str : IsStream sock) (fuel : ℕ)
      (arrive : List ℕ → K → K)
      (arrives : (bs : List ℕ) (k : K) → str.buffered (arrive bs k) ≡ str.buffered k ++ bs) where
    -- The packet of one answer with values is read, and the model shows it.
    pub answer-ShowsAnswer :
        (r : List (VarValue W)) (p : Program W C D K)
        → p.client.slots ≡ 1
        → str.buffered p.client.socket ≡ []
        → Fits c (values r)
        → (p' : Program W C D K) × (out : List Output) × (happen c q from_msecs ticks sock
              (suc fuel)
              arrive
              (has_come (answer_bytes c (values r)))
              p
            ≡ some (p', out))
          × ShowsAnswer from_msecs r p.app p'.app out
          × (str.buffered p'.client.socket ≡ [])
    unfolding happen
    answer-ShowsAnswer r p one idle fits =
        let bytes = answer_bytes c (values r) in
        let cl = record p.client { socket = arrive bytes p.client.socket } in
        let there : str.buffered cl.socket ≡ bytes ++ [] =
          arrives bytes p.client.socket ∙ (ap (λ bs. bs ++ bytes) idle ∙ sym (append-nil bytes)) in
        let (signals, left, _) =
          ready_read-Heard c law sock str fuel arrive arrives (values r) [] cl one fits there in
        (_, _, refl, rw signals (heard-ShowsAnswer r p.app), left)
