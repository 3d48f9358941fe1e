-- ===== src/Hmi/Events.antt =====
-- The graphical program (src/hmi/main.cc) as it runs: its two models on one client, and what happens to
-- them. QML reads the models and calls `getValues` and `add_var`; the event loop of Qt calls the slots.
use daqs.Base.{ℕ, Bool, false, String, Option, none, some, List, [], ◌∷◌, ◌++◌, if◌then◌else◌}
use daqs.Base.Int.{ℤ}
use daqs.Protocol.{Codec}
use daqs.Client.{Socket, Signal}
use daqs.Client.Connection.{Client}
use daqs.Client.Machine.{ready_read}
use daqs.Hmi.{QColor, Output, VarModel}
use daqs.Hmi.VarsModel.{add_var}
use daqs.Hmi.VarValuesModel.{on_timeout, get_values}
use daqs.Hmi.App.{App, on_signal}

-- A packet comes; the timer has run down; a range is chosen; a variable is appended.
pub data Happening (C : Type 0) : Type 0 where
  has_come : List ℕ → Happening C
  timed_out : Happening C
  chosen : String → ℤ → ℤ → Happening C
  appended : VarModel C → Happening C

-- The models, the client, and whether the timer runs, which fires once.
pub record Program (W C D K : Type 0) : Type 0 where
  pub app : App W C D
  pub client : Client K
  pub timer : Bool

module _ {W C D : Type 0} (c : Codec W) (q : QColor C) (from_msecs : ℤ → D) where
  -- The signals that the client emits go to both models.
  unfoldable pub on_signals : List (Option (Signal W)) → App W C D → App W C D × List Output
  unfolding on_signal
  on_signals [] app = (app, [])
  on_signals (none ∷ signals) app = on_signals signals app
  on_signals (some signal ∷ signals) app =
      let (app', out) = on_signal c q from_msecs signal app in
      let (app'', out') = on_signals signals app' in (app'', out ++ out')

-- The timer that the constructor of `VarValuesModel` starts.
unfoldable pub fire : {W C D K : Type 0} → Codec W → Program W C D K → Program W C D K × List Output
fire c p = if p.timer then (record p { timer = false }, on_timeout c) else (p, [])

module _ {W C D K : Type 0} (c : Codec W) (q : QColor C) (from_msecs : ℤ → D) (ticks : ℕ)
    (sock : Socket K) (fuel : ℕ) (arrive : List ℕ → K → K) where
  -- `none` is undefined behaviour.
  unfoldable pub happen : Happening C → Program W C D K → Option (Program W C D K × List Output)
  unfolding on_signals fire
  happen (has_come bytes) p =
      let cl = record p.client { socket = arrive bytes p.client.socket } in
      let (signals, cl') = ready_read c sock fuel cl in
      let (app', out) = on_signals c q from_msecs signals p.app in
      some (record p { app = app'; client = cl' }, out)
  happen timed_out p = some (fire c p)
  happen (chosen var s e) p = elim (get_values c ticks var s e) [
    | none ↦ none
    | some out ↦ some (p, out)
  ]
  happen (appended var) p = some (p, add_var q c var)

  unfoldable pub happen_all :
      List (Happening C) → Program W C D K → Option (Program W C D K × List Output)
  unfolding happen
  happen_all [] p = some (p, [])
  happen_all (h ∷ hs) p = elim (happen h p) [
    | none ↦ none
    | some (p', out) ↦ elim (happen_all hs p') [
      | none ↦ none
      | some (p'', out') ↦ some (p'', out ++ out')
    ]
  ]
