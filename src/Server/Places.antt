-- ===== src/Server/Places.antt =====
-- Where each session is, before and after a turn of one of them.
use mathlib.Core.Path.{subst}
use daqs.Base.{
  ℕ, ◌-◌, ◌+◌, ◌≡◌, sym, ap, ◌∙◌, arith, inl, inr, Option, none, some, List, All, get_elem?, ◌==◌,
  ==_refl, if◌then◌else◌, Bool-cases,
}
use daqs.Protocol.{Codec}
use daqs.Session.{Phase}
use daqs.Exchange.{Request, Answer}
use daqs.Server.System.{with_phase}
use daqs.Server.Replies.{get_elem?-with_phase_same}
use daqs.Server.Swap.{get_elem?-with_phase}
use daqs.Server.Network.{put}
use daqs.Server.Log.{eq_of, ne_of}
use daqs.Server.Stage.{At, work, Small}

module _ {W : Type 0} (c : Codec W) (ticks : ℕ) where
  abbrev pub Answers : Type 0
  Answers = ℕ → List (Answer W)

  abbrev pub Requests : Type 0
  Requests = ℕ → List (Request W)

  -- Where the session at an index is.
  abbrev pub StageAt :
      ℕ → List Phase → (ℕ → List ℕ) → (ℕ → List (List ℕ)) → Answers → Requests → Type 0
  StageAt j ps inc wr ans rest =
      (p : Phase)
      → get_elem? ps j ≡ some p
      → At c ticks p (inc j) (wr j) (ans j) (rest j) × All (Small c ticks) (rest j)

  abbrev pub work_of : Option Phase → List (Request W) → ℕ
  work_of none rest = 0
  work_of (some p) rest = work c ticks p rest

  abbrev pub work_left : List Phase → Requests → ℕ → ℕ
  work_left ps rest j = work_of (get_elem? ps j) (rest j)

  pub moved-StageAt :
      (i : ℕ) (p q : Phase) (ps : List Phase) (inc : ℕ → List ℕ) (wr : ℕ → List (List ℕ))
      (ans : Answers) (rest : Requests) (x : List ℕ) (w : List (List ℕ)) (a : List (Answer W))
      (r : List (Request W))
      → get_elem? ps i ≡ some p
      → ((j : ℕ) → StageAt j ps inc wr ans rest)
      → At c ticks q x w a r
      → All (Small c ticks) r
      → (j : ℕ)
      → StageAt j (with_phase i q ps) (put i x inc) (put i w wr) (put i a ans) (put i r rest)
  moved-StageAt i p q ps inc wr ans rest x w a r here stages at small j p' here' =
      elim (Bool-cases (i == j)) [
        | inl same ↦
            let there : get_elem? (with_phase i q ps) j ≡ some q =
              subst (λ k. get_elem? (with_phase i q ps) k ≡ some q) (eq_of i j same)
                (get_elem?-with_phase_same i p q ps here) in
            let is : q ≡ p' = cc in rw same (subst (λ z. At c ticks z x w a r) is at, small)
        | inr other ↦
            rw other (stages j p' (sym (get_elem?-with_phase i j q ps (ne_of i j other)) ∙ here'))
      ]

  pub work_left_moved :
      (i : ℕ) (p q : Phase) (ps : List Phase) (rest : Requests) (r : List (Request W))
      → get_elem? ps i ≡ some p
      → work c ticks q r + 1 ≡ work c ticks p (rest i)
      → (j : ℕ)
      → work_left (with_phase i q ps) (put i r rest) j
        ≡ (if i == j then work_left ps rest j - 1 else work_left ps rest j)
  work_left_moved i p q ps rest r here less j = elim (Bool-cases (i == j)) [
    | inl same ↦
        let Same : ℕ → Type 0 = λ k.
          work_left (with_phase i q ps) (put i r rest) k
          ≡ (if i == k then work_left ps rest k - 1 else work_left ps rest k) in
        let at_i : Same i =
          rw (get_elem?-with_phase_same i p q ps here, here, ==_refl i) (omega (arith, less)) in
        subst Same (eq_of i j same) at_i
    | inr other ↦
        rw other (ap (λ o. work_of o (rest j)) (get_elem?-with_phase i j q ps (ne_of i j other)))
  ]
