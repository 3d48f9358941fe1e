-- ===== src/Protocol/Texts.antt =====
-- Texts as lists of numbers and back, for messages whose bytes are written out.
use Prim.Native.String.{[] as empty, ◌∷◌ as ◌∷ₜ◌}
use text.Mathlib.TextBridge.{of_list}
use Prim.Native.Nat.{Ordering, compare}
use Prim.Native.Char.{Char, char, code, nul, IsScalar}
use daqs.Base.{ℕ, ◌≡◌, refl, ap, ◌∙◌, ◌⊎◌, inl, inr, String, List, [], ◌∷◌, map}

Ordering-cases : (o : Ordering) → (o ≡ Ordering.lt) ⊎ ((o ≡ Ordering.eq) ⊎ (o ≡ Ordering.gt))
Ordering-cases Ordering.lt = inl refl
Ordering-cases Ordering.eq = inr (inl refl)
Ordering-cases Ordering.gt = inr (inr refl)

no_proof : Dec ⊥ × IsProp ⊥
no_proof = (no (λ p. p), λ a b. absurd a)

IsScalar-Dec_above :
    (n : ℕ)
    → (compare n 55296 ≡ Ordering.eq) ⊎ (compare n 55296 ≡ Ordering.gt)
    → Dec (IsScalar n) × IsProp (IsScalar n)
IsScalar-Dec_above n past = elim (Ordering-cases (compare 57343 n)) [
  | inl high ↦ elim (Ordering-cases (compare n 1114112)) [
    | inl below ↦ elim past [
      | inl e ↦ rw (e, high, below) (yes tt, λ a b. refl)
      | inr e ↦ rw (e, high, below) (yes tt, λ a b. refl)
    ]
    | inr (inl end) ↦ elim past [
      | inl e ↦ rw (e, high, end) no_proof
      | inr e ↦ rw (e, high, end) no_proof
    ]
    | inr (inr above) ↦ elim past [
      | inl e ↦ rw (e, high, above) no_proof
      | inr e ↦ rw (e, high, above) no_proof
    ]
  ]
  | inr (inl at) ↦ elim past [ inl e ↦ rw (e, at) no_proof | inr e ↦ rw (e, at) no_proof ]
  | inr (inr above) ↦ elim past [ inl e ↦ rw (e, above) no_proof | inr e ↦ rw (e, above) no_proof ]
]

IsScalar-Dec : (n : ℕ) → Dec (IsScalar n) × IsProp (IsScalar n)
IsScalar-Dec n = elim (Ordering-cases (compare n 55296)) [
  | inl low ↦ rw low (yes tt, λ a b. refl)
  | inr past ↦ IsScalar-Dec_above n past
]

unfoldable char_of : ℕ → Char
char_of n = elim (IsScalar-Dec n).0 [ yes p ↦ char n p | no _ ↦ nul ]

char_of-code : (c : Char) → char_of (code c) ≡ c
unfolding char_of
char_of-code (char n p) =
    elim (IsScalar-Dec n).0 as (λ d. (elim d [ yes q ↦ char n q | no _ ↦ nul ]) ≡ char n p) [
      | yes q ↦ ap (char n) ((IsScalar-Dec n).1 q p)
      | no bad ↦ absurd (bad p)
    ]

map-char_of : (cs : List Char) → map char_of (map code cs) ≡ cs
map-char_of [] = refl
map-char_of (c ∷ cs) = rw (char_of-code c) (ap (◌∷◌ c) (map-char_of cs))

unfoldable pub chars : String → List Char
chars empty = []
chars (c ∷ₜ t) = c ∷ chars t

of_list-chars : (t : String) → of_list (chars t) ≡ t
unfolding chars
of_list-chars empty = refl
of_list-chars (c ∷ₜ t) = ap (λ u. c ∷ₜ u) (of_list-chars t)

abbrev pub codes : String → List ℕ
codes t = map code (chars t)

pub text_of : List ℕ → String
text_of ns = of_list (map char_of ns)

pub text_of-codes : (t : String) → text_of (codes t) ≡ t
unfolding text_of
text_of-codes t = ap of_list (map-char_of (chars t)) ∙ of_list-chars t
