-- ===== src/Protocol/Frame.antt =====
-- A message on the wire: MetaHeader, Header and body, as both programs are meant to write it.
use daqs.Base.{
  ℕ, ◌+◌, ◌≡◌, sym, ap, ◌∙◌, List, ◌++◌, arith, length, take, length-append, append-nil, [],
  take-length-append,
}
use daqs.Protocol.{MessageType, Codec}

module _ {W : Type 0} (c : Codec W) where
  abbrev pub header_bytes : MessageType → List ℕ → List ℕ
  header_bytes t body = c.header.serialize (record { msg_type = t; body_size = length body })

  abbrev pub meta_bytes : MessageType → List ℕ → List ℕ
  meta_bytes t body = c.meta.serialize (length (header_bytes t body))

  unfoldable pub frame : MessageType → List ℕ → List ℕ
  frame t body = meta_bytes t body ++ (header_bytes t body ++ body)

-- A copy of all of a buffer.
pub take_all {ℓ} : {A : Type ℓ} (xs : List A) → take (length xs) xs ≡ xs
take_all xs = ap (take (length xs)) (sym (append-nil xs)) ∙ take-length-append xs []

pub take_three {ℓ} :
    {A : Type ℓ} (xs ys zs : List A)
    → take (length xs + length ys + length zs) (xs ++ (ys ++ zs)) ≡ xs ++ (ys ++ zs)
take_three xs ys zs =
    let n : length xs + length ys + length zs ≡ length (xs ++ (ys ++ zs)) =
      omega (arith, length-append xs (ys ++ zs), length-append ys zs) in
    rw n (take_all (xs ++ (ys ++ zs)))
