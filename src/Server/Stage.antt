-- ===== src/Server/Stage.antt =====
-- Where a session is whose client has written requests, and the turns that it still needs.
use daqs.Base.{
  ℕ, ◌+◌, ◌-◌, ◌*◌, ◌≡◌, refl, arith, true, false, some, List, [], ◌∷◌, ◌++◌, map, length, leb,
  length-append, take-length-append, drop-length-append,
}
use daqs.Protocol.{MessageType, Codec}
use daqs.Protocol.Frame.{header_bytes, meta_bytes}
use daqs.Session.{
  Phase, reading_meta, reading_header, reading_body, writing, ended, did_read, read_body,
}
use daqs.Exchange.{
  Request, Answer, add_var, save_val, all_vars, all_values, values_between, request_body,
  answer_bytes, IsSmall, HasDates,
}
use daqs.Server.Network.{taking}

pub taking-append :
    (xs rest : List ℕ) → taking (length xs) (xs ++ rest) ≡ some (did_read false xs, rest, [])
taking-append xs rest =
    let enough : leb (length xs) (length (xs ++ rest)) ≡ true =
      ground (arith, length-append xs rest) in
    rw (enough, take-length-append xs rest, drop-length-append xs rest) refl

module _ {W : Type 0} (c : Codec W) (ticks : ℕ) where
  abbrev pub type_of : Request W → MessageType
  type_of r = (request_body c ticks r).0

  abbrev pub body_of : Request W → List ℕ
  body_of r = (request_body c ticks r).1

  -- The bytes of requests, one behind the other.
  abbrev pub stream : List (Request W) → List ℕ
  stream [] = []
  stream (r ∷ rs) =
      meta_bytes c (type_of r) (body_of r)
      ++ (header_bytes c (type_of r) (body_of r) ++ (body_of r ++ stream rs))

  abbrev pub written_of : List (Answer W) → List (List ℕ)
  written_of ans = map (answer_bytes c) ans

  -- Where a session is, with the bytes that it has not read, what it has written, its answers so far,
  -- and the requests that it has not answered.
  abbrev pub At : Phase → List ℕ → List (List ℕ) → List (Answer W) → List (Request W) → Type 0
  At reading_meta inc wr ans rest = (inc ≡ stream rest) × (wr ≡ written_of ans)
  At (reading_header n) inc wr ans rest =
      (r : Request W) × (rs : List (Request W)) × (rest ≡ r ∷ rs)
      × (n ≡ length (header_bytes c (type_of r) (body_of r)))
      × (inc ≡ header_bytes c (type_of r) (body_of r) ++ (body_of r ++ stream rs))
      × (wr ≡ written_of ans)
  At (reading_body t n) inc wr ans rest =
      (r : Request W) × (rs : List (Request W)) × (rest ≡ r ∷ rs)
      × (t ≡ type_of r)
      × (n ≡ length (body_of r))
      × (inc ≡ body_of r ++ stream rs)
      × (wr ≡ written_of ans)
  At (writing f) inc wr ans rest =
      (before : List (Answer W)) × (a : Answer W) × (ans ≡ before ++ a ∷ [])
      × (f ≡ answer_bytes c a)
      × (inc ≡ stream rest)
      × (wr ≡ written_of before)
  At ended inc wr ans rest = ⊥

  -- The turns that a session still needs.
  abbrev pub work : Phase → List (Request W) → ℕ
  work reading_meta rest = 4 * length rest
  work (reading_header n) rest = 4 * length rest - 1
  work (reading_body t n) rest = 4 * length rest - 2
  work (writing f) rest = 4 * length rest + 1
  work ended rest = 0

  abbrev pub Small : Request W → Type 0
  Small r = IsSmall c (request_body c ticks r) × HasDates r

  pub read_body-request :
      (r : Request W) (n : ℕ) → read_body c (type_of r) n ≡ reading_body (type_of r) n
  unfolding read_body
  read_body-request (add_var var) n = refl
  read_body-request (save_val name value) n = refl
  read_body-request all_vars n = refl
  read_body-request (all_values name) n = refl
  read_body-request (values_between name start end) n = refl
