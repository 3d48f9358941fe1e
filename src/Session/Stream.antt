-- ===== src/Session/Stream.antt =====
-- The session fed from a stream of bytes: each pending read takes as many bytes as it asks for.
use daqs.Base.{
  ℕ, ◌^◌, ◌<◌, ◌≡◌, refl, sym, false, Option, none, some, List, ◌++◌, arith, length, take, drop,
  ==_refl, take-length-append, drop-length-append, append_assoc,
}
use daqs.DataAccess.Interface.{IDataAccess}
use daqs.Protocol.{MessageType, Header, Codec, IsProtobuf}
use daqs.Protocol.Frame.{frame, take_all, header_bytes, meta_bytes}
use daqs.Session.{
  Phase, reading_meta, reading_header, reading_body, writing, ended, did_read, build_h_msg,
  build_f_msg, send_response, mh_size, on_meta, on_header, read_body, step,
}

-- The size of the pending read.
unfoldable pub wanted : {W : Type 0} → Codec W → Phase → ℕ
wanted c reading_meta = mh_size c
wanted c (reading_header h_size) = h_size
wanted c (reading_body t b_size) = b_size
wanted c (writing f_buf) = 0
wanted c ended = 0

-- The session, the bytes that are still to be read, and the world.
abbrev pub Feed : Type 0 → Type 0
Feed S = Option (Phase × List ℕ × S)

abbrev pub with_rest : {S : Type 0} → List ℕ → Option (Phase × S) → Feed S
with_rest rest none = none
with_rest rest (some (p, s)) = some (p, rest, s)

abbrev pub and_then : {S : Type 0} → Feed S → (Phase → List ℕ → S → Feed S) → Feed S
and_then none f = none
and_then (some (p, stream, s)) f = f p stream s

module _ {W S : Type 0} (c : Codec W) (da : IDataAccess W S) (ticks : ℕ) where
  -- One read that succeeds.
  pub receive : Phase → List ℕ → S → Feed S
  unfolding wanted
  receive p stream s =
      let n = wanted c p in
      with_rest (drop n stream) (step c da ticks p (did_read false (take n stream)) s)

  -- The reads of MetaHeader, Header and body.
  pub receive_message : List ℕ → S → Feed S
  unfolding receive
  receive_message stream s = and_then (and_then (receive reading_meta stream s) receive) receive

module _ {W : Type 0} (c : Codec W) where
  -- Every response is written as a frame.
  pub send_response-frame :
      (body : List ℕ) (t : MessageType) → send_response c body t ≡ writing (frame c t body)
  unfolding send_response build_h_msg build_f_msg frame
  send_response-frame body t = simp (take_all, append_assoc)

module _ {W S : Type 0} (c : Codec W) (law : IsProtobuf c) (da : IDataAccess W S) (ticks : ℕ) where
  receive-append :
      (p : Phase) (bs rest : List ℕ) (s : S)
      → length bs ≡ wanted c p
      → receive c da ticks p (bs ++ rest) s
        ≡ with_rest rest (step c da ticks p (did_read false bs) s)
  unfolding receive
  receive-append p bs rest s e = rw (← e, take-length-append bs rest, drop-length-append bs rest)

  pub step_meta :
      (bs : List ℕ) (s : S)
      → length bs ≡ mh_size c
      → step c da ticks reading_meta (did_read false bs) s
        ≡ some (reading_header (c.meta.parse bs), s)
  unfolding step on_meta
  step_meta bs s e = ground (arith, e)

  pub step_header :
      (h : Header) (bs : List ℕ) (s : S)
      → c.header.parse bs ≡ h
      → step c da ticks (reading_header (length bs)) (did_read false bs) s
        ≡ some (read_body c h.msg_type h.body_size, s)
  unfolding step on_header
  step_header h bs s e = ground (arith, e, ==_refl (length bs))

  -- What `read_body` and the body's handler do with a whole message.
  abbrev pub handled : MessageType → List ℕ → S → Option (Phase × S)
  handled t body s = step c da ticks (read_body c t (length body)) (did_read false body) s

  pub receive_message-frame :
      (t : MessageType) (body rest : List ℕ) (s : S)
      → length body < 2 ^ 64
      → length (header_bytes c t body) < 2 ^ 64
      → wanted c (read_body c t (length body)) ≡ length body
      → receive_message c da ticks (frame c t body ++ rest) s ≡ with_rest rest (handled t body s)
  unfolding receive_message frame
  receive_message-frame t body rest s small small' size =
      let hdr = header_bytes c t body in
      let mb = meta_bytes c t body in
      let h : Header = record { msg_type = t; body_size = length body } in
      let sized = law.meta_length (length hdr) in
      rw
        (
          append_assoc,
          append_assoc,
          receive-append reading_meta mb (hdr ++ (body ++ rest)) s sized,
          step_meta mb s sized,
          law.meta_parse (length hdr) small',
          receive-append (reading_header (length hdr)) hdr (body ++ rest) s refl,
          step_header h hdr s (law.header_parse h small),
        )
        (receive-append (read_body c t (length body)) body rest s (sym size))
