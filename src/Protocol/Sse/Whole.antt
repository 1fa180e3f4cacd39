-- ===== src/Protocol/Sse/Whole.antt =====
-- A whole stream through a new decoder of pkg/protocol/sse.go: one `Feed`, then `Close`.
use tokenhush.Base.{
  [], ◌≡◌, refl, ap, ◌∙◌, Option, none, some, List, ◌++◌, append_assoc, Bytes, arith,
}
use tokenhush.Protocol.Sse.{Event, new_decoder, feed, close}
use tokenhush.Protocol.Sse.Lines.{raws, raws-append}
use tokenhush.Protocol.Sse.Chunks.{IsOpen}
use tokenhush.Protocol.Sse.Stream.{returned, feed_conserve}

-- What `Feed` gives, or nothing.
abbrev pub given : Option (List Event) → List Event
given none = []
given (some evs) = evs

-- The records of the stream, in order.
abbrev pub records : Bytes → List Event
records body = given (feed new_decoder body).0 ++ (close (feed new_decoder body).1).0

-- What is left in the buffer behind the last record.
abbrev pub unread : Bytes → Bytes
unread body = (close (feed new_decoder body).1).1.buf

new_decoder-IsOpen : IsOpen new_decoder
new_decoder-IsOpen = record { not_closed = refl; in_range = omega arith }

given-raws : (r : Option (List Event)) → raws (given r) ≡ returned r
given-raws none = refl
given-raws (some evs) = refl

-- The raw bytes of the records and the rest of the buffer are the stream.
pub records_conserve : (body : Bytes) → raws (records body) ++ unread body ≡ body
records_conserve body =
    let r = (feed new_decoder body).0 in
    let last = (close (feed new_decoder body).1).0 in
    ap (λ t. t ++ unread body)
      (raws-append (given r) last ∙ ap (λ t. t ++ raws last) (given-raws r))
    ∙ append_assoc (returned r) (raws last) (unread body)
    ∙ feed_conserve new_decoder body new_decoder-IsOpen
