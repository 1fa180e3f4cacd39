-- ===== src/Tests/Sse.antt =====
-- The properties of the event decoder at concrete inputs.
use tokenhush.Base.{◌≡◌, refl, [], ◌∷◌, ◌++◌, codes, arith}
use tokenhush.Protocol.Sse.{new_decoder, feed, close}
use tokenhush.Protocol.Sse.Lines.{raws}
use tokenhush.Protocol.Sse.Chunks.{IsOpen}
use tokenhush.Protocol.Sse.Stream.{feed_all, events_chunks, returned, events_conserve}

new_decoder-IsOpen : IsOpen new_decoder
new_decoder-IsOpen = record { in_range = omega arith; not_closed = refl }

events_chunks_example :
    feed_all new_decoder (codes "data: a\n" ∷ codes "\ndata" ∷ [])
    ≡ feed new_decoder (codes "data: a\n\ndata")
events_chunks_example =
    events_chunks new_decoder (codes "data: a\n") (codes "\ndata" ∷ []) new_decoder-IsOpen

events_conserve_example :
    returned (feed_all new_decoder (codes "data: a\n" ∷ codes "\ndata" ∷ [])).0
      ++ (raws (close (feed_all new_decoder (codes "data: a\n" ∷ codes "\ndata" ∷ [])).1).0
          ++ (close (feed_all new_decoder (codes "data: a\n" ∷ codes "\ndata" ∷ [])).1).1.buf)
    ≡ codes "data: a\n\ndata"
events_conserve_example =
    events_conserve new_decoder (codes "data: a\n") (codes "\ndata" ∷ []) new_decoder-IsOpen
