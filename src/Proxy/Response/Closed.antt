-- ===== src/Proxy/Response/Closed.antt =====
-- What reaches the client: only a body that could be decoded and that no verdict blocks.
use tokenhush.Base.{
  ℕ, ◌≡◌, refl, sym, ap, ◌∙◌, subst, inl, inr, true, Option, none, some, List, ◌++◌, Bytes, All,
  Option-cases,
}
use tokenhush.Protocol.Sse.{Event, new_decoder, feed, close}
use tokenhush.Protocol.Sse.Lines.{raws}
use tokenhush.Protocol.Sse.Whole.{given, records, unread, records_conserve}
use tokenhush.Redact.Reassembler.Run.{events_of}
use tokenhush.Proxy.Headers.{Header}
use tokenhush.Proxy.Response.{
  Gateway, Upstream, Monitor, Refusal, Answer, delivered, refused, Coding, decoded_body,
  read_refusal, backfill_body, client_header, judge_body, deliver, handle, decode_sse, judge_sse,
  restore_sse, handle_buffered_sse,
}
use tokenhush.Proxy.Response.Passed.{
  IsPassedEvent, passes_text, passes_event, judge_body-IsPassed, judge_sse-All,
  IsPassed-passes_text, All-passes_event,
}

-- What a delivery says of the upstream's answer.
pub record IsDelivery (g : Gateway) (upstream : Upstream) (restore : Bytes → Bytes) (status : ℕ)
    (header : Header) (body : Bytes) : Type 0 where
  pub decoded : Bytes
  pub codings : List Coding
  pub readable : decoded_body g upstream ≡ some (decoded, codings)
  pub restored : body ≡ restore decoded
  pub same_status : status ≡ upstream.status
  pub described : header ≡ client_header g upstream codings body

module _ (g : Gateway) (upstream : Upstream) (judge : Bytes → Monitor → Option Refusal × Monitor)
    (restore : Bytes → Bytes) (m : Monitor) where
  deliver-none :
      decoded_body g upstream ≡ none
      → deliver g upstream judge restore m ≡ (refused (read_refusal upstream), m)
  unfolding deliver
  deliver-none e = rw (e, deliver)

  deliver-some :
      (body : Bytes) (codings : List Coding)
      → decoded_body g upstream ≡ some (body, codings)
      → deliver g upstream judge restore m ≡ (
        elim (judge body m).0 as (λ _. Answer) [
          | some refusal ↦ refused refusal
          | none ↦
              delivered upstream.status
                (client_header g upstream codings (restore body))
                (restore body)
        ],
        (judge body m).1,
      )
  unfolding deliver
  deliver-some body codings e = rw (e, deliver)

  deliver_inv :
      (status : ℕ) (header : Header) (body : Bytes)
      → (deliver g upstream judge restore m).0 ≡ delivered status header body
      → (d : IsDelivery g upstream restore status header body) × ((judge d.decoded m).0 ≡ none)
  deliver_inv status header body h = elim (Option-cases (decoded_body g upstream)) [
    | inl e ↦
        let bad : refused (read_refusal upstream) ≡ delivered status header body =
          sym (ap (λ (t : Answer × Monitor). t.0) (deliver-none e)) ∙ h in
        cc bad
    | inr ((text, codings), e) ↦
        go text codings e (judge text m).0 refl
          (sym (ap (λ (t : Answer × Monitor). t.0) (deliver-some text codings e)) ∙ h)
  ]
    where
      go :
          (text : Bytes) (codings : List Coding)
          → decoded_body g upstream ≡ some (text, codings)
          → (o : Option Refusal) → (judge text m).0 ≡ o
          → (elim o as (λ _. Answer) [
            | some refusal ↦ refused refusal
            | none ↦
                delivered upstream.status
                  (client_header g upstream codings (restore text))
                  (restore text)
          ])
            ≡ delivered status header body
          → (d : IsDelivery g upstream restore status header body) × ((judge d.decoded m).0 ≡ none)
      go text codings e (some refusal) f h = cc h
      go text codings e none f h =
          let same : restore text ≡ body = cc h in
          (
            record {
              decoded = text;
              codings = codings;
              readable = e;
              restored = sym same;
              same_status = cc h;
              described = subst (λ b. header ≡ client_header g upstream codings b) same (cc h);
            },
            f,
          )

-- For every gateway, answer of the upstream and state: a body that `Handle` delivers is the
-- restoration of the upstream's body behind all its codings, with the upstream's status and the
-- header for that body; and the evaluator, where there is one, allows the decoded body, warns of it or
-- cannot read it. An unknown action does not pass.
pub handle_fails_closed :
    (g : Gateway) (upstream : Upstream) (m : Monitor) (status : ℕ) (header : Header) (body : Bytes)
    → (handle g upstream m).0 ≡ delivered status header body
    → (d : IsDelivery g upstream (backfill_body g) status header body) × (passes_text g d.decoded
        ≡ true)
unfolding handle
handle_fails_closed g upstream m status header body h =
    let (d, passed) =
      deliver_inv g upstream (judge_body g) (backfill_body g) m status header body h in
    (d, IsPassed-passes_text g d.decoded (judge_body-IsPassed g d.decoded m passed))

decode_sse-records : (body : Bytes) → decode_sse body ≡ records body
unfolding decode_sse
decode_sse-records body =
    ap (λ t. t ++ (close (feed new_decoder body).1).0) (same (feed new_decoder body).0)
  where
    same : (r : Option (List Event)) → events_of r ≡ given r
    same none = refl
    same (some evs) = refl

-- For every gateway, answer of the upstream and state: a body that `HandleBufferedSSE` delivers is the
-- decoded body of the upstream after one pass through a new `SSEBackfiller`, with the upstream's
-- status and the header for that body. The decoded body is the raw bytes of the records that a new
-- decoder gives for it in one `Feed` and a `Close`, and the rest of the buffer; and for each of those
-- records, its data is no JSON, or the evaluator, where there is one, allows it, warns of it or cannot
-- read it.
pub handle_buffered_sse_fails_closed :
    (g : Gateway) (upstream : Upstream) (m : Monitor) (status : ℕ) (header : Header) (body : Bytes)
    → (handle_buffered_sse g upstream m).0 ≡ delivered status header body
    → (d : IsDelivery g upstream (restore_sse g) status header body) × (raws (records d.decoded)
          ++ unread d.decoded
        ≡ d.decoded)
      × All (λ (ev : Event). passes_event g ev ≡ true) (records d.decoded)
unfolding handle_buffered_sse
handle_buffered_sse_fails_closed g upstream m status header body h =
    let (d, passed) = deliver_inv g upstream (judge_sse g) (restore_sse g) m status header body h in
    (
      d,
      records_conserve d.decoded,
      All-passes_event g (records d.decoded) (
          subst (All (IsPassedEvent g)) (decode_sse-records d.decoded)
            (judge_sse-All g d.decoded m passed)),
    )
