-- ===== src/Proxy/Response.antt =====
-- The client-bound path of pkg/proxy/response_buffered.go and response_sse_buffered.go: `Handle` and
-- `HandleBufferedSSE`. `Upstream` is what the code reads of the response: its body is `none` where
-- reading fails. `Gateway` holds the seams and the decompressors. A refusal is a 502 with the code and
-- the rule; the rendering of its JSON body is left out. A nil backfiller restores nothing.
pub mod Passed
pub mod Closed
use tokenhush.Base.{
  ℕ, suc, ◌+◌, Bool, true, false, not, ◌&&◌, ◌||◌, Option, none, some, List, [], ◌∷◌, ◌++◌, Bytes,
  codes, ltb, ◌==◌, if◌then◌else◌, length, bytes_eq, insert,
}
use tokenhush.Protocol.Identity.{itoa}
use tokenhush.Protocol.Sse.{Event, new_decoder, feed, close}
use tokenhush.Redact.Reassembler.{Host, new_sse_backfiller}
use tokenhush.Redact.Reassembler.Run.{events_of, process}
use tokenhush.Supply.Revocation.{bytes_less}
use tokenhush.Proxy.Headers.{
  Text, Header, contains_name, split_commas, values_of, copy_end_to_end_headers, delete_key,
}

pub data ResponseAction : Type 0 where
  response_allow response_warn response_block : ResponseAction
  other_action : Bytes → ResponseAction

pub record ResponseDecision : Type 0 where
  pub action : ResponseAction
  pub rule_ids : List Bytes

-- The evaluator returns `none` for an error. `quote` stands for `strconv.Quote`.
pub record Gateway : Type 0 where
  pub evaluator : Option (Bytes → Option ResponseDecision)
  pub backfiller : Option (Bytes → Bytes)
  pub warns : Bool
  pub text : Text
  pub gunzip : Bytes → Option Bytes
  pub inflate : Bytes → Option Bytes
  pub quote : Bytes → Bytes
  pub stream : Host

pub record Upstream : Type 0 where
  pub status : ℕ
  pub header : Header
  pub body : Option Bytes

-- The counters and the warning lines.
pub record Monitor : Type 0 where
  pub requests : ℕ
  pub redactions : ℕ
  pub content_policy_blocks : ℕ
  pub rule_blocks : ℕ
  pub walk_skips : ℕ
  pub warnings : List Bytes

unfoldable pub count_request : Monitor → Monitor
count_request m = record m { requests = m.requests + 1 }

unfoldable pub count_redaction : Monitor → Monitor
count_redaction m = record m { redactions = m.redactions + 1 }

unfoldable pub count_redactions : ℕ → Monitor → Monitor
count_redactions n m = if ltb 0 n then record m { redactions = m.redactions + n } else m

unfoldable pub count_walk_skip : Monitor → Monitor
count_walk_skip m = record m { walk_skips = m.walk_skips + 1 }

-- `countContentPolicyBlock` and `countRuleBlock`, which the code calls together.
unfoldable pub count_block : Monitor → Monitor
count_block m = record m {
  content_policy_blocks = m.content_policy_blocks + 1;
  rule_blocks = m.rule_blocks + 1;
}

pub data Refusal : Type 0 where
  unreadable undecodable : Refusal
  rule_blocked : Bytes → Refusal

pub data Answer : Type 0 where
  delivered : ℕ → Header → Bytes → Answer
  refused : Refusal → Answer

unfoldable pub primary_rule : List Bytes → Bytes
primary_rule [] = []
primary_rule (id ∷ ids) = id

-- A coding that the path can undo.
pub data Coding : Type 0 where
  gzip deflate : Coding

-- The switch of `declaredCodings`: `none` for a coding that is unknown, no coding for `identity`.
unfoldable pub coding_of : Bytes → Option (List Coding)
coding_of name =
    if bytes_eq name (codes "identity")
    then some []
    else if bytes_eq name (codes "gzip") || bytes_eq name (codes "x-gzip")
    then some (gzip ∷ [])
    else if bytes_eq name (codes "deflate")
    then some (deflate ∷ [])
    else none

unfoldable pub token_codings : Text → List Bytes → Option (List Coding)
token_codings text [] = some []
token_codings text (token ∷ tokens) = elim (coding_of (text.lower (text.trim token))) [
  | none ↦ none
  | some cs ↦ elim (token_codings text tokens) [ none ↦ none | some more ↦ some (cs ++ more) ]
]

unfoldable pub declared_codings : Text → List Bytes → Option (List Coding)
declared_codings text [] = some []
declared_codings text (value ∷ values) = elim (token_codings text (split_commas value)) [
  | none ↦ none
  | some cs ↦ elim (declared_codings text values) [ none ↦ none | some more ↦ some (cs ++ more) ]
]

unfoldable pub decode_one : Gateway → Coding → Bytes → Option Bytes
decode_one g gzip body = g.gunzip body
decode_one g deflate body = g.inflate body

-- `decodeAll`: the last coding is undone first.
unfoldable pub decode_all : Gateway → Bytes → List Coding → Option Bytes
decode_all g raw [] = some raw
decode_all g raw (c ∷ cs) = elim (decode_all g raw cs) [
  | none ↦ none
  | some body ↦ decode_one g c body
]

-- The body behind its codings, or the refusal.
unfoldable pub decoded_body : Gateway → Upstream → Option (Bytes × List Coding)
decoded_body g upstream = elim upstream.body [
  | none ↦ none
  | some raw ↦
      elim (declared_codings g.text (values_of g.text (codes "Content-Encoding") upstream.header)) [
        | none ↦ none
        | some codings ↦ elim (decode_all g raw codings) [
          | none ↦ none
          | some body ↦ some (body, codings)
        ]
      ]
]

-- The refusal where there is no such body.
unfoldable pub read_refusal : Upstream → Refusal
read_refusal upstream = elim upstream.body [ none ↦ unreadable | some _ ↦ undecodable ]

abbrev pub warning_prefix : Bytes
warning_prefix = codes "tokenhush: response warn"

unfoldable pub warning_lines : Gateway → List Bytes → List Bytes
warning_lines g [] = []
warning_lines g (id ∷ ids) =
    (warning_prefix ++ (codes " rule=" ++ g.quote id)) ∷ warning_lines g ids

unfoldable pub warn : Gateway → List Bytes → Monitor → Monitor
warn g ids m = if not g.warns then m else elim ids [
  | [] ↦ record m { warnings = m.warnings ++ warning_prefix ∷ [] }
  | id ∷ more ↦ record m { warnings = m.warnings ++ warning_lines g (id ∷ more) }
]

unfoldable pub backfill_body : Gateway → Bytes → Bytes
backfill_body g body = elim g.backfiller [ none ↦ body | some restore ↦ restore body ]

-- The header of a body that is delivered.
unfoldable pub client_header : Gateway → Upstream → List Coding → Bytes → Header
client_header g upstream codings body =
    let copied = copy_end_to_end_headers g.text [] upstream.header in
    let plain : Header = elim codings [
      | [] ↦ copied
      | _ ∷ _ ↦ delete_key (g.text.canonical (codes "Content-Encoding")) copied
    ] in
    insert (g.text.canonical (codes "Content-Length")) (itoa (length body) ∷ []) plain

-- The switch of `Handle`: the refusal of a blocked body, or the body goes on.
unfoldable pub judge_body : Gateway → Bytes → Monitor → Option Refusal × Monitor
judge_body g body m = elim g.evaluator [
  | none ↦ (none, m)
  | some evaluate ↦ elim (evaluate body) [
    | none ↦ (none, count_walk_skip m)
    | some d ↦ elim d.action [
      | response_warn ↦ (none, warn g d.rule_ids m)
      | response_allow ↦ (none, m)
      | response_block ↦ (some (rule_blocked (primary_rule d.rule_ids)), count_block m)
      | other_action _ ↦ (some (rule_blocked (primary_rule d.rule_ids)), count_block m)
    ]
  ]
]

-- What both handlers do, with their evaluation and their restoration.
unfoldable pub deliver :
    Gateway
    → Upstream
    → (Bytes → Monitor → Option Refusal × Monitor)
    → (Bytes → Bytes)
    → Monitor
    → Answer × Monitor
deliver g upstream judge restore m = elim (decoded_body g upstream) [
  | none ↦ (refused (read_refusal upstream), m)
  | some (body, codings) ↦
      let (verdict, m') = judge body m in
      (
        elim verdict [
          | some refusal ↦ refused refusal
          | none ↦
              delivered upstream.status (client_header g upstream codings (restore body))
                (restore body)
        ],
        m',
      )
]

-- `Handle`.
unfoldable pub handle : Gateway → Upstream → Monitor → Answer × Monitor
handle g upstream m = deliver g upstream (judge_body g) (backfill_body g) m

unfoldable pub decode_sse : Bytes → List Event
decode_sse body = let (events, d) = feed new_decoder body in events_of events ++ (close d).0

-- The state of the loop of `evaluateSSE`.
pub record SseVerdict : Type 0 where
  pub blocked : Bool
  pub block_ids : List Bytes
  pub warn_ids : List Bytes

-- One event.
unfoldable pub event_verdict :
    (Bytes → Option ResponseDecision) → Host → Event → SseVerdict × Monitor → SseVerdict × Monitor
event_verdict evaluate host ev (v, m) =
    if not (host.json_valid ev.payload) then (v, m) else elim (evaluate ev.payload) [
      | none ↦ (v, count_walk_skip m)
      | some d ↦ elim d.action [
        | response_warn ↦ (record v { warn_ids = v.warn_ids ++ d.rule_ids }, m)
        | response_allow ↦ (v, m)
        | response_block ↦ (record v { blocked = true; block_ids = v.block_ids ++ d.rule_ids }, m)
        | other_action _ ↦ (record v { blocked = true; block_ids = v.block_ids ++ d.rule_ids }, m)
      ]
    ]

unfoldable pub events_loop :
    (Bytes → Option ResponseDecision)
    → Host
    → List Event
    → SseVerdict × Monitor
    → SseVerdict × Monitor
events_loop evaluate host [] r = r
events_loop evaluate host (ev ∷ evs) r =
    events_loop evaluate host evs (event_verdict evaluate host ev r)

-- `sortedRuleIDs`: the ids without repetition, in order.
unfoldable pub insert_id : Bytes → List Bytes → List Bytes
insert_id id [] = id ∷ []
insert_id id (x ∷ xs) =
    let rest = insert_id id xs in
    if bytes_eq id x then x ∷ xs else if bytes_less x id then x ∷ rest else id ∷ x ∷ xs

unfoldable pub sorted_rule_ids : List Bytes → List Bytes
sorted_rule_ids [] = []
sorted_rule_ids (id ∷ ids) = insert_id id (sorted_rule_ids ids)

abbrev pub no_verdict : SseVerdict
no_verdict = record { blocked = false; block_ids = []; warn_ids = [] }

-- The end of `evaluateSSE`.
unfoldable pub conclude : Gateway → SseVerdict → Monitor → Option Refusal × Monitor
conclude g v m =
    if v.blocked
    then (some (rule_blocked (primary_rule (sorted_rule_ids v.block_ids))), count_block m)
    else elim v.warn_ids [
      | [] ↦ (none, m)
      | id ∷ ids ↦ (none, warn g (sorted_rule_ids (id ∷ ids)) m)
    ]

-- `evaluateSSE`.
unfoldable pub judge_sse : Gateway → Bytes → Monitor → Option Refusal × Monitor
judge_sse g body m = elim g.evaluator [
  | none ↦ (none, m)
  | some evaluate ↦
      let (v, m') = events_loop evaluate g.stream (decode_sse body) (no_verdict, m) in
      conclude g v m'
]

unfoldable pub restore_sse : Gateway → Bytes → Bytes
restore_sse g body =
    (process (record g.stream { restore = backfill_body g; observer = none }) body
      new_sse_backfiller).0

-- `HandleBufferedSSE`.
unfoldable pub handle_buffered_sse : Gateway → Upstream → Monitor → Answer × Monitor
handle_buffered_sse g upstream m = deliver g upstream (judge_sse g) (restore_sse g) m
