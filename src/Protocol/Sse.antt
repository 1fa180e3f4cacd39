-- ===== src/Protocol/Sse.antt =====
-- `Decoder` of pkg/protocol/sse.go: the incremental decoder of server-sent events. A slice
-- `d.buf[a:b]` is cut out of the list, and offsets are kept as the source keeps them.
pub mod Lines
pub mod Chunks
pub mod Stream
pub mod Whole
use tokenhush.Base.{
  ℕ, zero, suc, ◌+◌, ◌-◌, ◌≤◌, ◌<◌, Bool, true, false, ◌&&◌, ◌||◌, not, Option, none, some, List,
  [], ◌∷◌, ◌++◌, Bytes, codes, ltb, leb, ◌==◌, if◌then◌else◌, length, take, drop, bytes_eq,
}

pub record Span : Type 0 where
  pub start : ℕ
  pub end : ℕ

pub record Event : Type 0 where
  pub event : Bytes
  pub payload : Bytes
  pub id : Bytes
  pub has_id : Bool
  pub retry : Bytes
  pub raw : Bytes
  pub data_spans : List Span

-- The fields of the pending record, apart from its bytes.
pub record Pending : Type 0 where
  pub event : Bytes
  pub payload : Bytes
  pub data_n : ℕ
  pub spans : List Span
  pub id : Bytes
  pub has_id : Bool
  pub retry : Bytes

pub record Decoder : Type 0 where
  pub buf : Bytes
  pub scan : ℕ
  pub pending : Pending
  pub closed : Bool

abbrev pub new_decoder : Decoder
new_decoder = record {
  buf = [];
  scan = 0;
  pending = record {
    event = [];
    payload = [];
    data_n = 0;
    spans = [];
    id = [];
    has_id = false;
    retry = [];
  };
  closed = false;
}

-- The loop of `nextLine` over `d.buf[i:]`: the length of the line's content and of its terminator.
unfoldable pub line_loop : Bool → Bytes → ℕ → Option (ℕ × ℕ)
line_loop final [] n = if final && ltb 0 n then some (n, 0) else none
line_loop final (c ∷ s) n =
    let more = line_loop final s (n + 1) in
    if c == b'\n'
    then some (n, 1)
    else if c == b'\r'
    then elim s [
      | d ∷ _ ↦ (if d == b'\n' then some (n, 2) else some (n, 1))
      | [] ↦ (if final then some (n, 1) else none)
    ]
    else more

-- `nextLine`: the start, the end and the offset behind the terminator.
unfoldable pub next_line : Bool → Bytes → ℕ → Option (ℕ × ℕ × ℕ)
next_line final buf scan = elim (line_loop final (drop scan buf) 0) [
  | none ↦ none
  | some (n, t) ↦ some (scan, scan + n, scan + n + t)
]

-- `bytes.IndexByte(line, ':')`.
unfoldable pub index_colon : Bytes → Option ℕ
index_colon [] = none
index_colon (c ∷ s) = elim (c == b':') [
  | true ↦ some 0
  | false ↦ elim (index_colon s) [ none ↦ none | some i ↦ some (suc i) ]
]

unfoldable pub add_data : Pending → Bytes → ℕ → Bool → Pending
add_data p value vstart canonical = record p {
  payload = (if ltb 0 p.data_n then p.payload ++ b'\n' ∷ [] else p.payload) ++ value;
  data_n = p.data_n + 1;
  spans =
      if p.data_n + 1 == 1 && canonical
      then record { start = vstart; end = vstart + length value } ∷ []
      else [];
}

-- The switch of `field` on the name.
unfoldable pub set_field : Pending → Bytes → Bytes → ℕ → Bool → Pending
set_field p name value vstart canonical =
    if bytes_eq name (codes "data")
    then add_data p value vstart canonical
    else if bytes_eq name (codes "event")
    then record p { event = value }
    else if bytes_eq name (codes "id")
    then record p { id = value; has_id = true }
    else if bytes_eq name (codes "retry")
    then record p { retry = value }
    else p

-- The value behind a colon, which is at `vstart`, less one leading space.
unfoldable pub strip_space : Bytes → ℕ → Bytes × ℕ
strip_space [] vstart = ([], vstart)
strip_space (c ∷ s) vstart = if c == b' ' then (s, vstart + 1) else (c ∷ s, vstart)

-- `field(start, end)`, for the content of a line that is not blank.
unfoldable pub field : Pending → Bytes → ℕ → ℕ → Pending
field p [] start end = p
field p (c ∷ s) start end =
    let line = c ∷ s in
    if c == b':' then p else elim (index_colon line) [
      | none ↦ set_field p line [] end false
      | some colon ↦
          let (value, vstart) = strip_space (drop (colon + 1) line) (start + colon + 1) in
          set_field p (take colon line) value vstart true
    ]

unfoldable pub event_of : Pending → Bytes → Event
event_of p raw = record {
  event = elim p.event [ [] ↦ codes "message" | c ∷ s ↦ c ∷ s ];
  payload = p.payload;
  id = p.id;
  has_id = p.has_id;
  retry = p.retry;
  raw = raw;
  data_spans = if p.data_n == 1 then p.spans else [];
}

-- What `dispatch` leaves of the pending record: the id.
unfoldable pub reset : Pending → Pending
reset p = record p { event = []; payload = []; data_n = 0; spans = []; has_id = false; retry = [] }

unfoldable pub dispatch : Decoder → Event × Decoder
dispatch d = (
  event_of d.pending (take d.scan d.buf),
  record d { buf = drop d.scan d.buf; scan = 0; pending = reset d.pending },
)

-- What the body of the loop of `scanLines` does with one line.
unfoldable pub line_step : Decoder → ℕ → ℕ → ℕ → List Event × Decoder
line_step d start end next =
    let d' = record d { scan = next } in
    if start == end
    then (if ltb 0 d.pending.data_n
        then (let (ev, d'') = dispatch d' in (ev ∷ [], d''))
        else ([], record d' { pending = record (d.pending) { event = []; retry = [] } }))
    else (
      [],
      record d' { pending = field d.pending (take (end - start) (drop start d.buf)) start end },
    )

-- The loop of `scanLines`, on fuel.
unfoldable pub scan_lines : ℕ → Bool → Decoder → List Event × Decoder
scan_lines zero final d = ([], d)
scan_lines (suc fuel) final d = elim (next_line final d.buf d.scan) [
  | none ↦ ([], d)
  | some (start, end, next) ↦
      let (evs, d') = line_step d start end next in
      let (more, d'') = scan_lines fuel final d' in (evs ++ more, d'')
]

-- Each round takes a byte of the buffer at least, so the bytes left are fuel enough.
abbrev pub enough : Decoder → ℕ
enough d = length d.buf - d.scan + 1

-- `Feed`; `none` is `ErrClosed`.
unfoldable pub feed : Decoder → Bytes → Option (List Event) × Decoder
feed d chunk =
    let d' = record d { buf = d.buf ++ chunk } in
    if d.closed
    then (none, d)
    else (let (evs, d'') = scan_lines (enough d') false d' in (some evs, d''))

unfoldable pub close : Decoder → List Event × Decoder
close d =
    let (evs, d') = scan_lines (enough d) true (record d { closed = true }) in
    if d.closed
    then ([], d)
    else if ltb 0 d'.pending.data_n
    then (let (ev, d'') = dispatch d' in (evs ++ ev ∷ [], d''))
    else (evs, d')
