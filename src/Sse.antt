-- ===== src/Sse.antt =====
-- src/llm/sse.ts: the incremental parser of server-sent events. The buffer is the parser's state.
pub mod Lines
pub mod Chunks
pub mod Events
pub mod Flush
mod Tests
use c_interface_discovery.Prelude.{
  ℕ, zero, suc, Text, List, [], ◌∷◌, ◌++◌, Option, none, some, Bool, true, false, ◌==◌, ◌===◌,
  codes, starts_with, index_of, take, drop, length, trim, if◌then◌else◌,
}

pub record SseParser : Type 0 where
  pub buffer : Text

abbrev pub init : SseParser
init = record { buffer = [] }

-- `if (line.endsWith('\r')) line = line.slice(0, -1)`
unfoldable pub strip_cr : Text → Text
strip_cr [] = []
strip_cr (c ∷ []) = if c == 13 then [] else c ∷ []
strip_cr (c ∷ d ∷ s) = c ∷ strip_cr (d ∷ s)

-- `if (value.startsWith(' ')) value = value.slice(1)`
pub strip_space : Text → Text
strip_space [] = []
strip_space (c ∷ s) = if c == 32 then s else c ∷ s

-- `field` and `value` of a line, from the position of its colon
pub field_value : Text → Option ℕ → Text × Text
field_value line none = (line, [])
field_value line (some colon) = (take colon line, drop (suc colon) line)

-- One round of the loop after the slices: the payload of a line, or `none` for `continue`.
pub payload : Text → Option Text
payload raw =
    let line = strip_cr raw in
    if line === []
    then none
    else if starts_with line (codes ":")
    then none
    else (let (field, value) = field_value line (index_of b':' line) in
        if field === codes "data" then some (strip_space value) else none)

-- `out.push(value)` unless the round was left by `continue`
pub emit : Option Text → List Text → List Text
emit none out = out
emit (some value) out = value ∷ out

-- `while ((newlineIndex = this.buffer.indexOf('\n')) !== -1)`. Each round shortens the buffer, so
-- its length bounds the rounds.
pub drain : ℕ → Text → List Text × Text
drain zero buffer = ([], buffer)
drain (suc fuel) buffer = elim (index_of 10 buffer) [
  | none ↦ ([], buffer)
  | some newline_index ↦
      let (out, rest) = drain fuel (drop (suc newline_index) buffer) in
      (emit (payload (take newline_index buffer)) out, rest)
]

pub push : Text → SseParser → List Text × SseParser
push chunk p =
    let buffer = p.buffer ++ chunk in
    let (out, rest) = drain (length buffer) buffer in (out, record { buffer = rest })

unfoldable pub flush : SseParser → List Text × SseParser
flush p = if trim p.buffer === [] then ([], init) else push (p.buffer ++ 10 ∷ []) init

-- The chunks of a response, one `push` each, as `chatStream` feeds them.
unfoldable pub feed : List Text → SseParser → List Text × SseParser
feed [] p = ([], p)
feed (chunk ∷ chunks) p =
    let (out, p') = push chunk p in let (more, p'') = feed chunks p' in (out ++ more, p'')
