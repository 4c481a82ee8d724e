-- ===== src/Graph.antt =====
-- `buildGraph` of src/utils/buildGraph.ts: the processes and the messages between them, without the
-- positions that the dagre library computes.
pub mod Names
pub mod Members
pub mod Edges
pub mod Shape
pub mod Collapse
pub mod Kept
pub mod Faithful
pub mod Drawn
pub mod Exact
mod Tests
use c_interface_discovery.Prelude.{
  ℕ, Text, List, [], ◌∷◌, ◌++◌, map, reverse, Option, none, some, Bool, true, false, not, ◌&&◌,
  ◌||◌, ◌-◌, suc, ◌==◌, ◌===◌, any, keep, take, length, index_of, is_some, if◌then◌else◌,
}
use c_interface_discovery.Prelude.Dict
use c_interface_discovery.Prelude.Dict.{Dict}

-- The types of src/analyzer/types.ts, as far as the graph reads them; an `IpcType` is its text.
pub data Role : Type 0 where
  producer consumer both : Role

pub record MsgFileRole : Type 0 where
  pub filename : Text
  pub role : Role

pub record MessageInterface : Type 0 where
  pub msg_type_constant : Text
  pub direction_confident : Bool
  pub transport : Option Text
  pub file_roles : List MsgFileRole
  pub incomplete : Bool

pub record FileAnalysis : Type 0 where
  pub filename : Text
  pub ipc : List Text
  pub unknown_calls : List Text

pub record ProcessNode : Type 0 where
  pub label : Text
  pub filename : Text
  pub ipc_types : List Text
  pub produced_msgs : List Text
  pub consumed_msgs : List Text
  pub has_unknown : Bool
  pub has_dangling : Bool

-- An entry of `edgeMap`.
pub record EdgeEntry : Type 0 where
  pub source : Text
  pub target : Text
  pub msg_types : List Text
  pub transport : Option Text
  pub confident : Bool

-- `if (!xs.includes(x)) xs.push(x)`
unfoldable pub includes_text : List Text → Text → Bool
includes_text xs x = any (λ y. y === x) xs

unfoldable pub push_new : List Text → Text → List Text
push_new xs x = if includes_text xs x then xs else xs ++ x ∷ []

unfoldable pub push_all : List Text → List Text → List Text
push_all xs [] = xs
push_all xs (y ∷ ys) = push_all (push_new xs y) ys

-- The part of the name before its last dot, if something follows the dot.
unfoldable pub strip_extension : Text → Text
strip_extension name = elim (index_of b'.' (reverse name)) [
  | none ↦ name
  | some i ↦ if i == 0 then name else take (length name - suc i) name
]

unfoldable pub node_of : FileAnalysis → ProcessNode
node_of fa = record {
  label = strip_extension fa.filename;
  filename = fa.filename;
  ipc_types = push_all [] fa.ipc;
  produced_msgs = [];
  consumed_msgs = [];
  has_unknown = not (length fa.unknown_calls == 0);
  has_dangling = false;
}

unfoldable pub node_map : List FileAnalysis → Dict ProcessNode → Dict ProcessNode
node_map [] nodes = nodes
node_map (fa ∷ files) nodes = node_map files (Dict.set nodes fa.filename (node_of fa))

unfoldable pub is_producer : Role → Bool
is_producer consumer = false
is_producer _ = true

unfoldable pub is_consumer : Role → Bool
is_consumer producer = false
is_consumer _ = true

-- `msg.fileRoles.filter(…)`, by the filenames that are read of the result.
unfoldable pub producers : MessageInterface → List Text
producers msg = map (λ r. r.filename) (keep (λ r. is_producer r.role) msg.file_roles)

unfoldable pub consumers : MessageInterface → List Text
consumers msg = map (λ r. r.filename) (keep (λ r. is_consumer r.role) msg.file_roles)

-- A change of the object stored under a key, if there is one.
unfoldable pub update : {A : Type 0} → (A → A) → Text → Dict A → Dict A
update change k d = elim (Dict.get d k) [ none ↦ d | some a ↦ Dict.set d k (change a) ]

-- `${source}→${target}`
unfoldable pub key_of : Text → Text → Text
key_of from to = from ++ 8594 ∷ to

unfoldable pub new_edge : MessageInterface → Text → Text → EdgeEntry
new_edge msg from to = record {
  source = from;
  target = to;
  msg_types = msg.msg_type_constant ∷ [];
  transport = msg.transport;
  confident = msg.direction_confident;
}

unfoldable pub with_msg : Text → EdgeEntry → EdgeEntry
with_msg constant e = record e { msg_types = push_new e.msg_types constant }

-- One round of the innermost loop.
unfoldable pub add_edge : MessageInterface → Text → Text → Dict EdgeEntry → Dict EdgeEntry
add_edge msg from to edges =
    if from === to then edges else (elim (Dict.get edges (key_of from to)) [
      | none ↦ Dict.set edges (key_of from to) (new_edge msg from to)
      | some e ↦ Dict.set edges (key_of from to) (with_msg msg.msg_type_constant e)
    ])

unfoldable pub connect : MessageInterface → Text → List Text → Dict EdgeEntry → Dict EdgeEntry
connect msg from [] edges = edges
connect msg from (to ∷ more) edges = connect msg from more (add_edge msg from to edges)

unfoldable pub connect_all :
    MessageInterface → List Text → List Text → Dict EdgeEntry → Dict EdgeEntry
connect_all msg [] to edges = edges
connect_all msg (from ∷ more) to edges = connect_all msg more to (connect msg from to edges)

unfoldable pub edge_map : List MessageInterface → Dict EdgeEntry → Dict EdgeEntry
edge_map [] edges = edges
edge_map (msg ∷ msgs) edges = edge_map msgs (connect_all msg (producers msg) (consumers msg) edges)

-- The messages noted at the nodes, and the nodes of messages with one side only.
unfoldable pub produces : Text → ProcessNode → ProcessNode
produces constant n = record n { produced_msgs = push_new n.produced_msgs constant }

unfoldable pub consumes : Text → ProcessNode → ProcessNode
consumes constant n = record n { consumed_msgs = push_new n.consumed_msgs constant }

unfoldable pub dangles : ProcessNode → ProcessNode
dangles n = record n { has_dangling = true }

unfoldable pub update_all :
    (ProcessNode → ProcessNode) → List Text → Dict ProcessNode → Dict ProcessNode
update_all change [] nodes = nodes
update_all change (f ∷ files) nodes = update_all change files (update change f nodes)

unfoldable pub note_messages : List MessageInterface → Dict ProcessNode → Dict ProcessNode
note_messages [] nodes = nodes
note_messages (msg ∷ msgs) nodes = note_messages msgs (
    update_all (consumes msg.msg_type_constant) (consumers msg)
      (update_all (produces msg.msg_type_constant) (producers msg) nodes))

-- `xs.length > 0 && ys.length === 0`
unfoldable pub one_sided : List Text → List Text → Bool
one_sided (x ∷ xs) [] = true
one_sided _ _ = false

unfoldable pub flag_dangling : List MessageInterface → Dict ProcessNode → Dict ProcessNode
flag_dangling [] nodes = nodes
flag_dangling (msg ∷ msgs) nodes =
    let ps = producers msg in
    let cs = consumers msg in
    let first = (if one_sided ps cs then update_all dangles ps nodes else nodes) in
    flag_dangling msgs (if one_sided cs ps then update_all dangles cs first else first)

-- `msg.incomplete = true`
unfoldable pub flag_message : MessageInterface → MessageInterface
flag_message msg =
    if one_sided (producers msg) (consumers msg) || one_sided (consumers msg) (producers msg)
    then record msg { incomplete = true }
    else msg

-- Reciprocal pairs of edges become one: the state of the loop is `edgeMap` and `dropped`.
pub record Pairs : Type 0 where
  pub edges : Dict EdgeEntry
  pub dropped : List Text

unfoldable pub merge : EdgeEntry → EdgeEntry → EdgeEntry
merge e reverse = record reverse {
  msg_types = push_all reverse.msg_types e.msg_types;
  confident = reverse.confident || e.confident;
}

unfoldable pub collapse_edge : Text → EdgeEntry → Pairs → Pairs
collapse_edge key e st =
    let reverse_key = key_of e.target e.source in
    if Dict.has st.edges reverse_key && not (includes_text st.dropped reverse_key)
    then record { edges = update (merge e) reverse_key st.edges; dropped = push_new st.dropped key }
    else st

unfoldable pub collapse_step : Text → Pairs → Pairs
collapse_step key st = elim (Dict.get st.edges key) [
  | none ↦ st
  | some e ↦ if includes_text st.dropped key then st else collapse_edge key e st
]

unfoldable pub collapse : List Text → Pairs → Pairs
collapse [] st = st
collapse (key ∷ keys) st = collapse keys (collapse_step key st)

unfoldable pub delete_all : List Text → Dict EdgeEntry → Dict EdgeEntry
delete_all [] edges = edges
delete_all (key ∷ keys) edges = delete_all keys (Dict.delete edges key)

pub data EdgeDirection : Type 0 where
  unidirectional bidirectional uncertain : EdgeDirection

pub record MsgEdge : Type 0 where
  pub id : Text
  pub entry : EdgeEntry
  pub direction : EdgeDirection
  pub animated : Bool

unfoldable pub direction_of : Bool → Bool → EdgeDirection
direction_of was_pair confident =
    if was_pair && confident then bidirectional else if confident then unidirectional else uncertain

unfoldable pub is_uncertain : EdgeDirection → Bool
is_uncertain uncertain = true
is_uncertain _ = false

unfoldable pub msg_edge : List Text → Text → EdgeEntry → MsgEdge
msg_edge dropped key e =
    let direction = direction_of (includes_text dropped (key_of e.target e.source)) e.confident in
    record { id = key; entry = e; direction = direction; animated = is_uncertain direction }

unfoldable pub assemble : List Text → Dict EdgeEntry → List MsgEdge
assemble dropped [] = []
assemble dropped ((key, e) ∷ edges) = msg_edge dropped key e ∷ assemble dropped edges

-- The result, and the messages of the analysis, which the function marks as incomplete.
pub record Graph : Type 0 where
  pub nodes : List ProcessNode
  pub edges : List MsgEdge
  pub messages : List MessageInterface

-- The edges left, with the keys dropped.
unfoldable pub collapsed : List MessageInterface → Pairs
collapsed msgs =
    let edges = edge_map msgs [] in
    collapse (map (λ e. e.0) edges) (record { edges = edges; dropped = [] })

unfoldable pub build_graph : List FileAnalysis → List MessageInterface → Graph
build_graph files msgs =
    let st = collapsed msgs in
    record {
      nodes = map (λ n. n.1) (flag_dangling msgs (note_messages msgs (node_map files [])));
      edges = assemble st.dropped (delete_all st.dropped st.edges);
      messages = map flag_message msgs;
    }
