-- ===== src/Lib.antt =====
-- A verification of c-interface-discovery, a browser tool that reads C sources, lists the messages
-- they exchange, computes the layouts of their structs and answers questions about them with a
-- language model. Texts are lists of UTF-16 code units and numbers are natural numbers.
--
-- The parts, and the files that model them:
--
-- Prelude         shared helpers: texts and their functions as JavaScript has them (`indexOf`,
--                 `split`, `trim`, `startsWith`), maps that keep the order of insertion (Dict),
--                 words, integers, and the lemmas on them.
-- Types           src/analyzer/types.ts: files, warnings, structs and the type dictionary.
-- Sse             src/llm/sse.ts: `SseParser`. The buffer is the state; `push` and `flush` return
--                 the payloads and the new state. The loop of `push` runs on fuel, the length of
--                 the buffer: each round takes at least the newline off it.
-- Registry        src/analyzer/fileRegistry.ts: `FileRegistry`, entries and warnings, with
--                 `addFiles`, `removeFile`, `clear` and the getters. Registry.Steps has histories
--                 of operations and the invariant.
-- Pack            src/analyzer/packDetection.ts: Pack.Pragma scans a file for `#pragma pack`,
--                 Pack.Replay is `buildPackMap`, Pack.Attribute finds `__attribute__((packed))`,
--                 Pack.Resolve combines both.
-- Layout          src/analyzer/structLayoutEngine.ts: Layout.Primitives has the tables and `alignUp`,
--                 Layout.FieldType is `parseFieldType`, Layout.Typedefs the typedef map,
--                 Layout.Fields the loop over a struct's fields for any measure of their types, and
--                 Layout.Compute the recursion into nested structs, `computeLayout` and
--                 `buildStructCatalog`. The recursion runs on fuel, one more than the number of
--                 structs of the dictionary: each nested struct adds a new name of the dictionary
--                 to the recursion guard.
-- Ask             src/llm/conversation.ts and `executeTool` of src/llm/tools.ts: Ask.Types has the
--                 messages and events, Ask.Tools the call of a tool, Ask.Loop the loop as the sequence
--                 of the events it yields and the requests it sends. The server, the executors and
--                 JSON are parameters. The rounds are counted down from MAX_TOOL_ROUNDS.
-- Roles           src/analyzer/structRoleAnalyzer.ts, with `canonicalName` of
--                 src/analyzer/headerGenBundle.ts: Roles.Containment fills the maps of the
--                 containment graph, Roles.Report has bindings, depths, roles and the sorted report.
--                 The depth recursion runs on fuel, one more than the names with entries: each step
--                 down adds a name to `seen`. `localeCompare` is a parameter.
-- Composition     src/analyzer/messageComposition.ts: the parts of a message in wire order, and the
--                 list of the compositions. `maxDepth` is counted down, so that no fuel is needed.
--                 Composition.Warnings is `collectWarnings`, Composition.Summary the one-line summary.
-- Walk            the depth-first walk with a set of seen keys that src/analyzer/messageComposition.ts and
--                 src/analyzer/headerGenBundle.ts both write out. It runs on fuel, one more than the
--                 nodes with successors: each step down adds one of them to the set.
-- HeaderGen       src/analyzer/headerGenBundle.ts: HeaderGen.Includes scans for includes and resolves
--                 paths, HeaderGen.Roots gathers the types to start from, HeaderGen.Walks has
--                 `walkType` and `walkIncludes`, and HeaderGen the bundle with its review.
-- Client          src/llm/client.ts: Client.Values has JSON values and exceptions, Client.Http requests
--                 and errors, Client.Reply `parseChatResponse`, Client.Events `eventsFromChunk`, and
--                 Client the calls. The network is a parameter, the response with its chunks and
--                 whether the signals are aborted, and so are `JSON.parse` and `JSON.stringify`.
-- Digest          src/llm/digest.ts, with `crossAppEdges` of src/llm/tools.ts as Digest.Edges: Digest.Rows
--                 has the parts of an analysis and their lines, Digest.Sections the tiers,
--                 Digest.Budget what is shown and what is omitted, and Digest `buildDigest`. The
--                 rounds that trim the notice are counted down from the number of its omissions.
-- Preprocessor    src/analyzer/preprocessor.ts: the loop over the lines with its stack of open blocks.
-- Graph           src/utils/buildGraph.ts: the nodes and edges of `buildGraph`, with `edgeMap` and
--                 `dropped` as the state of the loop that collapses pairs; no positions.
-- AppGraph        src/utils/buildAppGraph.ts: AppGraph.Senders is `msgMap`, AppGraph.Routes `edgeMap`, with
--                 the pairs of its loops as a list, AppGraph.Pairs the collapsing, and AppGraph the
--                 nodes and the result; no positions. The interfaces in its edges are never those
--                 that it marks as incomplete, as their messages have two sides.
-- References      src/utils/findReferences.ts, with the search of a word written out.
-- Ingest          src/analyzer/fileIngestion.ts and src/analyzer/fileClassifier.ts, with the decoders
--                 as parameters.
--
-- How they interact: the registry feeds the analyzer with files; the pack value that Pack finds for a
-- struct is a field of the struct in Types, which the layout engine reads; Composition reads the
-- catalog of the layout engine and the report of Roles; HeaderGen searches the sources by References;
-- Digest renders what Composition, Roles, Layout, HeaderGen and the registry report. AppGraph collapses
-- pairs of edges in the way that Graph does; AppGraph.Erasing compares the two.
-- Client feeds the parser of Sse and turns its payloads into events; the server of Ask is a parameter,
-- for which the calls of Client stand in the program.
--
-- Not modelled: `readTextChunks` and all other input and output; the syntax trees of tree-sitter and
-- the passes that walk them; the registries of patterns and the passes that match the regular
-- expressions of the user; the executors of the tools, the diagnostics and the table of suggestions;
-- the user interface. `Number(text)` is exact where the program rounds to
-- a double, and numbers above 2 ^ 53 are exact too. `toLowerCase` is modelled for ASCII letters. The
-- object tables of the layout engine are maps of their own entries: a type named like a member of
-- Object.prototype (`constructor`, `__proto__`) is out of the model. `variants` and `conflictsWith`
-- of a struct, and the defines of a dictionary, are left out.
pub mod Prelude
pub mod Types
pub mod Sse
pub mod Registry
pub mod Pack
pub mod Layout
pub mod Ask
pub mod Graph
pub mod Roles
pub mod Walk
pub mod Composition
pub mod HeaderGen
pub mod Client
pub mod Digest
pub mod Preprocessor
pub mod AppGraph
pub mod Ingest
pub mod References
