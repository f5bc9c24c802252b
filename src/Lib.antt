-- ===== src/Lib.antt =====
-- CodeScope indexes a source tree into a graph of code and answers questions about it. Its engine
-- (engine/src, C++) parses the files, resolves references to entities and builds evidence from
-- rules; a server (server/src, Rust) starts worker processes that run the engine on a module each.
--
-- The parts, and where they are modelled:
--
--   Sched     engine/src/engine_index_sched.cpp: the pool of cores that the workers share.
--             `grab_step` is one atomic access of the loop in `grab_cores`; a run is a list of the
--             accesses of any number of workers, in any order.
--   Filter    engine/src/filter_policy_ignore.cpp and server/src/scheduler/worker.rs: which files
--             are left out. Filter.Glob is `globImpl`, on the rest of the pattern and the rest of
--             the text; Filter.Ignore is `gitignoreMatches`, Filter.Rules is `loadGitignore` on the
--             text of the file, Filter.Exclude is `loadExcludeEnv` on the value of the variable and
--             the server's `join_exclude_patterns`, which writes that value for the workers.
--   Resolver  engine/src/resolver/factors.h and factors.cpp: Resolver.Factors has the factors that
--             score a candidate, on names, paths and languages; Resolver.Like is `sqliteLikeMatch`,
--             with the two cursors and the last `%` as rests of the texts; Resolver.Fuzzy is
--             fuzzy_resolver.cpp on the rows of the entity table, with its sorted indexes;
--             Resolver.Paths is `relativeImportMatchesFile`, and Resolver.Apply is `applyConstraints`
--             of pipeline_apply.cpp, which scores and ranks the candidates of a reference.
--   Store     engine/src/store/store_graph_csr.cpp: `buildCSR` on the edges in the order of its
--             queries, with its savepoint and its roll-backs. SQLite is a parameter: what its calls
--             return and what they make of its state; Store.Csr.Sqlite says what is relied on.
--   Graph     engine/src/ir/semantic_unit.cpp and engine/src/graph/graph_builder.cpp: Graph.Unit is
--             the list of a file's records with its index; Graph.Builder is the state of the
--             builder with `addGraphNode`, `addGraphEdge` and `findContainingFunction`;
--             Graph.Symbols, Graph.Calls and Graph.TypeEdges are the graphs built of a unit.
--   Impact    engine/src/query/impact_analysis.cpp: the list of modified files and the search from
--             their entities, with its two maps and its stack. The neighbours of a node, which the
--             store answers, are a function.
--   Lsp       engine/src/lsp/lsp_framing.h: messages of a language server in a buffer. A buffer is
--             an argument, and what is left of it a part of the result.
--   Json      engine/src/util/json_writer.cpp and the parser in engine/src/evidence/rule.cpp.
--             Json.Writer has `JsonWriter`'s state and a function for every operation; Json.Builder
--             says what a sequence of calls means, with no text and no flags; Json.Envelope is
--             `errorEnvelope` and `okFalseEnvelope`; Json.Reader is `JsonParser`, a result being a
--             value with the rest of the text, or an error.
--   Evidence  engine/src/evidence/rule.cpp and rule.h: `parseRuleFile` on the parser's values, and
--             the loop of `loadFromDirectory` over the texts of the files.
--   Prelude   what the parts share: the library's names, Boolean tests on numbers, lists.
--
-- A `std::string` is the list of its bytes, a vector is a list, and a failing operation gives an
-- option or a result. The numbers of JSON (`double`) and `int` are parameters, and so are the
-- functions between them and texts: what is asked of them is that a text written is read back. The
-- doubles of the scores are a parameter with their operations; what is asked of them, where a theorem
-- says so, is that they are compared as numbers are. The files' contents and the environment are
-- arguments.
--
-- Bounds and fuel. The nesting depth of the parser is 64, as in the source, and the recursion is on
-- what is left of it; the loops of the parser have one round more than the text has bytes, as every
-- round takes a byte. The loop of `sqliteLikeMatch` has (n + 1) * (m + 1) rounds for texts of n and m
-- bytes: a round shortens what is left of the pattern, or moves the text's place for the last `%` on.
-- `globImpl` recurs on the pattern, with what is left of the eight levels for `**` as an argument.
-- The walk to a containing record has a round for each entry of the unit's index and one more, as it
-- visits no id twice. Ids are counted in 64 bits, with the wrap-around written out.
-- The loop over the modified files has a round more than the text has bytes. The search has eight
-- rounds for each node, one for each modified node and one more.
-- The ids in the call graph's tables are below 2^63, so that none is negative as an `int64_t`.
-- The pool of cores is a `uint32_t`, whose wrap-around is written out.
--
-- Not modelled: the rest of the store (SQL), the parsers of the languages, the threads and processes
-- that drive the index, the processes of language servers, the FFI glue, and the third-party code.
pub mod Prelude
pub mod Evidence
pub mod Filter
pub mod Graph
pub mod Impact
pub mod Json
pub mod Lsp
pub mod Resolver
pub mod Sched
pub mod Store
