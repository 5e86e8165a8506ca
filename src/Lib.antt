-- ===== src/Lib.antt =====
-- LiNa's core substrate, src/ and include/: a process in which a language model (the voice) speaks
-- through a gate of values, acts through tools that a human approves, and shares a memory pool with
-- other processes (the spokes).
--
-- The parts and their files. A turn streams the voice's tokens through the stream parser, which
-- takes thoughts and tool calls out of the text; a tool call goes to the tool engine; the text that
-- remains goes through the gate, and only then out of the core.
--
-- Prelude, with Prelude.Tests, Lists, Digitwise, Bits, Xor, Decimal, Int: names of the libraries, Boolean tests
--   on numbers, byte strings, the bits of a word, integers.
-- Dragon.Ring: include/dragon_ring.h. The payload is a function from indices to bytes; positions
--   wrap at 2^64 and the payload at its size, as in the source. Dragon.Ring.Queue is the bounded
--   queue of frames that it implements, Memory and Frames say what bytes a queue stands for, Push
--   and Pop are the refinement.
-- Dragon.Map: include/dragon_map.h. Dragon.Hub: src/dragoncache.cpp; the answers of stat, open and
--   mmap are arguments, and the descriptors and mappings that are open are counted. The addresses of
--   the rings are the two fields of `Pool`.
-- Dragon.Carve, with Make and Check: scripts/dragoncache_carve.cpp, which makes the pool that the hub attaches to
--   and pins the models beside it. The answers of the system's calls are arguments, one list of counts for
--   the reads; what is printed, owners and modes are left out. A pool that cannot be removed is carved anew.
-- Text: std::string's find, substr and erase on byte lists, with the split of a text at a pattern in
--   Text.Search. The standard library's functions are defined by what they document.
-- StreamParser: src/stream_parser.cpp. The sweep is recursion on fuel, and the length of the text is
--   enough, since each round takes a block of tags out (StreamParser.Sweep).
-- Tools.Json and Tools.Engine: src/tool_engine.cpp and include/approval_gate.hpp. A tool is a function
--   on the state of the machine, of which the engine knows nothing; the time stamp that names an action
--   is an argument.
-- Tools.Hands: the file tools of src/tool_engine.cpp. The calls of the file system are a parameter, and
--   what streams do on regular files (an opening with `trunc` empties, a write adds the first bytes,
--   how many is not known, a read gives them) are hypotheses of the round trip.
-- Core.Gate: apply_gate of src/lina_core.cpp. The value engine, the comparisons of texts and vectors
--   and the voice are the record `Mind`; vectors are of any type. The three passes are fuel of the
--   source's own.
--
-- Core.Flags: sanitize_frame_text, string_similarity and euclidean_distance of src/lina_core.cpp. The loop of
--   sanitize_frame_text is recursion on fuel, and one more than the length is enough (Core.Flags.Words).
--
-- Core.Turn: run_turn_loop, finalize_turn, execute_tool and chat of src/lina_core.cpp. What the turn
--   emits, stores and logs is one journal in order. The flag that stops a turn is set by another
--   thread: what each reading of it finds is a function of the number of the reading. The loop is
--   recursion on fuel, and nine rounds are enough, since each round but the last counts a tool call.
--   The engine's approver is request_approval, which asks the handler that the stage is given.
--   What the frame says to the model, and the image of a turn, are part of the stage that is given.
--
-- Core.Turn.Window: begin_turn and run_voluntary_turn of src/lina_core.cpp. begin_turn reads the flag of the
--   active turn and sets it later; it is modelled for a core that no window thread interrupts in between.
-- Core.Telemetry: persist_telemetry and telemetry_writer_loop. The mutex makes each operation one step, so that
--   a history is a list of the two sides' steps.
--
-- Memory.Sweep: run_sweep of src/memory_module.cpp over the store of include/memory_module.hpp. A tier
--   is a map from ids to items; what the scans return is given, as are the test on scores, the clock's
--   test of the grace period and the items for which the store throws.
--
-- Memory.Upkeep: route_item, maintenance_delta, apply_monthly, slope_effective and apply_legacy_review
--   of src/memory_module.cpp, and the memory dial of src/value_engine.cpp, over a type of doubles with
--   its operations; Memory.Upkeep.Run has run_maintenance and run_legacy_review, over a store that is a
--   list of rows. The bounds hold for doubles that are numbers, a hypothesis on the comparison.
--
-- Value.Seasons, Value.Facets and Value.Lattice: the seasonal bounds, build_lattice and contains of
--   src/value_engine.cpp with the couplings of include/value_engine.hpp. The rationals are exact; the
--   coordinates of a point are doubles, so they have a common denominator, and a point is its fourteen
--   numerators over that one.
-- Value.Project and Value.Evaluate: project, alignment_score, distance_to_boundary, correct,
--   classify_zone, evaluate and the wisdom filter, over a type of doubles with its operations. The 2000
--   iterations and the 200 nudges are the source's own. The encoder and the regular expressions of the
--   wisdom filter are parameters. The doubles are rounded, so that their centre is inside is a hypothesis.
-- Value.Advance: SeasonAdvancementEvaluator. Value.Growth: season_metrics, check_season_progress,
--   apply_season_advance and the growth loop of src/lina_core.cpp, with what the engine keeps of a
--   season. The clusters of the poles are the texts and the constraints that they were made from.
-- Value.Poles: RegionPoleEngine, the home regions by k-means. The 40 iterations are the source's own; the other
--   loops are over lists.
-- Value.Feedback: EncoderFeedbackSystem, over a type of doubles with its operations. The map of
--   adjustments is the list of its entries in the order of the iteration.
--
-- Browser.Base64, Browser.Sha1, Browser.Handshake and Browser.WebSocket: the codecs of src/browser_driver.cpp,
--   and its `connect`, with what the name service and the sockets answer as arguments. The loop of update
--   takes a byte a round at least, and 64 zeros are enough to fill a block up to 56 bytes. What arrives on the socket
--   within the time allowed is a list of bytes. The loop of receive is recursion on fuel, and one more
--   than the number of bytes is enough, since each round takes two of them (WebSocket.Progress).
--
-- Browser.Commands: the commands of BrowserDriver, over a function that answers a method with its parameters;
--   the browser is connected.
--
-- Not modelled: the desktop UI, the database, the model driver and the start of the browser
-- (I/O and external libraries), the memory orders of atomics (each operation under a mutex is one
-- step), the encoder of the value engine, and the rest of the core and of the memory
-- module.
pub mod Prelude
pub mod Dragon
pub mod Text
pub mod StreamParser
pub mod Tools
pub mod Core
pub mod Memory
pub mod Browser
pub mod Value
