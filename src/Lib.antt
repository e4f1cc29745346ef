-- ===== src/Lib.antt =====
-- tuti-server answers the app for photographed maths problems. A Go process serves JSON over HTTP: a
-- photo is uploaded, a Snap & Solve session leads it through a choice of the student to an analysis by a
-- language model, and lessons and practice problems come from a catalog in the program.
--
-- The parts, and the files that model them:
--   Session            internal/session/session.go: SnapStore and SolveStore, two maps of sessions in memory
--                      that write through to a durable store, which is an interface (Store). NewSnapStore and
--                      NewSolveStore read it back (rehydrate). A method is a function from the state to a
--                      result and a state (M of Errors); a failure keeps the changes made before it.
--   Filestore, Os      internal/session/filestore: the durable store, one file for each record. Os is the part
--                      of package os that the stores call, with its documented behaviour as laws (IsOs), and
--                      Os/Paths is filepath.Join with its cleaning: an id with a separator may name a file of
--                      another record, so the contract of Store is stated for names.
--   Storage            internal/storage and internal/storage/localfs: captures, bytes on disk and metadata in
--                      memory.
--   Analysis           internal/analysis: Draft is draft.go, Provider the two backends over the clients of
--                      their SDKs, Analyzer is analysis.go with devlog.go and id.go.
--   Catalog            internal/catalog: Blocks, Bank (problems.go), Lessons and Topics, one definition for each
--                      builder, lesson and table.
--   Http               internal/httpapi: Http is proto.go, Server the state, and Captures, Snap, Analyze, Lessons
--                      and Routes the handlers. A handler is a function from the request's body and the server
--                      to a response and the server (H); it stops where the source writes and returns.
--   Client             tuti-tui/internal/api: Client is client.go up to call, with history.go; Json is pretty.go,
--                      Wire types.go, and Rpc the methods of the calls. A network is any type with the
--                      operations of Net.
--   Terminal           tuti-tui/internal/tui: Commands is commandspec.go, Model model.go, Run and Exec commands.go
--                      (a closure is the data that it captures, a Call, and Exec what it does), Panel and
--                      View view.go, and Update, Form and Keys update.go. Widgets is what it
--                      takes from bubbles and lipgloss. System is the program with its client and the commands
--                      that run beside it, as a step relation.
--   Config, Startup    internal/config/config.go, and cmd/server/main.go up to ListenAndServe.
--   Proto              the messages of internal/genproto that these parts build.
--   Base, Errors, Dict what the parts share: texts, numbers and lists, Go's errors, and Go's maps.
--   Tests              runs, and each theorem at a concrete input.
--
-- The terminal program calls the server over the network only; Startup builds the state of Http from Config,
-- Filestore, Session and Storage.
--
-- The handlers call SnapStore, SolveStore, the capture store, the analyzer and the catalog; the two session
-- stores share one durable store, which the server's state holds once.
--
-- What is taken from outside is an argument: the durable store, the disk, encoding/json and protojson (their
-- round trip is a hypothesis where it is used), the SDK clients, the network and the
-- widgets of the terminal, random bytes, the time, unicode.ToLower
-- beyond ASCII and http.DetectContentType. A method that runs under a mutex is one step, and so is SnapStore.Init
-- here, which writes to the durable store before it takes the mutex. Numbers are natural numbers, and a
-- time counts from a fixed start. The numbers with decimal places of the catalog are integers in
-- ten-thousandths; the one loop on fuel is Catalog.Blocks.sample, where the fuel is the number of points.
-- A map's entries are ordered by their first assignment where Go leaves the order open; the sort of List is
-- an insertion sort.
--
-- In the terminal program a panic is none, and the log of results and the panel hold bytes, as Go's strings
-- do. A key that the widgets read goes to an operation of Widgets, of which only IsMenu is assumed: the selected
-- item of the list is one of its items. Sizes of the window are natural numbers, and a difference of them stops
-- at 0 where the source then takes a minimum.
--
-- Not modelled: the tracing, listening and shutting down in cmd/server, generated code, the prompts' and
-- schemas' texts, headers and the recovery from panics, latencies and the text of log entries.
pub mod Base
pub mod Errors
pub mod Dict
pub mod Session
pub mod Os
pub mod Filestore
pub mod Storage
pub mod Proto
pub mod Analysis
pub mod Catalog
pub mod Http
pub mod Client
pub mod Terminal
pub mod Config
pub mod Startup
pub mod Tests
