-- ===== src/Lib.antt =====
-- autodeploy-web: a web service that builds customised Veeam appliance ISOs (jobs) and deploys
-- topologies of VMs from them (deployments). This library models its core in Go and proves what
-- makes it correct.
--
-- The parts, and the files that model them:
--
-- Fanout.antt: the log of a job or a deployment and its live subscribers (internal/job/job.go and
-- internal/deploy/deploy.go: AppendLine, emit, Snapshot, Subscribe, closeSubs). Fanout/Races.antt
-- takes the delivery after the unlock apart, for a deployment, whose AppendLine copies the list of
-- subscribers; a job's goes through the array that its cancel functions shift, which is not
-- modelled.
--
-- Config.antt and below: the configuration of an appliance (internal/config/schema.go), its
-- defaults (defaults.go) and Validate (validate.go), with the regular expressions as matchers,
-- net.ParseIP and the IPv4 masks of the standard library.
--
-- Topology.antt: the architectures, New, BuildConfig and Validate (internal/topology/topology.go).
-- A node's configuration is a Config, which the validation of Config then judges.
--
-- Job.antt and below: a job (internal/job/job.go), its rows in the database (store.go), the name of
-- its output, and the manager (manager.go): Job/Manager.antt has the calls and
-- Job/Manager/Steps.antt the worker in its atomic steps; a run is a list of events in any order.
--
-- Deploy.antt and below: the boot command (internal/deploy/bootcmd.go), the structured log lines,
-- the run of a deployment (deploy.go: run, deployNode, resolveNodeIPs, runWireOnly) and its manager
-- (Deploy/Manager.antt: Start, Cancel, Remove, Retry, RetryWire, Delete, pruneCompleted). The
-- hypervisor is not part of the program, and the wirer is a part of its own: Hypervisor in
-- Deploy/Run.antt is an oracle that answers each call from the calls before it. Deploy/Store.antt
-- has the rows of the deployments (internal/deploy/store.go) and loadFromStore, the manager's start
-- from them.
--
-- Wiring.antt and below: the wiring of the deployed appliances (internal/wiring/wiring.go), from
-- Wire down to the steps of one node. Wiring/Program.antt has its language: a Program is the tree
-- of the calls that the code makes on the REST client, the network, the clock and the license file,
-- with a branch for every answer, so that a theorem about a program covers all answers.
-- Wiring/Settings.antt has Config and the options, Retry.antt the loops that wait, Nodes.antt one
-- node, Pool.antt the goroutines of wireVIANodes under every schedule, Advanced.antt object storage
-- and backup copies, Cluster.antt the HA cluster, Topology.antt Wire itself. Wiring/Guarded.antt is
-- a logic of monitors for programs, and Wiring/Calls and below say which calls each function makes;
-- the other files of Wiring/ are the properties that rest on them.
--
-- Veeam.antt and below: the REST client of the appliance (internal/veeam/veeam.go). Veeam.antt has
-- doOnce, rawOnce, Authenticate and reauthenticate over an oracle for the service and for the other
-- goroutines; Veeam/Calls.antt, Veeam/Operations.antt and Veeam/License.antt the operations with
-- their payloads as JSON values, and Veeam/Sessions.antt WaitSession. The wiring's calls stand for
-- these operations; their answers are arbitrary there.
--
-- Form.antt and below: the form of the configuration page (internal/server/form_decode.go).
--
-- Presets.antt and below: the saved configurations and topologies (internal/config/store.go and
-- internal/deploy/presets.go, one code at two types), on the entries of a directory.
-- Config/Settings.antt: the settings file (internal/config/settings.go).
--
-- Auth.antt: session and CSRF tokens (internal/auth/auth.go), the lockout, the password change and
-- the gate (internal/server/auth.go). The keyed hash, the password check and the host that
-- url.Parse reads of an address are parameters.
--
-- Base.antt and below: texts as bytes, signed integers, sorting, decimal numbers, white space, and
-- registries (Go maps keyed by an id) with their pruning, which both managers share.
--
-- Choices: a Go string is the list of its bytes. A Go map is a list of entries with distinct ids;
-- sort.Slice is an insertion sort, and the order of equal keys is that of the list, which stands
-- for the open order of a map. A time is a number of nanoseconds, and the clock's reading is an
-- argument. An int64 column keeps its wrap-around. Three loops run on fuel: the print of a number,
-- whose fuel exceeds its digits, as its round trip shows, the reading of an IPv6 address, whose 8
-- rounds are those of the source's loop over 16 bytes by two, and the leading ones of a byte of a
-- mask, which has 8 bits. That these bounds are enough is in Config/Address/Fuel.antt. The loop
-- that waits for addresses reads a finite list of arrivals and ends as the expiry of its context
-- when the list does. A loop of the wiring or of the REST client that waits takes `rounds`, the
-- number of pauses that end before the deadline, and ends as the code does at its expiry after
-- them. A schedule of goroutines is a list of turns; what is left at its end is run to completion
-- in order, so that every schedule is a complete run. The database and the removal of files answer
-- without an error where the code only logs or ignores theirs; the error that Delete of the
-- deployments returns is an argument. The state of a job is any text, as its column is; that of a
-- deployment is one of the words that the program itself stores. %q is the quoting of printable
-- ASCII, strings.ToLower is applied to ASCII words only, and strings.EqualFold is that of ASCII.
--
-- Not modelled: the providers of hypervisors, HTTP itself and the decoders of JSON, the web
-- handlers and templates, the crafting of kickstart calls, the translations, the texts of log
-- lines, the entry point, and the process that a job runs, whose exit code and error are inputs.
-- The array of nodes that a retried deployment shares with its original is not modelled.
pub mod Base
pub mod Fanout
pub mod Config
pub mod Topology
pub mod Job
pub mod Deploy
pub mod Auth
pub mod Tests
pub mod Form
pub mod Wiring
pub mod Presets
pub mod Veeam
