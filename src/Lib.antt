-- ===== src/Lib.antt =====
-- The Transit Connection Generator (tcg) collects metrics and events of monitored resources and sends
-- them to GroundWork servers. A connector calls the transit service, which hands payloads to the
-- batchers; a batcher's handler publishes to a NATS stream, and the dispatcher reads the stream and
-- calls the clients, with retries. The agent service starts and stops these parts by the handlers of
-- one task queue.
--
-- Files and code:
-- - Common and its children: the shared names, lists, Go's integers, panics as values and maps.
-- - Transit: sdk/transit. Transit.Value has NewTypedValue of transit.go, Transit.Status has
--   CalculateStatus and CalculateServiceStatus, Transit.Monitored the resources, services and groups
--   of inventory.go and monitored.go, and Transit.Events the events of events.go.
-- - Batcher: batcher/batcher.go. Batcher.append and Batcher.swap are the locked sections of Add and
--   Batch; Batcher.Critical runs sections in any order, as goroutines may.
-- - Batcher.Events and Batcher.Metrics: the builders in batcher/events/events.go and
--   batcher/metrics/metrics.go. Batcher.Metrics has hasStatus and xxl2qq, Batcher.Metrics.Groups has
--   packGroups, and Batcher.Metrics.Collect has Build.
-- - Taskqueue: taskqueue/taskqueue.go. Taskqueue.prepare is what PushAsync does before its lock and
--   Taskqueue.commit what it does under the lock; receive and finish are the worker's moves.
-- - Dispatcher: nats/dispatcher.go. process_msg is processMsg, and fetch_round one round of fetch.
-- - Nats: nats/nats.go. Nats.State is `state` with the dispatcher's own fields, Nats.Env what the
--   server, the client library and the file system answer, and Nats.Stream has defineStream.
--   Nats.Reachable has the calls and the moves of the loops as steps of a relation; a loop whose context
--   is done runs on until it sees that.
-- - Agent: services/agent.go, with makeSubscriptions of services/nats.go. Agent.handle is hTask, and
--   each handler has the name of its method; the batchers and the state of Nats are parts of its state.
--   Agent.Put has Put2Nats of services/nats.go.
-- - Agent.Demand: DemandConfig of services/agent.go, with what DalekServices and the listener answer as
--   an argument.
-- - Clients: sdk/clients. Clients and Clients.Requests have gwClient.go, Clients.Reload dsClient.go,
--   Clients.Errors sdk/errors/errors.go, and Clients.Delivery adaptClient and makeDurable's handler of
--   services/nats.go. What the server answers is the argument `Answers`, and the codec of a login one too.
-- - TransitService: services/transit.go. TransitService.Context has the tracer context of
--   services/agent.go, and TransitService.Ext has SyncExt with filterExtInfo.
-- - Connectors: connectors/connectors.go in Connectors.Metric, Connectors.Service, Connectors.Text,
--   Connectors.Build, Connectors.Synthetic and Connectors.Send; connectors/groundworkFunctions.go in
--   Connectors.Functions and Connectors.Expression. The printing of numbers, the arithmetic of floats
--   and the package gval are arguments.
-- - Controller: services/controller.go. Controller has checkAccess, with the hash, the cache of
--   credentials and the clients as arguments, and Controller.Routes the handlers of the API, over the
--   operations of TransitService and the queue of Taskqueue.
-- - Config: config/config.go. Config.Load has GetConfig and LoadConnectorDTO, and Config.Logs initLogger;
--   files, JSON, YAML and the environment's variables are arguments.
-- - Logger: logzer. Logger has LogBuffer, Logger.File the log file and its rotation, and Logger.Writers
--   the other writers, NewLoggerWriter and the levels of slog.
-- - Nsca: connectors/nsca/parser/parser.go. The regular expressions and strconv are arguments; the bodies
--   that the formats share are written once, with the expression and the time of a line as arguments.
-- - Elastic: connectors/elastic. Elastic has the state of model.go, Elastic.Hosts where its hosts come from,
--   Elastic.Collect the collection of elastic.go and the tick of cmd.go, Elastic.Resources what is sent
--   and Elastic.Setup the configuration. What the servers answer is the argument `Es` and `GwAnswers`.
-- - Mapping: sdk/mapping/mapping.go.
-- - Envelope: the payload types and the first message format of services/services.go.
--
-- Conventions: a Go panic is the value `panics`; errors are values; a nil pointer is none. Sizes and
-- counters are natural numbers, except where the code's width matters: the task index wraps at 256,
-- and int64 of an unsigned number wraps at 2 ^ 64. Floats are bit patterns, with the comparisons and
-- conversions of the machine as the parameter FloatOps. The JSON codec is a parameter, as is the order
-- in which Go yields the entries of a map. The fuel of Batcher.Events.split_loop is one round more
-- than there are events, which is enough because each round passes at least one; a number's decimal
-- text has at most one digit more than the number; Agent.Demand.poll takes its rounds from the number
-- of answers before a good one. Connectors.Expression.evaluate runs on any fuel, since the code's own
-- recursion need not end.
--
-- Not modelled: what is logged, spans, exported files and statistics, HTTP itself, the NATS libraries, the
-- other connectors, which read outside systems, the C bindings and the deprecated packages. They are input and
-- output, libraries, or glue. Of the modelled files these are left out: the queries of gwClient.go for
-- hosts and groups, those of the clients of Elasticsearch and Kibana and the headers it merges from a context, Start, StartPeriodic and UnmarshalConfig of
-- connectors.go, and the start of the agent service. filterExtInfo is modelled on properties with
-- distinct names, as a Go map has, and the durations of the texts are divided exactly.
pub mod Common
pub mod Transit
pub mod Mapping
pub mod Batcher
pub mod Taskqueue
pub mod Nats
pub mod Dispatcher
pub mod Envelope
pub mod Agent
pub mod Clients
pub mod Config
pub mod Connectors
pub mod Controller
pub mod Elastic
pub mod Logger
pub mod Nsca
pub mod TransitService
