-- ===== src/Lib.antt =====
-- Systemd2MQTT: a daemon that exposes systemd units and a Mutter display to Home Assistant
-- over MQTT. It reads a configuration (internal/config), keeps a supervised D-Bus connection per
-- systemd manager (internal/systemd) and one to the display (internal/display), and runs one event
-- loop (internal/app) that publishes states through an MQTT client (internal/mqtt) under the
-- topics of internal/ha and carries out the commands that arrive there.
--
-- Files and what they model:
--   Base, Base/*: code points as texts, lists, association lists for Go maps, integers.
--   Config/Data, Config/Unit, Config/Query: the types of internal/config/config.go, ObjectID,
--     DisplayName, OffModeValue and the queries UnitByID, UnitsForScope, Scopes.
--   Config/Names: Slugify, sanitizeNodeID, displayName, splitTemplate; its children hold proofs.
--   Config/Load, Config/Expand, Config/Validate: applyDefaults, applyEnv, expand, Validate, Parse.
--   Config/Secrets: ResolvePassword and Redacted.
--   Ha/Topics: internal/ha/topics.go, every builder, Parse, Subscriptions, RetainedTopics.
--   Ha/Discovery: internal/ha/discovery.go, BuildDiscovery. Ha/Polkit: internal/ha/polkit.go, what
--     the rule is made of and what it permits.
--   Mqtt/Match: topicMatches of internal/mqtt/client.go, and the matching rules of MQTT in Spec.
--   Mqtt/Client: the rest of internal/mqtt/client.go, as steps in any order: queue, pump, registry of
--     subscriptions, handlers of connects and losses, Close. Mqtt/Options: New's options and
--     internal/mqtt/tls.go; its child Preflight: preflight of cmd/systemd2mqtt/main.go.
--   Systemd/Unit: internal/systemd/manager.go, and job and isAlreadySubscribed of conn.go.
--   Systemd/Statuses: mapStatuses and resolveAliases of internal/systemd/conn.go.
--   Systemd/Conn: Dial, the watched names of resolveAliases, pump, hint, Query and Close of conn.go.
--   Systemd/Supervisor: internal/systemd/supervisor.go, as events in any order.
--   Display/Mode, Display/Controller: internal/display/mode.go, Set and push of mutter.go.
--   Display/Pump: pump, modeFromVariant and Close of mutter.go, as steps in any order.
--   App/State: internal/app/state.go. App/Model: the fields of App that the loop reads and writes.
--   App/Publish, App/Reconcile, App/Commands: the files of those names in internal/app.
--   App/Template: runJob and runTemplate of internal/app/commands.go, with the select's promise.
--   App/Loop: handle and pollTick of internal/app/app.go. App/Loop/Queue: the event queue, enqueue
--     and bridgeSupervisor around them, as steps in any order; the other children hold proofs.
--   Cmd/Flags, Cmd/Run: cmd/systemd2mqtt/main.go, parseFlags and run with its modes and exit codes.
--   Examples: the results at concrete inputs.
--
-- How the code is read: a Go string is a list of the code points of valid UTF-8. Lower and upper
-- case are exact where the image is ASCII. A byte that is not part of a character reads as U+FFFD,
-- as in Go's own loops: displayName makes such bytes of a first character outside ASCII, which it
-- cuts apart. A map is an association list, a slice that may be nil an option, time a number of
-- nanoseconds with 0 for the zero time, an error a value. A handler of the loop is a function from
-- the loop's state and what it reads of the world (clock, query answers, supervisors, mailboxes) to
-- the new state; what it leaves to timers and goroutines is a list of effects, and what it
-- publishes is a list of messages. url.Parse, the YAML decoder's result and the JSON encoder are
-- parameters, so is strconv.IsPrint, and so are the files that the client reads and the tests of their certificates.
-- systemd's answer to a query by names is a record of laws (Systemd/Statuses/Exact):
-- one entry for each name, in order, under the unit's primary id.
--
-- Bounds and fuel: topicMatches has the filter's length plus two rounds, and each round that goes
-- on shortens the filter; push has one round more than the channel has slots, and each round that
-- goes on empties one. Every other loop is structural. The supervisor's generation is an unsigned
-- number of 64 bits that wraps.
--
-- Not modelled: the calls of the D-Bus library, New and Get of the display, its reconnection by the
-- app, start and shutdown of the app, the fixed lines of the polkit rule's text, the delays and the log of the MQTT connect loop, the default path of the
-- configuration, and the fakes of the tests. Each is input and output, or calls of a library,
-- around the parts above.
pub mod Base
pub mod Cmd
pub mod Config
pub mod Ha
pub mod Mqtt
pub mod Systemd
pub mod Display
pub mod App
pub mod Examples
