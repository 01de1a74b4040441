-- ===== src/Lib.antt =====
-- Verification of k8s-athenz-istio-auth.
--
-- The program watches Athenz domains, which say which members of which roles may do what, and keeps
-- Istio's access rules in the cluster in line with them. A domain becomes a model (pkg/athenz), a
-- provider turns the model into Istio resources (pkg/istio/rbac), and a change list against the
-- resources that exist is handed, item by item, to the processor. A second controller
-- (pkg/istio/onboarding) keeps the list of the services for which the rules are enforced.
--
-- Texts are lists of code points, and Go's maps are association lists; no theorem depends on the order in
-- which Go would go through a map. A call that may panic returns an Outcome, and a value with an
-- error a Result, in which the texts of messages are left out. A pointer that may be nil is an
-- Option. What the repository does not hold is a parameter: the keys and the equality of specifications
-- (ConfigApi), the schemas (Collections), the validation of specifications (Validation), the cache
-- of the configurations (ConfigStoreCache) and the store of the informer, a function of the key. All
-- recursion is structural; only the loops of the workers have a number of rounds.
--
-- Prelude: numbers, lists, results, keyed maps, Go's package strings, and the fragment of Go's
-- regular expressions that the program builds.
-- Athenz.Names: pkg/athenz/util.go.
-- Athenz.Zms, Athenz.Trust, Athenz.Model: pkg/athenz/model.go, with the structures it reads.
-- Rbac.Config, Rbac.ChangeList: Item, Equal, ConvertSliceToKeyedMap and ComputeChangeList of
-- pkg/istio/rbac/common/util.go; applying an item is what ApiHandler asks the API server for.
-- Rbac.Components: ComponentEnabled of the same file.
-- Rbac.Member, Rbac.Assertion: its conversions of members, assertions and role names. The regular
-- expression for resources is written out as a scan for the last `:svc`.
-- Rbac.ServiceRole, Rbac.Binding: pkg/istio/rbac/common/servicerole.go and servicerolebinding.go.
-- Rbac.Spec, Rbac.Istio: Istio's structures, and NewConfig.
-- Rbac.V1: pkg/istio/rbac/v1/provider.go.
-- Rbac.Principals, Rbac.V2: pkg/istio/rbac/v2/provider.go, its members and its policies. The
-- regular expressions that assertions hold are a parameter; so is the time.
-- Processor: pkg/istio/processor/controller.go, with the server's answers as a parameter. The count
-- of the rate limiter stands with the item, and run_worker takes a number of rounds, of which four
-- for each new item are enough to empty the queue.
-- Domains: pkg/controller/controller.go, from the events to the change list.
-- Queue: the work queue of client-go, a record of calls with what its documentation says of its counts
-- as hypotheses. Queue.Race: the steps of the two threads that put keys back on such a queue.
-- Domains.Worker, Onboarding.Worker, Policies.Worker: processNextItem and runWorker of the three
-- controllers, and the events that put keys on their queues.
-- Policies: pkg/istio/authorizationpolicy/controller.go. Policies.Handlers: ApiHandler and the choice
-- between it and DryRunHandler, over a store whose calls are a parameter. Policies.Files: that store
-- with the files of dry runs. Rbac.DryRun: how these are written and read, in
-- pkg/istio/rbac/common/util.go, over a file system and a format that are parameters.
-- Onboarding.Services, Onboarding.Sync: pkg/istio/onboarding/controller.go. The object that the store
-- answers to a sync is a parameter of each round; that sync writes into its specification is modelled
-- as the object that it leaves behind, and nothing is assumed of what the store does with it.
-- Log: pkg/log/log.go. Start: main.go, up to the controllers, and in Start.Wiring the handlers that
-- NewController of pkg/controller/controller.go and of the other controllers registers.
-- Tests: tests of the definitions and examples of the theorems.
--
-- Roles and groups of a domain are taken as present, though the structures hold pointers to them; a nil
-- one would be dereferenced.
--
-- Not modelled: what the logging library does with a message, the handling of signals, and the
-- informers, threads and timers of Kubernetes: the methods Run start threads and wait for caches,
-- and a tick of resync is modelled without its timer.
mod Prelude
pub mod Athenz
pub mod Rbac
pub mod Onboarding
pub mod Processor
pub mod Queue
pub mod Log
pub mod Start
pub mod Domains
pub mod Policies
pub mod Tests
