-- ===== src/Lib.antt =====
-- A verification library for virtrigaud, the operator that manages virtual machines on vSphere,
-- libvirt and Proxmox: the controllers of virtual machines, of snapshots, of adoptions and of migrations between
-- providers, and the resilience, condition and error packages that controllers and providers share.
--
-- The parts and their modules (paths from the root of the repository):
--
-- * internal/controller/vmmigration_controller.go is Migration. Controller is the setting that a
--   reconciler runs in: code changes one object in memory and calls a world; an early return ends
--   it. Controller.Keeps has the rules for invariants of such code, and Controller.Yields those that also
--   say what a step hands on; Controller.Leads is for an invariant that holds up to some step,
--   Controller.Results for the ends and the values alone, and Controller.Runs for the object with them. Migration.Types is the object
--   (api/infra.virtrigaud.io/v1beta1/vmmigration_types.go), Migration.Cluster the interface `Api`
--   to the API server and the providers, and the log `Call` of the calls that change something.
--   Migration.Store has updateStatus, transitionToFailed and the lookups; Migration.Storage the
--   validation and creation of the claim; Migration.Waiting the loops that wait for the providers;
--   Migration.Preparing, Moving, Target, Cleanup and Retry the handlers of the phases;
--   Migration.Deletion is handleDeletion and Migration.Reconcile is Reconcile. A handler keeps the
--   name of the Go method (handleExportingPhase is handle_exporting_phase), and is cut into the
--   branches between its early returns. Migration.Edges has the diagram of the phases.
-- * internal/controller/virtualmachine_controller.go is Vm. Vm.Types has the objects
--   (api/infra.virtrigaud.io/v1beta1), Vm.Contracts what a provider is asked for
--   (internal/providers/contracts), Vm.Cluster the interface and the log of calls. Vm.CloudInit is
--   internal/controller/cloudinit.go, Vm.Request is buildCreateRequest (Class, Image and Networks
--   its parts), Vm.Resources the desired and the current resources and the polling intervals,
--   Vm.Dependencies is getDependencies, Vm.Create has createVM, adjustPowerState and
--   reconfigureVM, Vm.Deletion is handleDeletion with internal/k8s/finalizers.go, Vm.Reconcile is
--   Reconcile and reconcileVM. Vm.Allowed says what a pass may ask of a provider.
-- * internal/controller/vmsnapshot_controller.go is Snapshot: Snapshot.Types, Snapshot.Cluster,
--   Snapshot.Creation (createSnapshot, checkSnapshotCreation), Snapshot.Removal (handleRetention,
--   handleDeletion) and Snapshot.Reconcile; Snapshot.Steps has the diagram of its phases.
-- * internal/controller/vmadoption_controller.go is Adoption: Adoption.Types, Adoption.Names
--   (sanitizeVMName), Adoption.Filter, Adoption.Discovery (discoverUnmanagedVMs), Adoption.Adopting
--   (adoptVM, ensureVMClass) and Adoption.Reconcile; Adoption.Allowed says what a pass may create.
-- * sdk/provider/errors/errors.go is Sdk.Errors; what gRPC documents of its statuses is the record
--   Sdk.Errors.Wire.IsGrpc.
-- * internal/storage is Storage: Storage.Types (storage.go, and the record `Os` of what is asked of the
--   operating system), Storage.Copy the loops of Upload and Download that copy from a reader to a
--   writer, with or without the hasher behind io.MultiWriter (the object in memory is what the hasher
--   was given), Storage.Path is parsePath and Storage.Pvc the operations of pvc.go.
-- * internal/resilience/circuitbreaker.go is Resilience.Breaker (one breaker) and
--   Resilience.Registry (the registry, with the breakers in a heap, since they are shared).
-- * internal/resilience/retry.go is Resilience.Retry.
-- * internal/providers/contracts/errors.go is Errors.
-- * internal/k8s/conditions.go is Conditions.Api, internal/util/k8s/conditions.go is
--   Conditions.Util; the record that both edit is Conditions.Condition.
-- * Common has the names and lemmas that the other modules share.
--
-- How the parts interact: the handlers set conditions through Conditions.Util; the breaker denies
-- a call with an error of Errors, which Retry takes as retryable; a policy of Retry puts each
-- attempt through the breaker. The four controllers are separate programs over the same API
-- server; they meet in the objects that they read. Vm sets conditions through Conditions.Api, Snapshot
-- through Conditions.Util.
--
-- Conventions and bounds. Times and durations are natural numbers of nanoseconds, and configured
-- integers are not negative. The delay between the retries of a migration is the exception: it is
-- computed as a 64-bit pattern that wraps around, and read as signed. `float64` is a parameter of
-- Resilience.Retry. updateStatus has its 3 rounds written out. A loop that waits for a provider
-- has fuel for 62 rounds, more than the 60 polls of 5 seconds in its timeout of 5 minutes.
-- Decimal numerals in messages have up to 64 digits. Code under a mutex is one event, and
-- concurrent use is a sequence of events. A UID is taken to be at least 8 characters long, and
-- the sizes that a provider reports are not negative. The sizes of classes and the limits of Vm are
-- signed integers, with the wrap-around of int32 written out. Names that an error message quotes hold
-- no character that %q escapes.
-- Bytes are numbers, and a reader of Storage is the finite stream of its answers up to the first error;
-- the count of the bytes copied does not wrap around.
--
-- Not modelled: the clock, the context, the API server, the providers and the file system with the
-- path functions and SHA-256 (they are the world and parameters, open to every answer); logging, tracing and the timers of metrics;
-- the wiring in SetupWithManager; the deadline of an export; nil pointers that the API server
-- excludes by its defaults; the edits of finalizer lists in controller-runtime and the status package of
-- gRPC (parameters); the other controllers and the providers.
mod Common
pub mod Conditions
pub mod Controller
pub mod Errors
pub mod Migration
pub mod Resilience
pub mod Sdk
pub mod Snapshot
pub mod Storage
pub mod Adoption
pub mod Vm
