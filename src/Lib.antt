-- ===== src/Lib.antt =====
-- Verification of soperator, the Kubernetes operator for Slurm clusters.
--
-- Layout. Prelude passes on the library names and its children: Boolean tests, key equality and
-- order, int32 values, Go maps and sets as lists of entries, sorting. Exec has the Go errors and the
-- actions that call an API, and Text the text functions of Go's standard library. Every other module
-- at the top models one part of the program.
--
-- PowerManager (cmd/powermanager/main.go) is the program that slurmctld calls to power nodes on and
-- off. PowerManager/NodeList is parseNodeList with its helpers, PowerManager/ActiveNodes the update of
-- NodeSetPowerState.Spec.ActiveNodes and the status test, PowerManager/Action the commands
-- (runPowerAction, waitForNodes, updateNodeSetPowerState, checkNodesStatus). It meets the NodeSet
-- controller through the NodeSetPowerState objects.
--
-- Conventions. A Go string is the list of its bytes where the code walks it. A map or set is a list
-- of entries whose order stands for the order of a range loop, so a theorem for all lists holds for
-- every iteration order. The Kubernetes client and RetryOnConflict are parameters (records of
-- actions); where a theorem needs their documented behaviour, it is a named hypothesis, and a witness
-- instantiates it. Logging is left out. The wait loop recurs on the number of ticks that come before
-- the deadline; the source has no other bound.
--
-- Rebooter (internal/rebooter/reconcile.go) drains and reboots one Kubernetes node when its conditions
-- ask for that. Rebooter has the tests and changes of a node, Rebooter/Reconcile the calls in the
-- order of Reconcile, GetActions, DrainNodeIfNeeded and their helpers, Rebooter/Reconcile/Api what the
-- theorems assume of the API. K8s has the node objects that the controllers share.
--
-- Topology (internal/controller/topologyconfcontroller) is the topology that Slurm is told.
-- Topology/Labels reads the tier labels and the fabrics (labelsToPath, fabricOf, unknownSwitchName),
-- Topology/Graph is BuildTopologyGraph and attachFabricRoots, Topology/Blocks is BuildTopologyBlocks,
-- Topology/SwitchName is slurmSafeSwitchName. The rendering of the lines and the reconcilers that
-- collect the labels are not modelled.
--
-- SoperatorChecks (internal/controller/soperatorchecks, internal/slurmapi/node.go) keeps Slurm nodes
-- and Kubernetes nodes in step. SoperatorChecks has the objects and the clients,
-- SoperatorChecks/Conditions is setK8SNodeCondition, SoperatorChecks/Drain the calls that drain
-- (drainSlurmNodesWithConditionUpdate and its helpers), SoperatorChecks/Maintenance the decisions of
-- processMaintenance and processKillTaskFailed, SoperatorChecks/Degraded findDegradedNodes,
-- SoperatorChecks/Unhealthy processSetUnhealthy, SoperatorChecks/NodeDrain processDrainCondition of
-- k8s_nodes_controller.go with the answer of the label matcher as an argument,
-- SoperatorChecks/NodeReconcile its Reconcile with the reboot and the deletion of nodes that are not
-- ready. The parser of the health check reasons and the paging
-- of the node list are not modelled.
--
-- RollingUpdate (internal/controller/updatecontroller/statefulset_controller.go) replaces the pods of
-- a worker StatefulSet. RollingUpdate has the objects and the clients, RollingUpdate/Decision the tests
-- of a pod and its node with decideWorkerUpdateAction and rebootBudget, RollingUpdate/Process
-- processRollingUpdate, RollingUpdate/Reconcile the rest of Reconcile and the cleanup of drains.
-- RollingUpdate/Guards says when each call may be made. Replica counts are not negative.
--
-- Exporter (internal/exporter, internal/slurmapi/tres.go) is the metrics exporter. Exporter/Nodes has
-- the tests of a node and what they do to the counters and histograms, Exporter/Collector the commits
-- of the four refreshes, Exporter/Inflight asyncSubCollector with the ticks and ends of runs as a step
-- relation, Exporter/Tres the parser of trackable resources. What is observed is a log, and a GPU
-- second is kept as its two factors. The gauges of Collect, the Kubernetes topology source and the
-- self-monitoring are not modelled.
--
-- Hostlist (internal/utils/slurm/pattern) collects names into hostlist patterns: Hostlist has the
-- helpers of helpers.go, renderSuffixGroup with its ranges and dashedPrefix, and Hostlist/Merge has
-- Merge and MergePrefixed. Every iteration over a map is sorted after it, so the map is a list.
--
-- JailedConfig (internal/controller/sconfigcontroller) writes config files into the shared root of a
-- cluster and makes Slurm read them. JailedConfig/Batch is ReplacedFilesBatch, JailedConfig/Batched a
-- reconcile with a batch and its deferred cleanup, JailedConfig/Payload makePayload and the check of
-- the paths, JailedConfig/Status the conditions, JailedConfig/Reconfigure reconfigureCluster with its
-- wait, JailedConfig/Reconcile reconcileIndividual, and JailedConfig/Reconcile/Aggregated
-- reconcileWithAggregation and the choice in Reconcile. The file system is a parameter:
-- JailedConfig/Batch/Laws says what the theorems assume of it, among this that it supports the
-- exchange of files, and JailedConfig/Tests/Memory is a file system that meets these laws.
-- JailedConfig/Rename has renameExchange and renameNoReplace of fs_linux.go over the system calls,
-- with what they do on a file system that does not support an exchange. The wait recurs on the number
-- of intervals before the deadline. The checks of the paths in fs.go, the paths with empty or dot
-- segments that filepath.Dir cleans, and the index from ConfigMaps to JailedConfigs are not modelled.
--
-- ActiveChecks (internal/controller/soperatorchecks/activecheck_jobs_controller.go,
-- internal/slurmapi/job.go) follows the jobs of active checks. ActiveChecks has the objects, the
-- clients and the two status functions, ActiveChecks/React executeReactions with its helpers,
-- ActiveChecks/NodeNames parseNodeList, ActiveChecks/Rounds the loops over the Slurm jobs in
-- Reconcile, ActiveChecks/Annotations the annotations of the Job, ActiveChecks/Reconcile the rest of
-- Reconcile. Numbers have no bound and the final state time is read without a sign. The creation of
-- the CronJobs and the transition times are not modelled.
pub mod ActiveChecks
pub mod Exec
pub mod Exporter
pub mod Hostlist
pub mod JailedConfig
pub mod K8s
pub mod PowerManager
pub mod Prelude
pub mod Rebooter
pub mod RollingUpdate
pub mod SoperatorChecks
pub mod Text
pub mod Topology
