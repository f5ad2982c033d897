-- ===== src/Lib.antt =====
-- Verification of piceli, a tool that deploys Kubernetes objects.
--
-- The model follows the Python sources. Paths below are from the repository's root.
--
-- Compare/KeyPath.antt and its folder model piceli/k8s/ops/compare/path.py: the elements of a path
-- (PathElem), their equality, the matching with wildcards (match_sequences, wildcard_contains, with
-- their inner helpers), and the text form of a path (Text.antt). The indices of the helpers are the
-- suffixes that begin there; each call shortens one of the two sequences, so the sum of their lengths
-- bounds the depth of the calls.
--
-- Compare/Value.antt models the JSON values of a spec. A dict is the list of its items in order. An
-- int is an integer without bound, and floats are left out.
--
-- Compare/Comparer.antt and its folder model piceli/k8s/ops/compare/object_comparer.py up to
-- compare_values: the tables of paths, the classes of differences and the recursion through dicts and
-- through lists of dicts with an id. A function that can raise returns a Result with the exception.
-- kubernetes.utils.quantity.parse_quantity is no part of the repository, and is the parameter
-- QuantityLib. Python goes through a set of keys in an order of its own; the model takes the order of
-- the dicts. compare_values recurs on fuel that is above the depth of the two values.
--
-- Compare/Action.antt and its folder model the rest of that file's decisions: filter_spec,
-- requires_replacement, determine_update_action and CompareResult. Compare/Patch.antt models
-- patch_document and _is_path_in_desired, where nested dicts are rebuilt instead of changed in place.
--
-- Compare/Sets.antt and its folder model piceli/k8s/ops/compare/compare_op.py, whose dicts are lists in
-- the order of their keys.
--
-- Objects.antt models the identifiers and objects of piceli/k8s/k8s_objects/base.py.
--
-- Deploy/Graph.antt and its folder model the nodes, the dependencies and validate of
-- piceli/k8s/ops/deploy/deployment_graph.py, Deploy/Levels.antt and its folder its traverse_graph. The
-- dict of nodes is a list in order, and a set of identifiers the list of its members. Each call of
-- visit that goes on marks one more node, and each round of traverse_graph takes one node from the
-- queue, which no node enters twice: one more than the number of nodes bounds both.
--
-- Deploy/Strategy.antt and its folder model piceli/k8s/ops/deploy/strategy_auto.py: the table of levels,
-- the classification by kind and the graph in which each object depends on all the objects of the level
-- before its own. A kind without a level is none instead of -1.
--
-- Deploy/Progress.antt models piceli/k8s/ops/deploy/deployment_progress.py, and Deploy/Executor.antt with
-- its folder piceli/k8s/ops/deploy/deployment_executor.py. Deploy/Executor.antt has what a task does
-- between two points at which the code gives way to other tasks: apply_node up to the waits for its
-- dependencies and behind them, rollback_node, _wait_for_node and wait_for_all.
-- Deploy/Executor/Machine.antt has deploy and rollback as a step relation: the tasks of a gather move in
-- any order, one segment at a time; a gather ends when all its tasks have, or with an exception of one of
-- them, and the tasks that are left then go on as orphans beside the rollback. The calls of the managers
-- are the record NodeOps. A node stands for itself by its identifier. Deploy/Op.antt models
-- piceli/k8s/ops/deploy/deploy_op.py. The other files of the folder hold the proofs: Effects and Accounts
-- say what a move writes, Settled, Ends and Outcomes how levels and deployments end, Costs, Termination and
-- Liveness that they end, Waited, WaitedMoves and Dependencies that dependencies are waited for first,
-- Apart, Rolling and Reverted what a rollback leaves.
--
-- Manager.antt and its folder model piceli/k8s/object_manager and the failures of
-- piceli/k8s/exceptions/api_exceptions.py. The client library and its cluster are the parameter
-- ClientLib (Manager/Client.antt), with the decorator of tenacity; a call is a function from the state of
-- the cluster to an outcome and a state, so that a state outlives an exception. Manager/Apply.antt models
-- _apply_node of piceli/k8s/ops/deploy/deployment_executor.py. The loop of replace runs on fuel, a number of
-- reads: where the object is gone at one of the first n reads, n is enough (Removes and Going of
-- Manager/Apply/Serves.antt, which also says what the api is taken to do: Serves). What a cluster makes
-- of a spec that it stores is the relation Stored, a parameter of that file. Manager/Kinds.antt has the kinds of the
-- volumes.
--
-- Manager/Wait.antt and its folder model piceli/k8s/utils/utils_wait.py. The events of a watch are a list,
-- with an HTTPError at its end or not; the watch, the pods of an object and the decorator of tenacity are
-- the parameter WatchLib. Manager/Waits.antt models the wait of each manager and apply, with the parameter
-- SizeLib for parse_quantity and its order; Manager/Unmade.antt says what apply does to volumes.
--
-- Templates.antt and its folder model the parts of piceli/k8s/templates that check, merge or compute:
-- Labels.antt is auxiliary/labels.py, EnvVars.antt auxiliary/env_vars.py, Volume.antt the claims and mounts of
-- deployable/volume.py, Container.antt and its child Spec auxiliary/container.py, Pod.antt auxiliary/pod.py, Account.antt
-- deployable/service_account.py, role.py and role_binding.py, and Replica.antt with its child Objects
-- auxiliary/replica_manager.py, deployable/deployment.py, stateful_set.py, service.py and autoscaler.py.
-- A dict is the list of its items in order (Dict.antt), and a call that may raise is an Outcome, with
-- do blocks (Raise.antt). The objects of the kubernetes client are records of what the code gives them; the
-- equality of two volumes is the parameter ModelLib, and what pydantic does with a None in a field that must
-- have a value is the parameter FieldLib. The decimal text of an index runs on fuel, one step more
-- than the index, which has no more digits than that.
--
-- Base.antt and its folder hold the names, tests and list lemmas that the others share, and
-- the files called Tests.antt run the definitions and apply the theorems at concrete inputs.
--
-- Not modelled: the file system, the command line, the calls of the Kubernetes client and of the
-- Google client libraries, and the legacy libraries.
pub mod Base
pub mod Compare
pub mod Deploy
pub mod Manager
pub mod Objects
pub mod Templates
