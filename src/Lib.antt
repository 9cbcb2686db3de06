-- ===== src/Lib.antt =====
-- Planning service: a verification library of its job machinery, its resource registry, its IRIS
-- jobs, its visualizer, its race between planning approaches and its graph of configurations.
--
-- A client asks the service for a job: an IRIS build request goes to `QueueRequest` of the
-- manager, which the thread of `Run` polls. A round of `Run` cleans up the jobs that ended, takes
-- the request at the front of the queue and starts it as an asynchronous thread of the job runner.
-- The jobs of the IRIS manager use the Draco planners that the resource registry keeps for each
-- context of the active system. A planner may race several approaches on a thread pool.
--
-- The files and the code they model:
--
-- - Service/Error: planning_service/service/types/error.h and the exceptions of request_queue.h.
-- - Service/RequestQueue: planning_service/service/utils/request_queue.h. Its record is the class,
--   with the queue front first and the set of ids; `has_request`, `enqueue`, `peek_next_request`,
--   `pop_next_request`, `clear`, `is_empty`, `size` are its methods. Fifo and Consistency prove.
-- - Service/JobRunner: planning_service/service/utils/job_runner.h and `future_result_ready` of
--   planning_service/common/misc_utils.h. A job is a future: without a state, running, or ready
--   with the way its thread ended. Bounds and Retrieval prove; there an event of the environment
--   ends a thread.
-- - Service/ResourceManager: planning_service/service/utils/resource_manager.h. The record
--   `Derived` has the virtual methods `StartJobImpl` and `Cleanup` of a derived class. Orderly,
--   Rounds and Drain prove. Overlap has the accesses of calls that overlap, as a relation of
--   steps, and Overlap/Races proves.
-- - Service/Iris: planning_service/service/iris/iris_manager.h and iris_manager.cc. This file has
--   `StartJobImpl` and `Cleanup`, and Class fills the manager's interface with them; Jobs has
--   `BuildRegions` and its three jobs, Roadmap has `UpdateRoadmap` and its parts, over the
--   interface `Planners`.
-- - Service/Registry: planning_service/service/utils/resource_registry.h and resource_registry.cc,
--   with Changes for `RemovePlanContext` and `MigratePlanningArtifacts`, over the interface
--   `Resources` for the file system, planning_service/service/utils/utils.cc and the planners.
--   Start has the constructor, and Sync, Contexts and Effects prove.
-- - Service/Visualizer: planning_service/service/visualization/visualizer_hub.h and
--   visualizer_hub.cc. The file itself has the state and the interface `Meshcats`; Buttons,
--   Frames, Configuration, Loading, Setup and Run have the operations, and Calls the sequences of
--   calls. Buttons/Shown, Frames/Registered, Frames/Toggled, Configuration/Pushes,
--   Loading/Answers, Alive, Calls/Sound and Calls/Loads prove.
-- - Service/Action: code that changes a state and may throw, for the IRIS jobs and the registry,
--   with the loops and handlers they use; Action/Keeps has the rules for invariants.
-- - Comms/Registry and Comms/Iris: the handlers of planning_service/comms/registry_service.cc and
--   iris_service.cc, which call the registry and the IRIS manager; Comms/Status is `grpc::Status`.
-- - Motion/Approaches: planning_service/motion/planning/try_multiple_approaches.h. Invariant,
--   Steps and Outcome prove.
-- - Motion/IkCache: planning_service/motion/planning/ik_cache.h and ik_cache.cc; Seeds has the two
--   searches, Coherent, Direct and Bounds prove.
-- - Comms/Viz and Comms/Streaming: planning_service/comms/viz_service.cc and viz_service.h, over
--   the hub of Service/Visualizer. Viz has the handlers, with Start for StartVisualizer and
--   SetConfiguration; Streaming has the slot that the handlers of streams share, as a relation of
--   steps, and Packets the loop over the packets of one. Viz/Paths, Viz/Objects, Viz/Shown,
--   Viz/Started, Streaming/Slot and Streaming/Packets prove.
-- - Motion/Graph: planning_service/motion/planning/internal/graph.h and graph.cc, over the
--   interface `ConvexSets` for Drake's graph of convex sets and the norms. Search has the A*
--   search, Walks has the edges, walks and answers; Lowest, Relax, Edges, Trace, Shortest and
--   Correct prove the A* search, Components has the strongly connected components, with
--   Components/Split, Components/Steps and Components/Partition, Build and Build/Measured the
--   calls that make a graph.
-- - Prelude: Boolean tests, lists, keys, sets, maps, families of tasks, text and signed numbers.
-- - Service/Examples, Service/ResourceManager/Overlap/Examples, Service/Iris/Examples,
--   Service/Registry/Examples, Service/Visualizer/Examples, Motion/Examples,
--   Motion/IkCache/Examples, Comms/Viz/Examples, Motion/Graph/Examples: the theorems at concrete
--   inputs.
--
-- How the code is read. A method that holds a mutex throughout is one step, and the calls on a
-- manager or a registry follow one another, but in Service/ResourceManager/Overlap, where each
-- access of one is a step; the tasks of `TryMultipleApproaches` interleave in any order, one
-- access to a shared variable at a time. Distances between configurations are natural numbers of
-- some unit, without rounding, or infinite. Sizes and capacities are natural numbers, and the
-- limits given to constructors are signed; hashes are natural numbers, since they are compared and
-- printed only. A standard map or set is a list without repetitions of keys, whose order no
-- theorem reads. Texts of errors are kept, logging and the sleep between rounds are left out. The
-- optional context id of an IRIS request is always there, as planning_service/comms/utils.h makes
-- it. Undefined behaviour is not described: where the read of an empty optional or of a null
-- pointer is met, the model throws or takes an unknown outcome, and what is concluded of such a
-- call says nothing of the program. An exception is one of the classes that a handler tells apart,
-- and it keeps the changes made before it.
--
-- Bounds and fuel. `run_rounds` counts the rounds of the endless loop of `Run`; as many rounds as
-- requests wait are enough to start them all. The loops over samples and problems recur on the
-- number of rounds or the list. The tasks of a race need no fuel: they are a relation on states,
-- whose runs are bounded. The starts of `calc_closest_seed_1step` are counted; each but the last
-- adds a pair of frames that was asked for and missing. Each round of the A* search expands
-- another vertex, so that one round more than there are vertices is enough, and so it is for the
-- way back and for the nested calls of `strongconnect`. `decimal` takes one more round than the
-- number, which its digits never use up.
--
-- Not modelled: the planning, the solver of inverse kinematics, splining and region building,
-- which stand on real arithmetic and on the Drake and OMPL libraries; the artifact builder, which
-- is an interface here; the gRPC handlers of plans and of the status of the visualizer, the waits
-- for a status, and the conversions of messages, whose data are generated; the shapes that the
-- visualization hub draws, the joint limit indicators among them, and a call in the middle of a
-- round of its thread; the page of the Meshcat ports; the norms of configurations and the removal
-- of vertices and edges from their graph; accesses of other threads in the middle of
-- `StartJobImpl` or `Cleanup`, and a failure of `std::async` to start a thread; the web thread of
-- the registry and the parallel load of its constructor; the client libraries.
pub mod Prelude
pub mod Comms
pub mod Motion
pub mod Service
