-- ===== src/Lib.antt =====
-- shutils: task graphs that run in contexts, the executors, queues and locks beneath, caches,
-- limiters and image sizes.
--
-- A graph (Dag/Graph, shutils/dag/dag.py) is built once; Dag/Graph/Collect has its tables of all
-- tasks below and above and its bypass tasks. Each context (Dag/Contexts, shutils/dag/context.py and
-- runtime.py) carries a task state (Dag/State, shutils/dag/task_state.py) and a board
-- (Dag/WhiteBoard, shutils/dag/data_white_board.py). `_complete` offers the tasks whose upstream is
-- done; Dag/State/Order and Progress run it as a schedule. Contexts and tasks wait in priority queues
-- (Dag/Queue, with Context for shutils/dag/context_queue.py and Task for task_queue.py), which stand
-- on the queue of AioQueue (shutils/dag/lib/aio_queue.py). Limiter is shutils/dag/lib/limiter.py.
--
-- Dag/Task is shutils/dag/task.py: the hooks around a call, which ask Limiter, what each class makes
-- of a result, and the router. Dag/Mask is the masks of shutils/dag/utils.py, with the completion
-- that a context passes on to those above it. Dag/Executor is one turn of a worker of
-- shutils/dag/executor.py (and of task_executor.py, where that differs): the call of a task, its
-- retries and completion, the collection of contexts (Postprocess) and the bypass tasks of a new
-- context (Fresh). SmartLock is shutils/dag/lib/smart_lock.py: metrics, the choice of a way (Route),
-- the mutex on a loop (Loop) and the reader-writer lock (ReadWrite).
--
-- RateLimit is shutils/rate_limiter.py, RwLock is shutils/rwlock.py, Cache is shutils/cache.py and
-- ImageSize is the `get` of shutils/imagesize.py. Common has what all share: tests, lists, sets,
-- tables and integers on the native numbers. Each module's Tests has runs and witnesses.
--
-- Tasks, contexts, threads, futures, digests of keys and services are numbers or values of any
-- type. A lock's critical section is one step; where threads interleave inside one (RwLock,
-- SmartLock/ReadWrite), or coroutines at an await (SmartLock/Loop), the steps are a relation. Time is
-- an argument, and durations are ticks. Floats are exact: Limiter counts parts of a token, and a
-- metric is a fraction. Futures and threads are signals and waiters in AioQueue. What a task's
-- function does is an outcome that the call is given.
--
-- Code outside the repository is a parameter: the storage and `heapq` are interfaces (AioQueue.Stores,
-- Dag.Queue), with instances; `pickle` files are lists of items and their MD5 digest a function;
-- `copy.deepcopy` is a function on values; SVG texts are read by a function.
--
-- Fuel: `destory` needs one more than the contexts alive, `segments` one more than the file's
-- bytes, `numbers` two more, `wrapper` of RateLimit and `acquire_qps` two rounds, `mask_common` as
-- many as there are tasks, `complete` more than the context's number, since parents are older; each
-- has a theorem. The limit of Dag/Graph/Collect is the depth that the interpreter allows a recursion;
-- a graph whose sink ranks below it is looked up. In Dag/Executor/Postprocess other threads may change
-- the contexts between two rounds of a loop over children, whose fuel is the rounds it is given.
--
-- Not modelled: the loops of the workers and their shutdown, the serve executor, the resource pool,
-- parameters, helpers, the visualizer; signals, exit hooks and file errors of the caches; timeouts of
-- blocking calls; `getDPI`; the generators, threads and services behind a task; calls of a `SyncTask`
-- that overlap inside its hooks.
pub mod Common
pub mod Dag
pub mod RateLimit
pub mod RwLock
pub mod SmartLock
pub mod AioQueue
pub mod Cache
pub mod Limiter
pub mod ImageSize
