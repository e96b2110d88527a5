-- ===== src/Dag/Task/Results.antt =====
-- shutils/dag/task.py: what the classes of tasks make of what their functions give. A context is a
-- number, and the wrapper of a context is the context.
use shutilspy.Common.{
  ℕ, ◌⊎◌, inl, inr, Bool, true, false, List, [], ◌∷◌, ◌++◌, if◌then◌else◌, is_empty,
}

-- A context, a list of them, or `None`.
pub data Result : Type 0 where
  one : ℕ → Result
  many : List ℕ → Result
  nothing : Result

-- `call` of the function tasks, and of `AsyncServiceTask` once its future is done.
unfoldable pub function_call : Result → List ℕ
function_call (one c) = c ∷ []
function_call (many cs) = cs
function_call nothing = []

-- What a generator does with `send`: it yields, or it is exhausted.
pub data Sent : Type 0 where
  yielded : Result → Sent
  exhausted : Sent

-- `call` of `SyncStreamTask` and `AsyncStreamTask`.
unfoldable pub stream_call : Sent → List ℕ
unfolding function_call
stream_call (yielded r) = function_call r
stream_call exhausted = []

-- `call` of `SyncThreadTask`: a single context is the one that was sent in.
unfoldable pub thread_call : ℕ → Result → List ℕ
thread_call ctx (one c) = ctx ∷ []
thread_call ctx (many cs) = cs
thread_call ctx nothing = []

-- `call` of `SyncLoopTask` and `AsyncLoopTask` for a context that is a `LoopContext` or not: the
-- contexts, and whether the context is destroyed. `fresh` is a new `LoopContext`.
unfoldable pub loop_call : Bool → ℕ → ℕ → Sent → List ℕ × Bool
unfolding stream_call
loop_call is_loop ctx fresh sent =
    let ret = stream_call sent in
    if is_empty ret then (ret, is_loop) else (ret ++ (if is_loop then ctx else fresh) ∷ [], false)

-- `call` of `ProcessTask`, for data of type `D`: the data that the context is given, or the data of
-- new contexts, after which it is destroyed.
pub data Process (D : Type 0) : Type 0 where
  updated : D → Process D
  created : List D → Process D
  no_pool : Process D

unfoldable pub process_call : {D : Type 0} → Bool → D ⊎ List D → Process D
process_call false r = no_pool
process_call true (inl d) = updated d
process_call true (inr ds) = created ds

-- `call` of `SinkNode` for a context that is an `OutputContext` or not: the output, and whether the
-- context is destroyed, with its parent if it was the last child.
unfoldable pub sink_call : Bool → ℕ → ℕ → ℕ × Bool
sink_call is_output ctx fresh = if is_output then (ctx, false) else (fresh, true)
