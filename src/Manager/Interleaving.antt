-- ===== src/Manager/Interleaving.antt =====
-- Coroutines of `ConnectionManager`, in app/connection_manager.py, that run at the same time. No
-- lock is held over an await, so a task is interrupted only where it waits for Redis or for a
-- socket. Here it may be interrupted at its call as well.
use omnimap_sync.Prelude.{
  ℕ, zero, suc, ◌+◌, String, Bool, true, false, List, [], ◌∷◌, ◌++◌, map, is_empty, if◌then◌else◌,
  ◌≡◌, Bool-cases, inl, inr,
}
use omnimap_sync.World.{Socket, Manager}
use omnimap_sync.Manager.{
  has_socket, remove_socket, connections_of, get_user_lock, add_connection, drop_connection,
  cleanup_lock,
}
use omnimap_sync.Manager.Connections.{
  IsConsistent, get_user_lock-IsConsistent, add_connection-IsConsistent,
  drop_connection-IsConsistent, cleanup_lock-IsConsistent,
}
use omnimap_sync.Manager.Coroutines.{contains-get_user_lock}

pub data CallPoint : Type 0 where
  -- `connect`: called, and at the increment of the online counter
  connect_called : String → Socket → CallPoint
  incrementing : CallPoint
  -- `disconnect`: called, and at the decrement, with `should_cleanup`
  disconnect_called : String → Socket → CallPoint
  decrementing : String → Bool → CallPoint
  -- `send_personal_message` or `send_to_user`: called; `send_message_to_socket`: at the send
  send_called : String → CallPoint
  sending : String → Socket → CallPoint

pub record EventLoop : Type 0 where
  pub manager : Manager
  pub tasks : List CallPoint

-- The end of `disconnect`.
unfoldable pub finish_disconnect : String → Bool → Manager → Manager
finish_disconnect user should_cleanup m = if should_cleanup then cleanup_lock user m else m

-- `disconnect` up to its first await, of a socket that is there.
unfoldable pub drop_and_count : Bool → String → Socket → Manager → Manager × List CallPoint
unfolding finish_disconnect
drop_and_count anonymous user ws m =
    let should_cleanup = is_empty (remove_socket (connections_of m user) ws) in
    if anonymous
    then (finish_disconnect user should_cleanup (drop_connection user ws m), [])
    else (drop_connection user ws m, decrementing user should_cleanup ∷ [])

-- A task runs to its next await: the books, and what the task and those that it creates wait for
-- then. `anonymous` is the test for the anonymous user, `taken` whether the socket takes what is sent.
unfoldable pub resume_task : (String → Bool) → Bool → CallPoint → Manager → Manager × List CallPoint
unfolding finish_disconnect drop_and_count
resume_task anonymous taken (connect_called user ws) m = (
  add_connection user ws (get_user_lock user m),
  if anonymous user then [] else incrementing ∷ [],
)
resume_task anonymous taken incrementing m = (m, [])
resume_task anonymous taken (disconnect_called user ws) m =
    if has_socket (connections_of (get_user_lock user m) user) ws
    then drop_and_count (anonymous user) user ws (get_user_lock user m)
    else (get_user_lock user m, [])
resume_task anonymous taken (decrementing user should_cleanup) m =
    (finish_disconnect user should_cleanup m, [])
resume_task anonymous taken (send_called user) m =
    (get_user_lock user m, map (sending user) (connections_of (get_user_lock user m) user))
resume_task anonymous taken (sending user ws) m =
    if taken
    then (record m { messages_sent = m.messages_sent + 1 }, [])
    else (record m { send_errors = m.send_errors + 1 }, disconnect_called user ws ∷ [])

abbrev pub after_task : List CallPoint → Manager × List CallPoint → EventLoop
after_task others (m, next) = record { manager = m; tasks = others ++ next }

-- The task at a place in the list goes on; beyond the list none does.
unfoldable pub step_task :
    (String → Bool) → ℕ → Bool → List CallPoint → List CallPoint → Manager → EventLoop
unfolding resume_task
step_task anonymous i taken before [] m = record { manager = m; tasks = before }
step_task anonymous zero taken before (p ∷ after) m =
    after_task (before ++ after) (resume_task anonymous taken p m)
step_task anonymous (suc i) taken before (p ∷ after) m =
    step_task anonymous i taken (before ++ p ∷ []) after m

-- The event loop picks the tasks in any order.
unfoldable pub run_tasks : (String → Bool) → List (ℕ × Bool) → EventLoop → EventLoop
unfolding step_task
run_tasks anonymous [] s = s
run_tasks anonymous ((i, taken) ∷ schedule) s =
    run_tasks anonymous schedule (step_task anonymous i taken [] s.tasks s.manager)

finish-IsConsistent :
    (user : String) (should_cleanup : Bool) (m : Manager)
    → IsConsistent m
    → IsConsistent (finish_disconnect user should_cleanup m)
unfolding finish_disconnect
finish-IsConsistent user true m h = cleanup_lock-IsConsistent user m h
finish-IsConsistent user false m h = h

module _ (user : String) (ws : Socket) (m : Manager) (h : IsConsistent m) where
  dropped-IsConsistent :
      has_socket (connections_of (get_user_lock user m) user) ws ≡ true
      → IsConsistent (drop_connection user ws (get_user_lock user m))
  dropped-IsConsistent present =
      drop_connection-IsConsistent user ws (get_user_lock user m)
        (get_user_lock-IsConsistent user m h) present (contains-get_user_lock user m)

  drop_and_count-IsConsistent :
      (anonymous : Bool)
      → has_socket (connections_of (get_user_lock user m) user) ws ≡ true
      → IsConsistent (drop_and_count anonymous user ws (get_user_lock user m)).0
  unfolding drop_and_count
  drop_and_count-IsConsistent true present =
      finish-IsConsistent user _ (drop_connection user ws (get_user_lock user m))
        (dropped-IsConsistent present)
  drop_and_count-IsConsistent false present = dropped-IsConsistent present

module _ (anonymous : String → Bool) where
  resume_task-IsConsistent :
      (taken : Bool) (p : CallPoint) (m : Manager)
      → IsConsistent m
      → IsConsistent (resume_task anonymous taken p m).0
  unfolding resume_task
  resume_task-IsConsistent taken (connect_called user ws) m h =
      add_connection-IsConsistent user ws (get_user_lock user m)
        (get_user_lock-IsConsistent user m h) (contains-get_user_lock user m)
  resume_task-IsConsistent taken incrementing m h = h
  resume_task-IsConsistent taken (disconnect_called user ws) m h =
      elim (Bool-cases (has_socket (connections_of (get_user_lock user m) user) ws)) [
        | inl present ↦
            rw present (drop_and_count-IsConsistent user ws m h (anonymous user) present)
        | inr absent ↦ rw absent (get_user_lock-IsConsistent user m h)
      ]
  resume_task-IsConsistent taken (decrementing user c) m h = finish-IsConsistent user c m h
  resume_task-IsConsistent taken (send_called user) m h = get_user_lock-IsConsistent user m h
  resume_task-IsConsistent true (sending user ws) m h = record {
    listed = h.listed;
    active = h.active;
    total = h.total;
    users = h.users;
  }
  resume_task-IsConsistent false (sending user ws) m h = record {
    listed = h.listed;
    active = h.active;
    total = h.total;
    users = h.users;
  }

  step_task-IsConsistent :
      (i : ℕ) (taken : Bool) (before after : List CallPoint) (m : Manager)
      → IsConsistent m
      → IsConsistent (step_task anonymous i taken before after m).manager
  unfolding step_task
  step_task-IsConsistent i taken before [] m h = h
  step_task-IsConsistent zero taken before (p ∷ after) m h = resume_task-IsConsistent taken p m h
  step_task-IsConsistent (suc i) taken before (p ∷ after) m h =
      step_task-IsConsistent i taken (before ++ p ∷ []) after m h

  -- However connects, disconnects and sends of any users interleave at their awaits, and whichever
  -- sockets fail, the connection manager's gauges and locks are consistent with its connections if
  -- they were before: a socket that fails while its endpoint disconnects it too is counted once.
  pub run_tasks-IsConsistent :
      (schedule : List (ℕ × Bool)) (s : EventLoop)
      → IsConsistent s.manager
      → IsConsistent (run_tasks anonymous schedule s).manager
  unfolding run_tasks
  run_tasks-IsConsistent [] s h = h
  run_tasks-IsConsistent ((i, taken) ∷ schedule) s h =
      run_tasks-IsConsistent schedule (step_task anonymous i taken [] s.tasks s.manager)
        (step_task-IsConsistent i taken [] s.tasks s.manager h)
