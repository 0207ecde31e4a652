-- ===== src/Scheduler/Defs.antt =====
-- The hooks of scheduler/scheduler.c, by clauses on the thread's id where they test it.
use armv7_os.Prelude.{
  ℕ, ℤ, pos, minus_one, inc, dec, is_nonpos, eq_ℤ, Option, some, not, ◌&&◌, ◌||◌, ◌==◌,
  if◌then◌else◌, ◌>>=◌, read_int,
}
use armv7_os.Mmu.{max_processes}
use armv7_os.Process.{
  Kernel, modify_process, assign_thread, process_switch, free_process, process_create,
  get_process_id, reset_thread_process_relation,
}

-- `enum thread_type`.
abbrev pub parent : ℕ
parent = 0

abbrev pub child : ℕ
child = 1

-- process_array[pid].threads_active++ and --.
unfoldable pub count_up : ℤ → Kernel → Option Kernel
unfolding modify_process
count_up pid = modify_process pid (λ p. record p { threads_active = inc p.threads_active })

unfoldable pub count_down : ℤ → Kernel → Option Kernel
unfolding modify_process
count_down pid = modify_process pid (λ p. record p { threads_active = dec p.threads_active })

-- Frees the process of thread `id` if it has no active thread left.
unfoldable pub free_if_done : ℤ → ℤ → Kernel → Option Kernel
unfolding get_process_id free_process
free_if_done id pid k = do
  p ← read_int max_processes k.process_array pid
  let freed = get_process_id id k >>= λ own. free_process own k
  if is_nonpos p.threads_active then freed else some k

unfoldable pub end_thread : ℤ → Kernel → Option Kernel
unfolding count_down free_if_done reset_thread_process_relation
end_thread id k = do
  pid ← get_process_id id k
  k ← count_down pid k
  k ← free_if_done id pid k
  reset_thread_process_relation id k

unfoldable pub scheduler_on_exit : ℤ → Kernel → Option Kernel
unfolding end_thread
scheduler_on_exit id k = if eq_ℤ id minus_one || eq_ℤ id (pos 1) then some k else end_thread id k

-- The branches of `scheduler_on_create` for the two flags.
unfoldable pub create_parent : ((ℕ → ℕ) → ℕ → ℕ) → ℤ → Kernel → Option (ℤ × Kernel)
unfolding count_up
create_parent walk id k = do
  (pid, k) ← process_create walk id k
  k ← count_up pid k
  if eq_ℤ pid minus_one then some (minus_one, k) else some (pos 0, record k { scheduler_pid = pid })

unfoldable pub create_child : ℤ → Kernel → Option (ℤ × Kernel)
unfolding count_up assign_thread
create_child id k = do
  k ← assign_thread id k.scheduler_pid k
  k ← count_up k.scheduler_pid k
  some (pos 0, k)

-- The result is the hook's return value and the new state.
unfoldable pub scheduler_on_create : ((ℕ → ℕ) → ℕ → ℕ) → ℤ → ℕ → Kernel → Option (ℤ × Kernel)
unfolding create_parent create_child
scheduler_on_create walk id flags k =
    if eq_ℤ id minus_one
    then some (pos 0, k)
    else if flags == parent
    then create_parent walk id k
    else if flags == child && not (eq_ℤ k.scheduler_pid minus_one)
    then create_child id k
    else some (pos 0, k)

-- The rest of `scheduler_on_schedule`, once the next thread is known not to be the idle thread.
unfoldable pub switch_between : ℤ → ℤ → Kernel → Option Kernel
unfolding get_process_id process_switch
switch_between old next k = do
  old_pid ← get_process_id old k
  next_pid ← get_process_id next k
  if eq_ℤ old_pid next_pid then some k else process_switch next_pid k

unfoldable pub scheduler_on_schedule : ℤ → ℤ → Kernel → Option Kernel
unfolding switch_between
scheduler_on_schedule old next k = if eq_ℤ next minus_one then some k else switch_between old next k
