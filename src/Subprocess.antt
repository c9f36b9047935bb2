-- ===== src/Subprocess.antt =====
-- EN_Subprocess_Lin.cpp: a child process behind two pipes, and the thread that queues what it prints.
pub mod Output
pub mod Wait
mod Tests
use easy_network.Base.{
  ℕ, zero, suc, ◌+◌, ◌-◌, ◌%◌, ◌^◌, Bool, true, false, not, ◌&&◌, Option, none, some, List, [], ◌∷◌,
  ◌++◌, Bytes, codes, length, take, ltb, ◌==◌, if◌then◌else◌, Run, done, stuck, ◌>>=◌,
}
use easy_network.Net.{RecvResult, got, recv_failed}

-- The members that the methods share; `reader` says whether the thread has been started and not joined.
pub record Subprocess : Type 0 where
  pub messages_queue : List Bytes
  pub data_counter : ℕ
  pub is_process_ended : Bool
  pub reader : Bool

abbrev pub new_subprocess : Subprocess
new_subprocess = record {
  messages_queue = [];
  data_counter = 0;
  is_process_ended = false;
  reader = false;
}

-- What `fork` returns: in the parent, in the child, or an error.
pub data Fork : Type 0 where
  parent : Fork
  child : Fork
  fork_failed : Fork

-- The operating system's calls. `make_pipe` and `wait_readable` say whether they succeed; `run_command` is
-- all that the child does after `fork`, and `end_child` is `waitpid` with the closing of the pipes.
pub record Pipes : Type 1 where
  pub World : Type 0
  pub make_pipe : World → Bool × World
  pub fork : World → Fork × World
  pub close_child_ends : World → World
  pub run_command : Bytes → World → World
  pub wait_readable : World → Bool × World
  pub available : World → ℕ × World
  pub read : ℕ → World → RecvResult × World
  pub write : Bytes → World → World
  pub end_child : World → World

-- `DataCounter.fetch_add(1)` and `fetch_sub(1)` on 64 bits.
abbrev pub fetch_add_one : ℕ → ℕ
fetch_add_one n = (n + 1) % 2 ^ 64

abbrev pub fetch_sub_one : ℕ → ℕ
fetch_sub_one n = (n + 2 ^ 64 - 1) % 2 ^ 64

-- `MessagesQueue.push`, with its counter.
unfoldable pub push_message : Bytes → Subprocess → Subprocess
push_message m p = record p {
  messages_queue = p.messages_queue ++ (m ∷ []);
  data_counter = fetch_add_one p.data_counter;
}

-- The last byte is removed, if it was asked for.
unfoldable pub remove_last : Bool → Bytes → Bytes
remove_last remove res = if remove then take (length res - 1) res else res

-- The front of the queue, removed; `none` where the queue is empty.
unfoldable pub pop_message : Subprocess → Option (Bytes × Subprocess)
pop_message p = elim p.messages_queue [
  | [] ↦ none
  | m ∷ ms ↦ some (m, record p { messages_queue = ms; data_counter = fetch_sub_one p.data_counter })
]

unfoldable pub get_data : Bool → Subprocess → Bytes × Subprocess
get_data remove p = elim (pop_message p) [
  | none ↦ (remove_last remove [], p)
  | some (m, p') ↦ (remove_last remove m, p')
]

pub is_data : Subprocess → Bool
is_data p = ltb 1 p.data_counter

-- One pass from the label `StartWaiting`; `none` where it waits for a notification.
unfoldable pub try_data : Bool → Subprocess → Option (Bytes × Subprocess)
try_data remove p =
    if p.is_process_ended
    then some ([], p)
    else elim (pop_message p) [ none ↦ none | some (m, p') ↦ some (remove_last remove m, p') ]

module _ (os : Pipes) where
  -- One round of the thread; the first component is whether it goes on.
  unfoldable pub read_round : Subprocess → os.World → Bool × Subprocess × os.World
  read_round p w =
      let (readable, w₁) = os.wait_readable w in
      let (n, w₂) = os.available w₁ in
      let (r, w₃) = os.read n w₂ in
      if readable
      then elim r [
        | got [] ↦ (false, record p { is_process_ended = true }, w₃)
        | got (b ∷ bs) ↦
            if length (b ∷ bs) == n then (true, push_message (b ∷ bs) p, w₃) else (false, p, w₃)
        | recv_failed ↦ (false, p, w₃)
      ]
      else (false, p, w₁)

  -- The thread, on fuel for its loop.
  unfoldable pub read_loop : ℕ → Subprocess → os.World → Run (Subprocess × os.World)
  read_loop zero p w = stuck
  read_loop (suc fuel) p w =
      let (more, p', w') = read_round p w in
      let rest = read_loop fuel p' w' in if more then rest else done (p', w')

  -- Rounds of the thread, at most `n`: it stops when a round does not go on.
  unfoldable pub rounds : ℕ → Subprocess → os.World → Bool × Subprocess × os.World
  rounds zero p w = (true, p, w)
  rounds (suc n) p w =
      let (more, p', w') = read_round p w in
      let rest = rounds n p' w' in if more then rest else (false, p', w')

  -- The pass of `WaitData` after which no notification comes.
  unfoldable pub last_pass : Bool → Subprocess → os.World → Run ((Bytes × Subprocess) × os.World)
  last_pass remove p w = elim (try_data remove p) [ some r ↦ done (r, w) | none ↦ stuck ]

  -- `WaitData`. Where it waits it is notified, unlocks `Mtx`, which the thread has to lock for what a round
  -- does, and locks it again: `turns` says for each time that it waits how many rounds the thread ends in
  -- between. It waits for ever when the schedule is over, or when the thread is and it has found nothing.
  unfoldable pub wait_data :
      List ℕ → Bool → Subprocess → os.World → Run ((Bytes × Subprocess) × os.World)
  wait_data [] remove p w = last_pass remove p w
  wait_data (n ∷ turns) remove p w =
      let (more, p', w') = rounds n p w in
      let rest = wait_data turns remove p' w' in
      elim (try_data remove p) [
        | some r ↦ done (r, w)
        | none ↦ if more then rest else last_pass remove p' w'
      ]

  unfoldable pub launch : Bytes → Subprocess → os.World → Subprocess × os.World
  launch programm_name p w =
      let p' = record p { data_counter = 0; is_process_ended = false } in
      let (to_child, w₁) = os.make_pipe w in
      let (from_child, w₂) = os.make_pipe w₁ in
      let (f, w₃) = os.fork w₂ in
      if to_child
      then if from_child
        then elim f [
          | parent ↦ (record p' { reader = true }, os.close_child_ends w₃)
          | child ↦ (p', os.run_command (programm_name ++ codes " 2>&1") w₃)
          | fork_failed ↦ (p', w₃)
        ]
        else (p', w₂)
      else (p', w₁)

  pub send_data : Bytes → Bool → Subprocess → os.World → os.World
  send_data data' is_required_new_line_symbol p w =
      if p.is_process_ended
      then w
      else os.write (if is_required_new_line_symbol then data' ++ (10 ∷ []) else data') w

  -- The thread is joined: it has gone through its loop.
  pub stop_process : ℕ → Bytes → Bool → Subprocess → os.World → Run (Subprocess × os.World)
  stop_process fuel command is_required_new_line_symbol p w = do
    (p', w') ← read_loop fuel p (send_data command is_required_new_line_symbol p w)
    done (record p' { reader = false }, os.end_child w')
