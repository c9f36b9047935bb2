-- ===== src/Subprocess/Output.antt =====
-- What a child prints, and what the methods make of it.
use easy_network.Base.{
  ℕ, zero, suc, ◌+◌, ◌%◌, ◌^◌, ◌≤◌, ◌<◌, ◌≡◌, refl, ap, Bool, true, false, some, List, [], ◌∷◌,
  ◌++◌, append_assoc, append-nil, map, arith, Bytes, length, ◌==◌, All, done,
}
use easy_network.Net.{got}
use easy_network.Subprocess.{
  Subprocess, Pipes, push_message, remove_last, pop_message, get_data, try_data, read_round,
  read_loop, last_pass, wait_data, fetch_add_one, fetch_sub_one,
}

-- What the manual pages say of the pipe from the child: `printed` are the pieces that it will hold, one for each
-- time that it becomes readable, before the child closes it.
pub record IsOutput (os : Pipes) : Type 0 where
  pub printed : os.World → List Bytes
  pub readable : (w : os.World) → (os.wait_readable w).0 ≡ true
  pub read_next :
      (w : os.World) (m : Bytes) (ms : List Bytes)
      → printed w ≡ m ∷ ms
      → let (n, w') = os.available (os.wait_readable w).1 in
        (n ≡ length m) × ((os.read n w').0 ≡ got m) × (printed (os.read n w').1 ≡ ms)
  pub read_end :
      (w : os.World)
      → printed w ≡ []
      → let (n, w') = os.available (os.wait_readable w).1 in
        ((os.read n w').0 ≡ got []) × (printed (os.read n w').1 ≡ [])

-- The calls of `GetData`, as many as there are messages.
abbrev pub get_each : ℕ → Bool → Subprocess → List Bytes × Subprocess
get_each zero remove p = ([], p)
get_each (suc n) remove p =
    let (m, p') = get_data remove p in let (ms, p'') = get_each n remove p' in (m ∷ ms, p'')

get_each-queue :
    (remove : Bool) (ms : List Bytes) (p : Subprocess)
    → p.messages_queue ≡ ms
    → ((get_each (length ms) remove p).0 ≡ map (remove_last remove) ms)
      × ((get_each (length ms) remove p).1.messages_queue ≡ [])
unfolding get_data pop_message
get_each-queue remove [] p e = (refl, e)
get_each-queue remove (m ∷ ms) p e =
    let p' : Subprocess = record p {
      messages_queue = ms;
      data_counter = fetch_sub_one p.data_counter;
    } in
    let now : get_data remove p ≡ (remove_last remove m, p') = rw (get_data, pop_message, e) refl in
    let (q, r) = get_each-queue remove ms p' refl in rw (get_each, now, q) (refl, r)

-- `WaitData` where its first pass has a result: it does not wait.
pub wait_data-now :
    (os : Pipes) (turns : List ℕ) (remove : Bool) (p p' : Subprocess) (res : Bytes) (w : os.World)
    → try_data remove p ≡ some (res, p')
    → wait_data os turns remove p w ≡ done ((res, p'), w)
unfolding wait_data last_pass
wait_data-now os [] remove p p' res w e = rw (wait_data, last_pass, e) refl
wait_data-now os (n ∷ turns) remove p p' res w e = rw (wait_data, e) refl

module _ (os : Pipes) (output : IsOutput os) where
  open output use {printed, readable, read_next, read_end}

  pub read_round-next :
      (m : Bytes) (ms : List Bytes) (p : Subprocess) (w : os.World)
      → 1 ≤ length m
      → printed w ≡ m ∷ ms
      → (w' : os.World) × (read_round os p w ≡ (true, push_message m p, w')) × (printed w' ≡ ms)
  unfolding read_round
  read_round-next [] ms p w some_byte e = absurd (omega arith)
  read_round-next (b ∷ bs) ms p w some_byte e =
      let (n, r, q) = read_next w (b ∷ bs) ms e in
      let whole : (length (b ∷ bs) == (os.available (os.wait_readable w).1).0) ≡ true =
        ground (arith, n) in
      (_, rw (read_round, readable w, r, whole) refl, q)

  pub read_round-end :
      (p : Subprocess) (w : os.World)
      → printed w ≡ []
      → (w' : os.World) × (read_round os p w ≡ (false, record p { is_process_ended = true }, w'))
        × (printed w' ≡ [])
  unfolding read_round
  read_round-end p w e = let (r, q) = read_end w e in (_, rw (read_round, readable w, r) refl, q)

  queued : List Bytes → Subprocess → Subprocess
  queued ms p = record p {
    messages_queue = p.messages_queue ++ ms;
    data_counter = (p.data_counter + length ms) % 2 ^ 64;
    is_process_ended = true;
  }

  read_loop-queued :
      (ms : List Bytes) (fuel : ℕ) (p : Subprocess) (w : os.World)
      → p.data_counter < 2 ^ 64
      → length ms < fuel
      → All (λ m. 1 ≤ length m) ms
      → printed w ≡ ms
      → (w' : os.World) × (read_loop os fuel p w ≡ done (queued ms p, w'))
  unfolding read_loop queued push_message
  read_loop-queued ms zero p w small enough pieces e = absurd (omega arith)
  read_loop-queued [] (suc fuel) p w small enough pieces e =
      let (w', q, r) = read_round-end p w e in
      let same : (p.data_counter + 0) % 2 ^ 64 ≡ p.data_counter = omega arith in
      (w', rw (read_loop, q, append-nil p.messages_queue, same) refl)
  read_loop-queued (m ∷ ms) (suc fuel) p w small enough (some_byte, pieces) e =
      let (w₁, q, r) = read_round-next m ms p w some_byte e in
      let (w', u) =
        read_loop-queued ms fuel (push_message m p) w₁ (omega arith) (omega arith) pieces r in
      let sum : (fetch_add_one p.data_counter + length ms) % 2 ^ 64
          ≡ (p.data_counter + length (m ∷ ms)) % 2 ^ 64 =
        omega arith in
      (w', rw (read_loop, q, u, append_assoc p.messages_queue (m ∷ []) ms, sum) refl)

  -- A new process whose child prints the pieces `ms`, none of them empty, and then closes its output: the thread
  -- ends with the process marked as ended and DataCounter as the number of the pieces, and as many calls of
  -- GetData return them, in order, each without its last byte if that was asked for. But WaitData does not:
  -- once the thread has ended it returns nothing, on every schedule, and leaves the pieces in the queue. The fuel exceeds the
  -- number of the pieces, which is below 2 ^ 64.
  pub output_arrives :
      (ms : List Bytes) (fuel : ℕ) (turns : List ℕ) (remove : Bool) (p : Subprocess)
      (w w'' : os.World)
      → length ms < fuel
      → length ms < 2 ^ 64
      → All (λ m. 1 ≤ length m) ms
      → printed w ≡ ms
      → p.messages_queue ≡ []
      → p.data_counter ≡ 0
      → (p' : Subprocess) × (w' : os.World) × (read_loop os fuel p w ≡ done (p', w'))
        × (p'.is_process_ended ≡ true)
        × (p'.data_counter ≡ length ms)
        × ((get_each (length ms) remove p').0 ≡ map (remove_last remove) ms)
        × (wait_data os turns remove p' w'' ≡ done (([], p'), w''))
  unfolding try_data queued
  output_arrives ms fuel turns remove p w w'' enough small pieces e empty none_counted =
      let (w', q) = read_loop-queued ms fuel p w (omega arith) enough pieces e in
      let queue : p.messages_queue ++ ms ≡ ms = ap (λ (t : List Bytes). t ++ ms) empty in
      (
        queued ms p,
        w',
        q,
        refl,
        omega arith,
        (get_each-queue remove ms (queued ms p) queue).0,
        wait_data-now os turns remove (queued ms p) (queued ms p) [] w'' refl,
      )
