-- ===== src/Subprocess/Wait.antt =====
-- `WaitData` where it has to wait.
use easy_network.Base.{
  ℕ, zero, suc, ◌+◌, ◌-◌, ◌%◌, ◌^◌, ◌≤◌, ◌<◌, ◌≡◌, refl, sym, ap, ap₂, ◌∙◌, Bool, true, false, none,
  some, List, [], ◌∷◌, ◌++◌, append_assoc, append-nil, arith, Bytes, length, take, replicate, leb,
  if◌then◌else◌, All, done, Bool-cases, inl, inr,
}
use easy_network.Subprocess.{
  Subprocess, Pipes, push_message, remove_last, pop_message, try_data, rounds, wait_data,
  fetch_add_one, fetch_sub_one,
}
use easy_network.Subprocess.Output.{IsOutput, read_round-next, read_round-end, wait_data-now}

try_data-front :
    (remove : Bool) (m : Bytes) (ms : List Bytes) (p : Subprocess)
    → p.is_process_ended ≡ false
    → p.messages_queue ≡ m ∷ ms
    → try_data remove p
      ≡ some (
        remove_last remove m,
        record p { messages_queue = ms; data_counter = fetch_sub_one p.data_counter },
      )
unfolding try_data pop_message
try_data-front remove m ms p runs e = simp (try_data, pop_message, runs, e) refl

try_data-none :
    (remove : Bool) (p : Subprocess)
    → p.is_process_ended ≡ false
    → p.messages_queue ≡ []
    → try_data remove p ≡ none
unfolding try_data pop_message
try_data-none remove p runs e = rw (try_data, pop_message, runs, e) refl

try_data-ended :
    (remove : Bool) (p : Subprocess) → p.is_process_ended ≡ true → try_data remove p ≡ some ([], p)
unfolding try_data
try_data-ended remove p ended = rw (try_data, ended) refl

-- The process after the thread has queued pieces.
abbrev pub pushed : List Bytes → Subprocess → Subprocess
pushed ms p = record p {
  messages_queue = p.messages_queue ++ ms;
  data_counter = (p.data_counter + length ms) % 2 ^ 64;
}

push-pushed :
    (m : Bytes) (ms : List Bytes) (p : Subprocess)
    → pushed ms (push_message m p) ≡ pushed (m ∷ ms) p
unfolding push_message
push-pushed m ms p =
    let counter : (fetch_add_one p.data_counter + length ms) % 2 ^ 64
        ≡ (p.data_counter + length (m ∷ ms)) % 2 ^ 64 =
      omega arith in
    ap₂ (λ (q : List Bytes) (c : ℕ). record p { messages_queue = q; data_counter = c })
      (append_assoc p.messages_queue (m ∷ []) ms) counter

pushed-nil : (p : Subprocess) → p.data_counter < 2 ^ 64 → pushed [] p ≡ p
pushed-nil p small =
    let counter : (p.data_counter + 0) % 2 ^ 64 ≡ p.data_counter = omega arith in
    ap₂ (λ (q : List Bytes) (c : ℕ). record p { messages_queue = q; data_counter = c })
      (append-nil p.messages_queue) counter

ended-nil :
    (p : Subprocess)
    → p.data_counter < 2 ^ 64
    → record (pushed [] p) { is_process_ended = true } ≡ record p { is_process_ended = true }
ended-nil p small =
    ap (λ (p' : Subprocess). record p' { is_process_ended = true }) (pushed-nil p small)

-- What WaitData returns to a caller that finds nothing at first, from the pieces `ms` and the number `n` of rounds
-- that the thread ends before it looks again: the first piece, with the others of these rounds in the queue; or,
-- if the child has printed fewer pieces, nothing from a process that has ended, with all the pieces in the queue.
abbrev pub answer : ℕ → Bool → List Bytes → Subprocess → Bytes × Subprocess
answer n remove [] p = ([], record p { is_process_ended = true })
answer n remove (m ∷ ms) p =
    if leb n (length (m ∷ ms))
    then (remove_last remove m, pushed (take (n - 1) ms) p)
    else ([], record (pushed (m ∷ ms) p) { is_process_ended = true })

-- A turn in which the thread ends.
over :
    (os : Pipes) (n : ℕ) (turns : List ℕ) (remove : Bool) (p p' p'' : Subprocess) (res : Bytes)
    (w w' : os.World)
    → try_data remove p ≡ none
    → rounds os n p w ≡ (false, p', w')
    → try_data remove p' ≡ some (res, p'')
    → wait_data os (n ∷ turns) remove p w ≡ done ((res, p''), w')
unfolding wait_data
over os n turns remove p p' p'' res w w' e q f =
    rw (wait_data, e, q) (wait_data-now os [] remove p' p'' res w' f)

module _ (os : Pipes) (output : IsOutput os) where
  open output use {printed}

  rounds-pushed :
      (n : ℕ) (ms : List Bytes) (p : Subprocess) (w : os.World)
      → p.data_counter < 2 ^ 64
      → n ≤ length ms
      → All (λ m. 1 ≤ length m) ms
      → printed w ≡ ms
      → (w' : os.World) × (rounds os n p w ≡ (true, pushed (take n ms) p, w'))
  unfolding rounds push_message
  rounds-pushed zero ms p w small less pieces e = (w, rw (rounds, pushed-nil p small) refl)
  rounds-pushed (suc n) [] p w small less pieces e = absurd (omega arith)
  rounds-pushed (suc n) (m ∷ ms) p w small less (some_byte, pieces) e =
      let (w₁, q, r) = read_round-next os output m ms p w some_byte e in
      let (w', u) = rounds-pushed n ms (push_message m p) w₁ (omega arith) (omega arith) pieces r in
      (w', rw (rounds, q, u, push-pushed m (take n ms) p) refl)

  rounds-ended :
      (n : ℕ) (ms : List Bytes) (p : Subprocess) (w : os.World)
      → p.data_counter < 2 ^ 64
      → length ms < n
      → All (λ m. 1 ≤ length m) ms
      → printed w ≡ ms
      → (w' : os.World) × (rounds os n p w
          ≡ (false, record (pushed ms p) { is_process_ended = true }, w'))
  unfolding rounds push_message
  rounds-ended zero ms p w small less pieces e = absurd (omega arith)
  rounds-ended (suc n) [] p w small less pieces e =
      let (w', q, r) = read_round-end os output p w e in
      (
        w',
        rw (rounds, q) refl ∙ ap (λ (p' : Subprocess). (false, p', w')) (sym (ended-nil p small)),
      )
  rounds-ended (suc n) (m ∷ ms) p w small less (some_byte, pieces) e =
      let (w₁, q, r) = read_round-next os output m ms p w some_byte e in
      let (w', u) = rounds-ended n ms (push_message m p) w₁ (omega arith) (omega arith) pieces r in
      (
        w',
        rw (rounds, q, u) refl
            ∙ ap (λ (p' : Subprocess). (false, record p' { is_process_ended = true }, w'))
                (push-pushed m ms p),
      )

  -- The pass after a turn in which pieces came.
  found :
      (remove : Bool) (m : Bytes) (ms : List Bytes) (p : Subprocess)
      → p.is_process_ended ≡ false
      → p.messages_queue ≡ []
      → try_data remove (pushed (m ∷ ms) p) ≡ some (remove_last remove m, pushed ms p)
  found remove m ms p runs e =
      let counter : fetch_sub_one ((p.data_counter + length (m ∷ ms)) % 2 ^ 64)
          ≡ (p.data_counter + length ms) % 2 ^ 64 =
        omega arith in
      try_data-front remove m ms (pushed (m ∷ ms) p) runs (ap (λ (t : List Bytes). t ++ (m ∷ ms)) e)
      ∙ ap₂
          (λ (q : List Bytes) (c : ℕ).
            some (remove_last remove m, record p { messages_queue = q; data_counter = c }))
          (sym (ap (λ (t : List Bytes). t ++ ms) e)) counter

  turn_found :
      (n : ℕ) (turns : List ℕ) (m : Bytes) (ms : List Bytes) (remove : Bool) (p : Subprocess)
      (w : os.World)
      → suc n ≤ length (m ∷ ms)
      → p.is_process_ended ≡ false
      → p.data_counter < 2 ^ 64
      → All (λ m'. 1 ≤ length m') (m ∷ ms)
      → p.messages_queue ≡ []
      → printed w ≡ m ∷ ms
      → (w' : os.World) × (wait_data os (suc n ∷ turns) remove p w
          ≡ done ((remove_last remove m, pushed (take n ms) p), w'))
  unfolding wait_data
  turn_found n turns m ms remove p w less runs small pieces e f =
      let (w', q) = rounds-pushed (suc n) (m ∷ ms) p w small less pieces f in
      let again =
        wait_data-now os turns remove (pushed (m ∷ take n ms) p) (pushed (take n ms) p)
          (remove_last remove m) w' (found remove m (take n ms) p runs e) in
      (w', rw (wait_data, try_data-none remove p runs e, q, again) refl)

  turn_ended :
      (n : ℕ) (turns : List ℕ) (ms : List Bytes) (remove : Bool) (p : Subprocess) (w : os.World)
      → length ms < n
      → p.is_process_ended ≡ false
      → p.data_counter < 2 ^ 64
      → All (λ m. 1 ≤ length m) ms
      → p.messages_queue ≡ []
      → printed w ≡ ms
      → (w' : os.World) × (wait_data os (n ∷ turns) remove p w
          ≡ done (([], record (pushed ms p) { is_process_ended = true }), w'))
  turn_ended n turns ms remove p w less runs small pieces e f =
      let (w', q) = rounds-ended n ms p w small less pieces f in
      let p' : Subprocess = record (pushed ms p) { is_process_ended = true } in
      (
        w',
        over os n turns remove p p' p' [] w w' (try_data-none remove p runs e) q
            (try_data-ended remove p' refl),
      )

  turn :
      (n : ℕ) (turns : List ℕ) (ms : List Bytes) (remove : Bool) (p : Subprocess) (w : os.World)
      → 1 ≤ n
      → p.is_process_ended ≡ false
      → p.data_counter < 2 ^ 64
      → All (λ m. 1 ≤ length m) ms
      → p.messages_queue ≡ []
      → printed w ≡ ms
      → (w' : os.World) × (wait_data os (n ∷ turns) remove p w ≡ done (answer n remove ms p, w'))
  turn zero turns ms remove p w one runs small pieces e f = absurd (omega arith)
  turn (suc n) turns [] remove p w one runs small pieces e f =
      let (w', q) = turn_ended (suc n) turns [] remove p w (omega arith) runs small pieces e f in
      (w', q ∙ ap (λ (p' : Subprocess). done (([], p'), w')) (ended-nil p small))
  turn (suc n) turns (m ∷ ms) remove p w one runs small pieces e f =
      elim (Bool-cases (leb (suc n) (length (m ∷ ms)))) [
        | inl less ↦
            let (w', q) = turn_found n turns m ms remove p w (ground arith) runs small pieces e f in
            let one_less : suc n - 1 ≡ n = omega arith in (w', rw (less, one_less) q)
        | inr more ↦
            let (w', q) =
              turn_ended (suc n) turns (m ∷ ms) remove p w (ground arith) runs small pieces e f in
            (w', rw more q)
      ]

  -- WaitData of a running process without a message, whose child prints the pieces `ms`, none of them empty, and
  -- then closes its output. While it waits the lock goes to it `idle` times before the thread ends a round,
  -- and then the thread ends `n` rounds before it has the lock again: it ends with `answer`. So with one
  -- round it returns the next piece; with more, the pieces after the first stay in the queue; and if these
  -- rounds reach the end of the output it returns nothing, whatever was printed. DataCounter is below
  -- 2 ^ 64.
  pub wait_data_waits :
      (idle n : ℕ) (turns : List ℕ) (ms : List Bytes) (remove : Bool) (p : Subprocess)
      (w : os.World)
      → 1 ≤ n
      → p.is_process_ended ≡ false
      → p.data_counter < 2 ^ 64
      → All (λ m. 1 ≤ length m) ms
      → p.messages_queue ≡ []
      → printed w ≡ ms
      → (w' : os.World) × (wait_data os (replicate idle 0 ++ (n ∷ turns)) remove p w
          ≡ done (answer n remove ms p, w'))
  unfolding wait_data rounds
  wait_data_waits zero n turns ms remove p w one runs small pieces e f =
      turn n turns ms remove p w one runs small pieces e f
  wait_data_waits (suc idle) n turns ms remove p w one runs small pieces e f =
      let (w', q) = wait_data_waits idle n turns ms remove p w one runs small pieces e f in
      (w', rw (wait_data, rounds, try_data-none remove p runs e) q)
