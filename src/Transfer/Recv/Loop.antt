-- ===== src/Transfer/Recv/Loop.antt =====
-- The loop of `RecvFile` on a stream that carries all the chunks.
use easy_network.Base.{
  ℕ, zero, suc, ◌+◌, ◌-◌, ◌*◌, ◌^◌, ◌≤◌, ◌<◌, ◌≡◌, refl, sym, ap, ◌∙◌, true, false, some, ◌++◌,
  arith, append_assoc, Bytes, length, take, drop, length-take, length-drop, length-append,
  take-append, drop-append, take-append-drop, take-append_more, done, ◌%◌,
}
use easy_network.Net.{Sockets, IsStream, RecvResult, got, recv_failed}
use easy_network.Transfer.{buf_len, sub64, Status, Env, report, report_all}
use easy_network.Transfer.Chunks.{full_chunks}
use easy_network.Transfer.Recv.{Exit, full_buffer, recv_last, recv_loop}

buffer_of :
    (r : RecvResult) (bs : Bytes) → r ≡ got bs → length bs ≡ buf_len → full_buffer r ≡ some bs
unfolding full_buffer
buffer_of (got cs) bs e h = ground (arith, e)
buffer_of recv_failed bs e h = cc

-- What is left when everything has arrived: the file holds the first bytes of the wire.
unfoldable pub completed : ℕ → Bytes → Bytes → Status → Exit
completed size file arrived st = record {
  result = true;
  status = report_all size st;
  file = file ++ arrived;
  stop_reset = false;
}

completed_step :
    (size n m : ℕ) (file front wire back : Bytes) (st : Status)
    → m ≡ n - buf_len
    → take n wire ≡ front ++ take (n - buf_len) back
    → completed size (file ++ front) (take m back) st ≡ completed size file (take n wire) st
completed_step size n m file front wire back st e whole =
    unfold completed in ground (arith, e, whole, append_assoc file front (take (n - buf_len) back))

module _ (net : Sockets) {from sock : ℕ} (s : IsStream net from sock) (env : Env) where
  open s use {unread, recv_full}

  pub chunk_read :
      (chunk more : Bytes) (w : net.World)
      → length chunk ≡ buf_len
      → unread w ≡ chunk ++ more
      → (full_buffer (net.recv sock buf_len w).0 ≡ some chunk)
        × (unread (net.recv sock buf_len w).1 ≡ more)
  chunk_read chunk more w h e =
      let (p, q) = recv_full buf_len w (omega (arith, ap length e, length-append chunk more)) in
      let front : take buf_len (unread w) ≡ chunk =
        ap (take buf_len) e
        ∙ ap (λ (n : ℕ). take n (chunk ++ more)) (sym h)
        ∙ take-append chunk more in
      let back : drop buf_len (unread w) ≡ more =
        ap (drop buf_len) e
        ∙ ap (λ (n : ℕ). drop n (chunk ++ more)) (sym h)
        ∙ drop-append chunk more in
      (buffer_of _ chunk (p ∙ ap got front) h, q ∙ back)

  pub recv_last_receives :
      (size received left : ℕ) (file wire more : Bytes) (st : Status) (w : net.World)
      → left ≡ size - received
      → received ≤ size
      → size < 2 ^ 64
      → length wire ≡ buf_len
      → unread w ≡ wire ++ more
      → (w' : net.World) × (recv_last net sock env size received file st w
          ≡ (completed size file (take left wire) st, w'))
        × (unread w' ≡ more)
  unfolding recv_last completed
  recv_last_receives size received left file wire more st w r le small h e =
      let (p, q) = chunk_read wire more w h e in
      let n : sub64 size received ≡ left = omega arith in
      ((net.recv sock buf_len w).1, ground (arith, p, n), q)

  split_wire :
      (k n : ℕ) (wire : Bytes)
      → length wire ≡ buf_len * (suc k + 1)
      → buf_len ≤ n
      → (length (take buf_len wire) ≡ buf_len)
        × (take n wire ≡ take buf_len wire ++ take (n - buf_len) (drop buf_len wire))
  split_wire k n wire h le =
      let front = take buf_len wire in
      let l : length front ≡ buf_len = omega (arith, length-take buf_len wire) in
      let total : n ≡ length front + (n - buf_len) = omega arith in
      (
        l,
        ap (take n) (sym (take-append-drop buf_len wire))
            ∙ ap (λ (m : ℕ). take m (front ++ drop buf_len wire)) total
            ∙ take-append_more (n - buf_len) front (drop buf_len wire),
      )

  round :
      (fuel size before i received last : ℕ) (file chunk : Bytes) (st : Status) (w : net.World)
      → received < size - buf_len
      → env.stop i ≡ false
      → full_buffer (net.recv sock buf_len w).0 ≡ some chunk
      → recv_loop net sock env (suc fuel) size before i received last file st w
        ≡ recv_loop net sock env fuel size before
            (i + 1)
            (received + buf_len)
            (report
              (env.asleep i)
              size
              (received + buf_len)
              last
              ((before + (received + buf_len)) % 2 ^ 64)
              st).1
            (file ++ chunk)
            (report
              (env.asleep i)
              size
              (received + buf_len)
              last
              ((before + (received + buf_len)) % 2 ^ 64)
              st).0
            (net.recv sock buf_len w).1
  unfolding recv_loop
  round fuel size before i received last file chunk st w more go p = ground (arith, p)

  pub recv_loop_receives :
      (k fuel size before i received last left : ℕ) (file wire more : Bytes) (st : Status)
      (w : net.World)
      → ((j : ℕ) → env.stop j ≡ false)
      → left ≡ size - received
      → received ≤ size
      → buf_len ≤ size
      → size < 2 ^ 64
      → k ≡ full_chunks left
      → k < fuel
      → length wire ≡ buf_len * (k + 1)
      → unread w ≡ wire ++ more
      → (st' : Status) × (w' : net.World) × (recv_loop net sock env fuel size before i received last
            file st w
          ≡ done (completed size file (take left wire) st', w'))
        × (unread w' ≡ more)
  unfolding recv_loop
  recv_loop_receives k zero size before i received last left file wire more st w go lf le long small
        c enough h e =
      absurd (omega arith)
  recv_loop_receives zero (suc fuel) size before i received last left file wire more st w go lf le
        long small c enough h e =
      let (w', p, q) =
        recv_last_receives size received left file wire more st w lf le small (omega arith) e in
      (st, w', ground (arith, p), q)
  recv_loop_receives (suc k) (suc fuel) size before i received last left file wire more st w go lf
        le long small c enough h e =
      let front = take buf_len wire in
      let back = drop buf_len wire in
      let (l, whole) = split_wire k left wire h (omega arith) in
      let (p, q) = chunk_read front (back ++ more) w l (
        e
        ∙ ap (λ (t : Bytes). t ++ more) (sym (take-append-drop buf_len wire))
        ∙ append_assoc front back more) in
      let r =
        report (env.asleep i) size (received + buf_len) last
          ((before + (received + buf_len)) % 2 ^ 64) st in
      let (st', w', p', q') =
        recv_loop_receives k fuel size before (i + 1) (received + buf_len) r.1 (left - buf_len)
          (file ++ front) back more r.0 (net.recv sock buf_len w).1 go (omega arith) (omega arith)
          long small (omega arith) (omega arith) (omega (arith, length-drop buf_len wire)) q in
      (
        st',
        w',
        round fuel size before i received last file front st w (omega arith) (go i) p
            ∙ p'
            ∙ ap (λ (x : Exit). done (x, w'))
                (completed_step size left (left - buf_len) file front wire back st' refl whole),
        q',
      )
