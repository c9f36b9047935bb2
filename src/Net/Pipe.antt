-- ===== src/Net/Pipe.antt =====
-- A concrete connection for the runs: the world is the list of the bytes in flight, `send` takes all
-- that it is given, and `recv` at the end of the stream hands over what is left.
use easy_network.Base.{
  ℕ, ◌≤◌, ◌<◌, ◌≡◌, refl, sym, ap, ◌++◌, arith, Bytes, length, take, drop, take_all,
}
use easy_network.Net.{Sockets, IsStream, sent, got}

abbrev pub pipe : Sockets
pipe = record {
  World = Bytes;
  send = λ sock bs w. (sent (length bs), w ++ bs);
  recv = λ sock n w. (got (take n w), drop n w);
  close = λ sock w. w;
}

pub pipe_send :
    (bs w : Bytes) (n : ℕ)
    → sent (length bs) ≡ sent n
    → (n ≤ length bs) × (w ++ bs ≡ w ++ take n bs)
pipe_send bs w n e =
    let e' : length bs ≡ n = cc in
    (omega arith, ap (λ (t : Bytes). w ++ t) (sym (take_all n bs (omega arith))))

pub pipe_short : (n : ℕ) (w : Bytes) → length w < n → length (take n w) < n
pipe_short n w h = rw (take_all n w (omega arith)) h

abbrev pub pipe-IsStream : (from to : ℕ) → IsStream pipe from to
pipe-IsStream from to = record {
  unread = λ w. w;
  send_takes = pipe_send;
  recv_full = λ n w h. (refl, refl);
  recv_short = pipe_short;
}
