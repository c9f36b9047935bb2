-- ===== src/Transfer/Tests.antt =====
-- Runs of the transmission of files, and the theorems at concrete inputs.
use easy_network.Base.{
  ℕ, ◌+◌, ◌≤◌, ◌≡◌, refl, ap, ◌∙◌, lt_wf, true, false, none, some, [], ◌∷◌, ◌++◌, arith, Bytes,
  codes, length, take, drop, replicate, ◌==◌, if◌then◌else◌, done,
}
use native.Mathlib.Decide.{dec_lt}
use easy_network.Net.{Sockets, IsStream, sent, got}
use easy_network.Net.Pipe.{pipe_send, pipe_short}
use easy_network.Number.{to_string, digits_before}
use easy_network.Tcp.{
  default_limits, default_tcp_send, default_tcp_recv, read_prefix, read_body, message_size,
  high_groups, msg_buf, mark_bytes, message_length_string, digits_loop, sent_size,
}
use easy_network.Transfer.Recv.Whole.{HasNoBlank}
use easy_network.Transfer.{read_into, buf_len, sub64, Status, new_status, finish, Env, report_all}
use easy_network.Transfer.Chunks.{chunks}
use easy_network.Transfer.Send.{bytes_eq, file_info, send_file}
use easy_network.Transfer.Send.Loop.{TakesAll}
use easy_network.Transfer.Send.Whole.{Succeeded, send_file_sends}
use easy_network.Transfer.Recv.{
  Files, put_file, is_file_exist, numbered, unused_number, stem_and_extension, rfind, new_file_name,
  recv_file, returned,
}
use easy_network.Transfer.Forward.{forwarded, forward_file}
use easy_network.Transfer.Forward.Loop.{forward_file_forwards}
use easy_network.Transfer.Recv.Naming.{new_file_name_unused}
use easy_network.Transfer.Recv.EndToEnd.{tmp_of, held, send_file-recv_file}

-- A connection with both directions: what socket 4 sends arrives at socket 5, what any other socket
-- sends is only kept.
abbrev duplex : Sockets
duplex = record {
  World = Bytes × Bytes;
  send = λ sock bs w. (sent (length bs), if sock == 4 then (w.0 ++ bs, w.1) else (w.0, w.1 ++ bs));
  recv = λ sock n w. (got (take n w.0), (drop n w.0, w.1));
  close = λ sock w. w;
}

abbrev duplex_takes : TakesAll duplex 5
duplex_takes = record {
  written = λ w. w.1;
  takes_all = λ bs w short. (refl, refl);
  recv_keeps = λ n w. refl;
  close_keeps = λ w. refl;
}

duplex_send :
    (bs : Bytes) (w : Bytes × Bytes) (n : ℕ)
    → sent (length bs) ≡ sent n
    → (n ≤ length bs) × (w.0 ++ bs ≡ w.0 ++ take n bs)
duplex_send bs w n e = pipe_send bs w.0 n e

abbrev duplex-IsStream : IsStream duplex 4 5
duplex-IsStream = record {
  unread = λ w. w.0;
  send_takes = duplex_send;
  recv_full = λ n w h. (refl, refl);
  recv_short = λ n w. pipe_short n w.0;
}

abbrev duplex_takes_on : TakesAll duplex 7
duplex_takes_on = record {
  written = λ w. w.1;
  takes_all = λ bs w short. (refl, refl);
  recv_keeps = λ n w. refl;
  close_keeps = λ w. refl;
}

abbrev calm : Env
calm = record { stop = λ j. false; asleep = λ j. true }

abbrev name : Bytes
name = codes "a.txt"

abbrev content : Bytes
content = codes "hello"

abbrev blanks : Bytes
blanks = replicate buf_len 32

abbrev no_files : Files
no_files = λ n. none

-- Of "a.txt" some bytes have arrived earlier.
abbrev partial : Files
partial = λ n. if bytes_eq n (codes "a.txt.tmp") then some (codes "he") else none

abbrev taken : Files
taken = λ n. if bytes_eq n name then some [] else none

info_run : file_info name 2 3 ≡ codes "a.txt 2 3"
unfolding file_info to_string digits_before lt_wf dec_lt
info_run = refl

free_run : new_file_name 20 (put_file (tmp_of name) (some content) partial) name ≡ done name
unfolding new_file_name is_file_exist put_file bytes_eq
free_run = refl

taken_run : new_file_name 20 taken name ≡ done (codes "a (1).txt")
unfolding new_file_name is_file_exist bytes_eq stem_and_extension rfind unused_number numbered
    to_string digits_before lt_wf dec_lt
taken_run = refl

taken_free :
    is_file_exist taken (numbered (stem_and_extension name).0 (stem_and_extension name).1 (1 + 0))
    ≡ false
unfolding is_file_exist bytes_eq stem_and_extension rfind numbered to_string digits_before lt_wf
    dec_lt
taken_free = refl

new_file_name_unused_example :
    (chosen : Bytes) × (new_file_name 20 taken name ≡ done chosen)
    × (is_file_exist taken chosen ≡ false)
    × (is_file_exist taken name ≡ false → chosen ≡ name)
new_file_name_unused_example = new_file_name_unused 0 20 taken name taken_free (omega arith)

second_unused : is_file_exist no_files (numbered (codes "a") (codes ".txt") (1 + 1)) ≡ false
unfolding is_file_exist
second_unused = refl

length-blanks : length blanks ≡ buf_len
length-blanks = refl

abbrev answered : Bytes × Bytes
answered = (2 ∷ codes "ok", [])

-- The announcement of the last three bytes, as it is sent.
announcement : msg_buf (codes "a.txt 2 3") ≡ 9 ∷ codes "a.txt 2 3"
unfolding msg_buf mark_bytes message_length_string digits_loop lt_wf dec_lt
announcement = refl

announcing_run :
    default_tcp_send duplex default_limits 5 (codes "a.txt 2 3") answered
    ≡ (true, (2 ∷ codes "ok", [] ++ msg_buf (codes "a.txt 2 3")))
unfolding default_tcp_send sent_size msg_buf mark_bytes message_length_string digits_loop lt_wf
    dec_lt
announcing_run = refl

answer_run :
    (sent_before : Bytes)
    → default_tcp_recv duplex 20 default_limits 5 [] (2 ∷ codes "ok", sent_before)
      ≡ some ((true, codes "ok"), ([], sent_before))
unfolding default_tcp_recv read_prefix read_body message_size high_groups
answer_run sent_before = refl

answer_comes :
    default_tcp_recv duplex 20 default_limits 5 []
      (default_tcp_send duplex default_limits 5
        (file_info name 2 (sub64 (length content) 2))
        answered).1
    ≡ some ((true, codes "ok"), ([], [] ++ msg_buf (codes "a.txt 2 3")))
answer_comes = rw info_run (rw announcing_run (answer_run ([] ++ msg_buf (codes "a.txt 2 3"))))

not_bad : bytes_eq (codes "ok") (codes "bad") ≡ false
unfolding bytes_eq
not_bad = refl

length-info : length (file_info name 2 (sub64 (length content) 2)) ≡ 9
length-info = ap length info_run

send_file_sends_example :
    (st' : Status) × (w' : Bytes × Bytes) × (send_file duplex 5 calm default_limits 20 name
        (some content)
        2
        blanks
        new_status
        answered
      ≡ some ((true, st'), w'))
    × Succeeded duplex duplex_takes calm 5 st'
    × (w'.1
        ≡ []
          ++ (msg_buf (file_info name 2 (sub64 (length content) 2))
              ++ chunks 0 blanks (codes "llo")))
send_file_sends_example =
    send_file_sends duplex duplex_takes calm default_limits 20 name content 2 blanks (codes "ok")
      new_status answered ([], [] ++ msg_buf (codes "a.txt 2 3")) (λ j. refl) length-blanks
      (omega arith) (omega (arith, length-info)) (omega (arith, length-info)) answer_comes not_bad

start_run : file_info name 0 20_000 ≡ codes "a.txt 0 20000"
unfolding file_info to_string digits_before lt_wf dec_lt
start_run = refl

length-start : length (file_info name 0 20_000) ≡ 13
length-start = ap length start_run

no_blank : HasNoBlank name
no_blank = (omega arith, (omega arith, (omega arith, (omega arith, (omega arith, tt)))))

length-three : length (file_info name 2 3) ≡ 9
length-three = length-info

carried_whole : held partial name ++ take 3 (chunks 0 blanks (codes "llo")) ≡ content
unfolding chunks read_into bytes_eq
carried_whole = refl

still_free :
    new_file_name 20
      (put_file
        (tmp_of name)
        (some (held partial name ++ take 3 (chunks 0 blanks (codes "llo"))))
        partial)
      name
    ≡ done name
still_free =
    ap (λ (t : Bytes). new_file_name 20 (put_file (tmp_of name) (some t) partial) name)
      carried_whole
    ∙ free_run

held_run : held partial name ≡ take 2 content
unfolding bytes_eq
held_run = refl

send_file-recv_file_example :
    (st' : Status) × (fs' : Files) × (w' : Bytes × Bytes) × (recv_file duplex 5 calm default_limits
        (λ n. true)
        20
        (λ n. n)
        new_status
        partial
        (msg_buf (file_info name 2 3) ++ (chunks 0 blanks (codes "llo") ++ codes "next"), [])
      ≡ done (returned true (finish true (report_all 3 st')) fs' false w'))
    × (fs' name ≡ some content)
    × (w'.0 ≡ codes "next")
send_file-recv_file_example =
    send_file-recv_file duplex duplex-IsStream calm default_limits (λ n. true) (λ bs w. refl) 20
      name content blanks 2 (codes "next") name new_status partial
      (msg_buf (file_info name 2 3) ++ (chunks 0 blanks (codes "llo") ++ codes "next"), [])
      (λ j. refl) refl no_blank (omega arith) (omega arith) length-blanks held_run (omega arith)
      (omega (arith, length-info)) (omega (arith, length-info)) (omega (arith, length-info))
      (omega arith) refl free_run

-- A file of 20,000 bytes that is sent from its start: one buffer goes on, the rest stays unread.
forward_file_forwards_example :
    (st' : Status) × (w' : Bytes × Bytes) × (forward_file duplex 5 7 calm default_limits 50
        new_status
        (msg_buf (file_info name 0 20_000) ++ (blanks ++ codes "the rest"), [])
      ≡ done (forwarded true (finish true (report_all 0 st')) false, w'))
    × (w'.0 ≡ codes "the rest")
    × (w'.1 ≡ [] ++ (msg_buf (file_info name 0 20_000) ++ blanks))
forward_file_forwards_example =
    forward_file_forwards duplex duplex-IsStream duplex_takes_on calm default_limits (λ bs w. refl)
      (λ n w. refl) (λ w. refl) 50 name 0 20_000 blanks (codes "the rest") new_status
      (msg_buf (file_info name 0 20_000) ++ (blanks ++ codes "the rest"), []) (λ j. refl) no_blank
      (omega arith) (omega arith) (omega (arith, length-start)) (omega (arith, length-start))
      (omega (arith, length-start)) (omega arith) length-blanks refl
