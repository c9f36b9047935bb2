-- ===== src/Transfer/Recv/EndToEnd.antt =====
-- A file that `SendFile` put on the wire is the file that `RecvFile` stores.
use easy_network.Base.{
  ℕ, ◌+◌, ◌-◌, ◌*◌, ◌^◌, ◌≤◌, ◌<◌, ◌≡◌, refl, sym, ap, ◌∙◌, Bool, true, false, none, some, [], ◌∷◌,
  ◌++◌, arith, append_assoc, Bytes, codes, length, take, drop, take-append, take-append-drop,
  length-drop, done,
}
use easy_network.Net.{Sockets, IsStream}
use easy_network.Number.{to_string, string_to_int, greatest_unsigned_long, converted}
use easy_network.Number.RoundTrip.{string_to_int-to_string}
use easy_network.Tcp.{Limits, default_tcp_send, default_tcp_recv, msg_buf}
use easy_network.Tcp.Prefix.{prefix}
use easy_network.Tcp.Send.{msg_buf_lem, default_tcp_send_keeps}
use easy_network.Tcp.Recv.{default_tcp_recv_whole}
use easy_network.Text.{split}
use easy_network.Transfer.{buf_len, Status, set_file_size, finish, Env, report_all}
use easy_network.Transfer.Chunks.{chunks, full_chunks, length-chunks, chunks_padded}
use easy_network.Transfer.Send.{file_info}
use easy_network.Transfer.Recv.{
  Files, put_file, new_file_name, rename, store, recv_named, recv_announced, recv_file, returned,
}
use easy_network.Transfer.Recv.Loop.{completed}
use easy_network.Transfer.Recv.Naming.{rename-content, put_file-content}
use easy_network.Transfer.Recv.Whole.{HasNoBlank, split-file_info, content_received}

abbrev pub tmp_of : Bytes → Bytes
tmp_of name = name ++ codes ".tmp"

-- What the .tmp file holds when the reception starts.
abbrev pub held : Files → Bytes → Bytes
held fs name = elim (fs (tmp_of name)) as (λ o. Bytes) [ none ↦ [] | some bs ↦ bs ]

module _ (net : Sockets) {from sock : ℕ} (s : IsStream net from sock) (env : Env) (limits : Limits)
    (opens : Bytes → Bool)
    (send_keeps : (bs : Bytes) (w : net.World) → s.unread (net.send sock bs w).1 ≡ s.unread w) where
  open s use {unread}

  named_received :
      (fuel : ℕ) (name : Bytes) (before size : ℕ) (wire more chosen : Bytes) (st : Status)
      (fs : Files) (w : net.World)
      → ((j : ℕ) → env.stop j ≡ false)
      → opens (tmp_of name) ≡ true
      → size < 2 ^ 64
      → full_chunks size < fuel
      → length wire ≡ buf_len * (full_chunks size + 1)
      → new_file_name fuel (put_file (tmp_of name) (some (held fs name ++ take size wire)) fs) name
        ≡ done chosen
      → unread w ≡ wire ++ more
      → (st' : Status) × (w' : net.World) × (recv_named net sock env limits opens fuel name before
            size st fs w
          ≡ done (
              returned true
                (finish true (report_all size st'))
                (rename
                  (tmp_of name)
                  chosen
                  (put_file (tmp_of name) (some (held fs name ++ take size wire)) fs))
                false
                w'))
        × (unread w' ≡ more)
  named_received fuel name before size wire more chosen st fs w go can small enough h free e =
      let w₁ = (default_tcp_send net limits sock (codes "ok") w).1 in
      let (st', w', p, q) =
        content_received net s env fuel size before (held fs name) wire more (set_file_size size st)
          w₁ go small enough h
          (default_tcp_send_keeps net unread sock send_keeps limits (codes "ok") w ∙ e) in
      (st', w', unfold recv_named store completed in ground (arith, can, p, free), q)

  recv_file_accepts :
      (fuel : ℕ) (name info b f : Bytes) (before size : ℕ) (st : Status) (fs : Files)
      (w w₁ : net.World)
      → default_tcp_recv net fuel limits sock [] w ≡ some ((true, info), w₁)
      → split fuel info (codes " ") ≡ done (name ∷ b ∷ f ∷ [])
      → string_to_int greatest_unsigned_long b ≡ converted before
      → string_to_int greatest_unsigned_long f ≡ converted size
      → recv_file net sock env limits opens fuel (λ n. n) st fs w
        ≡ recv_named net sock env limits opens fuel name before size st fs w₁
  unfolding recv_file recv_announced
  recv_file_accepts fuel name info b f before size st fs w w₁ p q x y =
      rw (recv_file, p, q, recv_announced, x, y) refl

  -- `RecvFile` on a stream that carries the announcement of a file and its chunks, where the .tmp file
  -- can be opened and no one stops it: it returns true, and the file under the chosen name holds what
  -- the .tmp file held followed by as many bytes of the stream as the announcement gave; what stands
  -- after the chunks stays unread. The name has no blank, and the fuel exceeds the rounds of the loops.
  pub recv_file_receives :
      (fuel : ℕ) (name : Bytes) (before size : ℕ) (wire more chosen : Bytes) (st : Status)
      (fs : Files) (w : net.World)
      → ((j : ℕ) → env.stop j ≡ false)
      → opens (tmp_of name) ≡ true
      → HasNoBlank name
      → before < 2 ^ 64
      → size < 2 ^ 64
      → 10 ≤ fuel
      → length (file_info name before size) < fuel
      → length (file_info name before size) ≤ limits.max_tcp_message_size
      → length (file_info name before size) < 2 ^ 31
      → full_chunks size < fuel
      → length wire ≡ buf_len * (full_chunks size + 1)
      → unread w ≡ msg_buf (file_info name before size) ++ (wire ++ more)
      → new_file_name fuel (put_file (tmp_of name) (some (held fs name ++ take size wire)) fs) name
        ≡ done chosen
      → (st' : Status) × (fs' : Files) × (w' : net.World) × (recv_file net sock env limits opens
            fuel
            (λ n. n)
            st
            fs
            w
          ≡ done (returned true (finish true (report_all size st')) fs' false w'))
        × (fs' chosen ≡ some (held fs name ++ take size wire))
        × (unread w' ≡ more)
  recv_file_receives fuel name before size wire more chosen st fs w go can clean b64 s64 ten long
        fits small rounds h e free =
      let info = file_info name before size in
      let (w₁, p₁, q₁) =
        default_tcp_recv_whole net s fuel limits [] info (wire ++ more) w ten fits small (
          e
          ∙ ap (λ (t : Bytes). t ++ (wire ++ more)) (msg_buf_lem info)
          ∙ append_assoc (prefix (length info)) info (wire ++ more)) in
      let (st', w', p, q) =
        named_received fuel name before size wire more chosen st fs w₁ go can s64 rounds h free
          q₁ in
      let fs₁ = put_file (tmp_of name) (some (held fs name ++ take size wire)) fs in
      (
        st',
        rename (tmp_of name) chosen fs₁,
        w',
        recv_file_accepts fuel name info (to_string before) (to_string size) before size st fs w w₁
              p₁ (split-file_info fuel name before size clean long)
              (string_to_int-to_string greatest_unsigned_long before (omega arith))
              (string_to_int-to_string greatest_unsigned_long size (omega arith))
            ∙ p,
        rename-content (tmp_of name) chosen fs₁
            ∙ put_file-content (tmp_of name) (some (held fs name ++ take size wire)) fs,
        q,
      )

  carried :
      (content buf : Bytes) (before : ℕ)
      → before ≤ length content
      → length buf ≡ buf_len
      → take
          (length content - before)
          (chunks (full_chunks (length content - before)) buf (drop before content))
        ≡ drop before content
  carried content buf before h full =
      let l : length (drop before content) ≡ length content - before =
        omega (arith, length-drop before content) in
      let (pad, e) =
        chunks_padded (full_chunks (length content - before)) buf (drop before content) full
          (ground (arith, l)) (ground (arith, l)) in
      ap (take (length content - before)) e
      ∙ ap (λ (n : ℕ). take n (drop before content ++ pad)) (sym l)
      ∙ take-append (drop before content) pad

  -- A file that was sent with `SendFile` is received whole: on a stream that carries what `SendFile`
  -- writes for `content`, of which `before` bytes were sent earlier, `RecvFile` with the first `before`
  -- bytes in its .tmp file returns true and stores exactly `content`. The conditions are those of
  -- `recv_file_receives`, the search for a free name ends, and fileNameFunction keeps the name; the
  -- sender's buffer had 4096 bytes of any content.
  pub send_file-recv_file :
      (fuel : ℕ) (name content buf : Bytes) (before : ℕ) (more chosen : Bytes) (st : Status)
      (fs : Files) (w : net.World)
      → ((j : ℕ) → env.stop j ≡ false)
      → opens (tmp_of name) ≡ true
      → HasNoBlank name
      → length content < 2 ^ 64
      → before ≤ length content
      → length buf ≡ buf_len
      → held fs name ≡ take before content
      → 10 ≤ fuel
      → length (file_info name before (length content - before)) < fuel
      → length (file_info name before (length content - before)) ≤ limits.max_tcp_message_size
      → length (file_info name before (length content - before)) < 2 ^ 31
      → full_chunks (length content - before) < fuel
      → unread w
        ≡ msg_buf (file_info name before (length content - before))
          ++ (chunks (full_chunks (length content - before)) buf (drop before content) ++ more)
      → new_file_name fuel (put_file (tmp_of name) (some content) fs) name ≡ done chosen
      → (st' : Status) × (fs' : Files) × (w' : net.World) × (recv_file net sock env limits opens
            fuel
            (λ n. n)
            st
            fs
            w
          ≡ done
              (returned true (finish true (report_all (length content - before) st')) fs' false w'))
        × (fs' chosen ≡ some content)
        × (unread w' ≡ more)
  send_file-recv_file fuel name content buf before more chosen st fs w go can clean s64 part full
        old ten long fits small rounds e free =
      let size = length content - before in
      let wire = chunks (full_chunks size) buf (drop before content) in
      let whole : held fs name ++ take size wire ≡ content =
        ap (λ (t : Bytes). t ++ take size wire) old
        ∙ ap (λ (t : Bytes). take before content ++ t) (carried content buf before part full)
        ∙ take-append-drop before content in
      let free' : new_file_name fuel
            (put_file (tmp_of name) (some (held fs name ++ take size wire)) fs) name
          ≡ done chosen =
        ap (λ (t : Bytes). new_file_name fuel (put_file (tmp_of name) (some t) fs) name) whole
        ∙ free in
      let (st', fs', w', p, q, r) =
        recv_file_receives fuel name before size wire more chosen st fs w go can clean (omega arith)
          (omega arith) ten long fits small rounds
          (length-chunks (full_chunks size) buf (drop before content) full) e free' in
      (st', fs', w', p, q ∙ ap some whole, r)
