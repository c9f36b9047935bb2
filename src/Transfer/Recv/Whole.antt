-- ===== src/Transfer/Recv/Whole.antt =====
-- `RecvFile` on everything that `SendFile` writes.
use easy_network.Base.{
  ℕ, ◌+◌, ◌*◌, ◌^◌, ◌<◌, ◌≡◌, ◌≢◌, refl, ap, false, [], ◌∷◌, ◌++◌, arith, Bytes, codes, length,
  take, ltb, done, All, Bool-cases, inl, inr,
}
use easy_network.Net.{Sockets, IsStream}
use easy_network.Number.{to_string}
use easy_network.Number.Parse.{IsDigit}
use easy_network.Number.RoundTrip.{to_string-IsDigit}
use easy_network.Text.{split}
use easy_network.Text.Match.{strip}
use easy_network.Text.Parts.{Free}
use easy_network.Text.Split.{split_unique}
use easy_network.Transfer.{buf_len, Status, Env}
use easy_network.Transfer.Chunks.{full_chunks}
use easy_network.Transfer.Send.{file_info}
use easy_network.Transfer.Recv.{Exit, recv_content}
use easy_network.Transfer.Recv.Loop.{completed, recv_last_receives, recv_loop_receives}

abbrev pub blank : ℕ
blank = b' '

abbrev pub HasNoBlank : Bytes → Type 0
HasNoBlank = All (λ c. c ≢ blank)

Free-HasNoBlank : (p t : Bytes) → HasNoBlank p → Free (blank ∷ []) p t
unfolding strip
Free-HasNoBlank [] t h = tt
Free-HasNoBlank (c ∷ p) t (hc, hp) = (ground arith, Free-HasNoBlank p t hp)

digits-HasNoBlank : (s : Bytes) → All IsDigit s → HasNoBlank s
digits-HasNoBlank [] h = tt
digits-HasNoBlank (c ∷ s) (hc, hs) = (omega arith, digits-HasNoBlank s hs)

-- An announcement is cut into the name and the two numbers.
pub split-file_info :
    (fuel : ℕ) (name : Bytes) (before following : ℕ)
    → HasNoBlank name
    → length (file_info name before following) < fuel
    → split fuel (file_info name before following) (codes " ")
      ≡ done (name ∷ to_string before ∷ to_string following ∷ [])
unfolding file_info
split-file_info fuel name before following h enough =
    let b = to_string before in
    let f = to_string following in
    split_unique blank [] (omega arith) fuel (name ++ (codes " " ++ (b ++ (codes " " ++ f))))
      (name ∷ b ∷ f ∷ []) enough
      (
        b ++ (codes " " ++ f),
        refl,
        Free-HasNoBlank name (codes " " ++ (b ++ (codes " " ++ f))) h,
        (
          f,
          refl,
          Free-HasNoBlank b (codes " " ++ f) (digits-HasNoBlank b (to_string-IsDigit before)),
          (refl, Free-HasNoBlank f [] (digits-HasNoBlank f (to_string-IsDigit following))),
        ),
      )

module _ (net : Sockets) {from sock : ℕ} (s : IsStream net from sock) (env : Env) where
  open s use {unread}

  pub content_received :
      (fuel size before : ℕ) (file wire more : Bytes) (st : Status) (w : net.World)
      → ((j : ℕ) → env.stop j ≡ false)
      → size < 2 ^ 64
      → full_chunks size < fuel
      → length wire ≡ buf_len * (full_chunks size + 1)
      → unread w ≡ wire ++ more
      → (st' : Status) × (w' : net.World) × (recv_content net sock env fuel size before file st w
          ≡ done (completed size file (take size wire) st', w'))
        × (unread w' ≡ more)
  unfolding recv_content
  content_received fuel size before file wire more st w go small enough h e =
      elim (Bool-cases (ltb size buf_len)) [
        | inl little ↦
            let none_full : full_chunks size ≡ 0 = ground arith in
            let (w', p, q) =
              recv_last_receives net s env size 0 size file wire more st w (omega arith)
                (omega arith) small (omega (arith, none_full)) e in
            (st, w', rw little (ap (λ (x : Exit × net.World). done x) p), q)
        | inr long ↦
            let (st', w', p, q) =
              recv_loop_receives net s env (full_chunks size) fuel size before 0 0 0 size file wire
                more st w go (omega arith) (omega arith) (ground arith) small refl enough h e in
            (st', w', rw long p, q)
      ]
