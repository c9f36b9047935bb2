-- ===== src/Transfer/Chunks.antt =====
-- The bytes of a file as they stand on the wire: buffers of 4096 bytes, of which the last is padded
-- with what the buffer held before.
use easy_network.Base.{
  ℕ, zero, suc, ◌+◌, ◌-◌, ◌*◌, ◌/◌, ◌≤◌, ◌≡◌, sym, ap, ◌∙◌, ◌++◌, arith, append_assoc, Bytes,
  length, take, drop, length-append, length-take, length-drop, take-append-drop, take_all, drop_all,
  append-nil,
}
use easy_network.Transfer.{buf_len, read_into}

-- `k` full buffers and the last one.
unfoldable pub chunks : ℕ → Bytes → Bytes → Bytes
chunks zero buf rest = read_into buf rest
chunks (suc k) buf rest = read_into buf rest ++ chunks k (read_into buf rest) (drop buf_len rest)

-- The rounds that the loops make for `n` bytes.
abbrev pub full_chunks : ℕ → ℕ
full_chunks n = (n - buf_len + (buf_len - 1)) / buf_len

pub length-read_into :
    (buf rest : Bytes) → length buf ≡ buf_len → length (read_into buf rest) ≡ buf_len
unfolding read_into
length-read_into buf rest h = omega (
  arith,
  length-append (take buf_len rest) (drop (length (take buf_len rest)) buf),
  length-take buf_len rest,
  length-drop (length (take buf_len rest)) buf,
)

pub length-chunks :
    (k : ℕ) (buf rest : Bytes)
    → length buf ≡ buf_len
    → length (chunks k buf rest) ≡ buf_len * (k + 1)
unfolding chunks
length-chunks zero buf rest h = omega (arith, length-read_into buf rest h)
length-chunks (suc k) buf rest h =
    let l = length-read_into buf rest h in
    omega (
      arith,
      l,
      length-append (read_into buf rest) (chunks k (read_into buf rest) (drop buf_len rest)),
      length-chunks k (read_into buf rest) (drop buf_len rest) l,
    )

full_chunk :
    (buf rest : Bytes)
    → length buf ≡ buf_len
    → buf_len ≤ length rest
    → read_into buf rest ≡ take buf_len rest
unfolding read_into
full_chunk buf rest h long =
    ap (λ (t : Bytes). take buf_len rest ++ t)
      (drop_all _ buf (omega (arith, length-take buf_len rest)))
    ∙ append-nil (take buf_len rest)

-- The wire carries the file, then padding.
pub chunks_padded :
    (k : ℕ) (buf rest : Bytes)
    → length buf ≡ buf_len
    → buf_len * k ≤ length rest
    → length rest ≤ buf_len * (k + 1)
    → (pad : Bytes) × (chunks k buf rest ≡ rest ++ pad)
unfolding chunks
chunks_padded zero buf rest h lo hi = (
  drop (length (take buf_len rest)) buf,
  unfold read_into in
      ap (λ (t : Bytes). t ++ drop (length (take buf_len rest)) buf)
        (take_all buf_len rest (omega arith)),
)
chunks_padded (suc k) buf rest h lo hi =
    let (pad, e) =
      chunks_padded k (read_into buf rest) (drop buf_len rest) (length-read_into buf rest h)
        (omega (arith, length-drop buf_len rest)) (omega (arith, length-drop buf_len rest)) in
    (
      pad,
      ap (λ (t : Bytes). read_into buf rest ++ t) e
          ∙ ap (λ (t : Bytes). t ++ (drop buf_len rest ++ pad))
              (full_chunk buf rest h (omega arith))
          ∙ sym (append_assoc (take buf_len rest) (drop buf_len rest) pad)
          ∙ ap (λ (t : Bytes). t ++ pad) (take-append-drop buf_len rest),
    )
