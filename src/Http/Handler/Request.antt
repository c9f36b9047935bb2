-- ===== src/Http/Handler/Request.antt =====
-- The request line of a GET, and what the handler's calls of Text make of it.
use easy_network.Base.{
  ℕ, ◌^◌, ◌≤◌, ◌<◌, ◌≡◌, ◌≢◌, ap, ap₂, ◌∙◌, false, Option, some, List, [], ◌∷◌, ◌++◌, arith, Bytes,
  codes, length, length-append, take_all, All, All-append, done,
}
use easy_network.Text.{split, find_all_occurrences}
use easy_network.Text.Parts.{join}
use easy_network.Text.Find.{positions}
use easy_network.Text.Clean.{Lacks, split-join, find-join}
use easy_network.Transfer.Send.{bytes_eq}
use easy_network.Http.{Params, find_param, npos}
use easy_network.Http.Parse.{substr-in}
use easy_network.Http.Handler.{
  get_file_size, first_value, requested_data_type, is_root, request_file_name,
}

-- The first line of a GET, and a name with one dot.
abbrev pub request_line : Bytes → Bytes
request_line name = codes "GET /" ++ (name ++ codes " HTTP/1.1")

abbrev pub dotted : Bytes → Bytes → Bytes
dotted stem ext = stem ++ (b'.' ∷ ext)

-- The bytes that a name may hold: no end of a line, no space, no colon and no question mark.
abbrev pub IsPlain : Bytes → Type 0
IsPlain = All (λ c. (c ≢ 13) × (c ≢ b' ') × (c ≢ b':') × (c ≢ b'?'))

pub Plain-Lacks :
    (b : ℕ) (name : Bytes)
    → ((c : ℕ) → (c ≢ 13) × (c ≢ b' ') × (c ≢ b':') × (c ≢ b'?') → c ≢ b)
    → IsPlain name
    → Lacks b name
Plain-Lacks b [] f h = tt
Plain-Lacks b (c ∷ name) f (x, h) = (f c x, Plain-Lacks b name f h)

pub type-same :
    (ps qs : Params)
    → ((k : Bytes) → find_param k ps ≡ find_param k qs)
    → requested_data_type ps ≡ requested_data_type qs
unfolding requested_data_type
type-same ps qs h = ap₂ first_value (h (codes "Sec-Fetch-Dest")) (h (codes "sec-fetch-dest"))

pub request-Lacks :
    (b : ℕ) (name : Bytes)
    → Lacks b (codes "GET /")
    → Lacks b (codes " HTTP/1.1")
    → Lacks b name
    → Lacks b (request_line name)
request-Lacks b name h h' x =
    All-append (λ c. c ≢ b) (codes "GET /") (name ++ codes " HTTP/1.1") h
      (All-append (λ c. c ≢ b) name (codes " HTTP/1.1") x h')

pub join_longer : (sep p : Bytes) (ps : List Bytes) → length p ≤ length (join sep (p ∷ ps))
unfolding join
join_longer sep p [] = omega arith
join_longer sep p (q ∷ ps) = omega (arith, length-append p (sep ++ join sep (q ∷ ps)))

pub size_of :
    (file : Option Bytes) (content : Bytes)
    → file ≡ some content
    → get_file_size file ≡ length content
unfolding get_file_size
size_of file content e = ap get_file_size e

module _ (fuel : ℕ) where
  pub header-words :
      (name : Bytes)
      → IsPlain name
      → length (request_line name) < fuel
      → split fuel (request_line name) (codes " ")
        ≡ done (codes "GET" ∷ (b'/' ∷ name) ∷ codes "HTTP/1.1" ∷ [])
  unfolding join
  header-words name plain enough =
      split-join b' ' [] fuel (codes "GET") ((b'/' ∷ name) ∷ codes "HTTP/1.1" ∷ [])
        ((λ e. absurd (omega arith)), tt) enough (ground arith)
        (
          ((λ e. absurd (omega arith)), Plain-Lacks b' ' name (λ c x. x.1) plain),
          (ground arith, tt),
        )

  pub target-parts :
      (name : Bytes)
      → IsPlain name
      → length (request_line name) < fuel
      → split fuel (b'/' ∷ name) (codes "?") ≡ done ((b'/' ∷ name) ∷ [])
  unfolding join
  target-parts name plain enough =
      split-join b'?' [] fuel (b'/' ∷ name) [] ((λ e. absurd (omega arith)), tt)
        (omega (arith, length-append name (codes " HTTP/1.1")))
        ((λ e. absurd (omega arith)), Plain-Lacks b'?' name (λ c x. x.3) plain) tt

  pub one_dot :
      (stem ext : Bytes)
      → Lacks b'.' stem
      → Lacks b'.' ext
      → length (dotted stem ext) < fuel
      → find_all_occurrences fuel (dotted stem ext) (codes ".") ≡ done (length stem ∷ [])
  unfolding join positions
  one_dot stem ext h h' enough =
      find-join b'.' [] fuel stem (ext ∷ []) ((λ e. absurd (omega arith)), tt) enough h (h', tt)
      ∙ ap (λ (n : ℕ). done (n ∷ [])) (omega arith)

pub full_name : (name : Bytes) → 1 ≤ length name → is_root (b'/' ∷ name) ≡ false
unfolding bytes_eq
full_name [] h = absurd (omega arith)
full_name (c ∷ name) h = ground arith

pub path-name :
    (web name : Bytes)
    → 1 ≤ length name
    → length name < 2 ^ 63
    → request_file_name web (b'/' ∷ name) ≡ done (some name)
unfolding request_file_name
path-name web name h small =
    rw (request_file_name, full_name name h)
      (ap done
        (substr-in (b'/' ∷ name) 1 npos (omega arith) ∙ ap some (take_all npos name (omega arith))))
