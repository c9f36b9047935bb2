-- ===== src/Http/Parse.antt =====
-- `ParseHTTPRequest` on whole requests, and on a malformed one.
use easy_network.Base.{
  ℕ, ◌+◌, ◌%◌, ◌^◌, ◌≤◌, ◌<◌, ◌≡◌, ◌≢◌, inl, inr, refl, sym, ap, ◌∙◌, none, some, List, [], ◌∷◌,
  ◌++◌, map, arith, append_assoc, append-nil, Bytes, length, length-append, take, take-append,
  take_all, drop, drop-append, drop-drop, length-drop, All, done, Option-cases, Bool-cases, ◌>>=◌,
}
use easy_network.Text.Parts.{join}
use easy_network.Transfer.Send.{bytes_eq}
use easy_network.Transfer.Recv.Naming.{bytes_eq_sound}
use easy_network.Http.{
  line_end, npos, find_colon, substr, Params, find_param, insert_param, parse_at, parse_line,
  parse_lines, with_header, parse_request_lines, parse_http_request,
}
use easy_network.Http.Lines.{HasNoReturn, split_lines}

abbrev pub HasNoColon : Bytes → Type 0
HasNoColon = All (λ c. c ≢ 58)

-- A name, a colon, a space and a value.
abbrev pub field_line : Bytes × Bytes → Bytes
field_line f = f.0 ++ (58 ∷ 32 ∷ f.1)

find_colon-append :
    (n s : Bytes) (i : ℕ) → HasNoColon n → find_colon (n ++ (58 ∷ s)) i ≡ i + length n
unfolding find_colon
find_colon-append [] s i h = omega arith
find_colon-append (c ∷ n) s i (x, h) = ground (arith, find_colon-append n s (i + 1) h)

find_colon-none : (n : Bytes) (i : ℕ) → HasNoColon n → find_colon n i ≡ npos
unfolding find_colon
find_colon-none [] i h = refl
find_colon-none (c ∷ n) i (x, h) = ground (arith, find_colon-none n (i + 1) h)

pub substr-in :
    (s : Bytes) (pos count : ℕ)
    → pos ≤ length s
    → substr s pos count ≡ some (take count (drop pos s))
unfolding substr
substr-in s pos count h = ground arith

substr_beyond : (s : Bytes) (pos count : ℕ) → length s < pos → substr s pos count ≡ none
unfolding substr
substr_beyond s pos count h = ground arith

parse_at-some :
    (d e : ℕ) (line name val : Bytes) (ps : Params)
    → (d + 2) % 2 ^ 64 ≡ e
    → substr line 0 d ≡ some name
    → substr line e npos ≡ some val
    → parse_at d line ps ≡ some (insert_param name val ps)
unfolding parse_at
parse_at-some d e line name val ps e' p q = rw (parse_at, p, e', q) refl

parse_at-none :
    (d e : ℕ) (line name : Bytes) (ps : Params)
    → (d + 2) % 2 ^ 64 ≡ e
    → substr line 0 d ≡ some name
    → substr line e npos ≡ none
    → parse_at d line ps ≡ none
unfolding parse_at
parse_at-none d e line name ps e' p q = rw (parse_at, p, e', q) refl

-- A line with a colon, up to its value.
parse_line-field :
    (f : Bytes × Bytes) (ps : Params)
    → HasNoColon f.0
    → length (field_line f) < 2 ^ 63
    → parse_line (field_line f) ps ≡ some (insert_param f.0 f.1 ps)
unfolding parse_line
parse_line-field (n, v) ps h small =
    let line = n ++ (58 ∷ 32 ∷ v) in
    let size = length-append n (58 ∷ 32 ∷ v) in
    let at_colon : find_colon line 0 ≡ length n = find_colon-append n (32 ∷ v) 0 h ∙ omega arith in
    let behind : (length n + 2) % 2 ^ 64 ≡ length n + 2 = omega arith in
    let name : substr line 0 (length n) ≡ some n =
      substr-in line 0 (length n) (omega arith) ∙ ap some (take-append n (58 ∷ 32 ∷ v)) in
    let rest : drop (length n + 2) line ≡ v =
      sym (drop-drop 2 (length n) line) ∙ ap (drop 2) (drop-append n (58 ∷ 32 ∷ v)) in
    let val : substr line (length n + 2) npos ≡ some v =
      substr-in line (length n + 2) npos (omega arith)
      ∙ ap some (ap (take npos) rest ∙ take_all npos v (omega arith)) in
    ap (λ d. parse_at d line ps) at_colon
    ∙ parse_at-some (length n) (length n + 2) line n v ps behind name val

-- The first line of a request, which is taken for a parameter too.
parse_line-header :
    (h : Bytes) (ps : Params)
    → HasNoColon h
    → 1 ≤ length h
    → length h < 2 ^ 63
    → parse_line h ps ≡ some (insert_param h (drop 1 h) ps)
unfolding parse_line
parse_line-header h ps clean some_byte small =
    let at_colon = find_colon-none h 0 clean in
    let name : substr h 0 npos ≡ some h =
      substr-in h 0 npos (omega arith) ∙ ap some (take_all npos h (omega arith)) in
    let val : substr h 1 npos ≡ some (drop 1 h) =
      substr-in h 1 npos some_byte
      ∙ ap some (take_all npos (drop 1 h) (omega (arith, length-drop 1 h))) in
    ap (λ d. parse_at d h ps) at_colon ∙ parse_at-some npos 1 h h (drop 1 h) ps refl name val

-- A line that ends with its only colon.
parse_line_short :
    (n : Bytes) (ps : Params)
    → HasNoColon n
    → length n < 2 ^ 63
    → parse_line (n ++ (58 ∷ [])) ps ≡ none
unfolding parse_line
parse_line_short n ps h small =
    let line = n ++ (58 ∷ []) in
    let size = length-append n (58 ∷ []) in
    let at_colon : find_colon line 0 ≡ length n = find_colon-append n [] 0 h ∙ omega arith in
    let behind : (length n + 2) % 2 ^ 64 ≡ length n + 2 = omega arith in
    let name : substr line 0 (length n) ≡ some n =
      substr-in line 0 (length n) (omega arith) ∙ ap some (take-append n (58 ∷ [])) in
    let val : substr line (length n + 2) npos ≡ none =
      substr_beyond line (length n + 2) npos (omega arith) in
    ap (λ d. parse_at d line ps) at_colon
    ∙ parse_at-none (length n) (length n + 2) line n ps behind name val

-- Looking a name up behind other parameters.
find_param-append :
    (k : Bytes) (ps qs : Params)
    → find_param k (ps ++ qs) ≡ elim (find_param k ps) [ none ↦ find_param k qs | some v ↦ some v ]
unfolding find_param
find_param-append k [] qs = refl
find_param-append k (p ∷ ps) qs = elim (Bool-cases (bytes_eq p.0 k)) [
  | inl z ↦ rw z refl
  | inr z ↦ rw z (find_param-append k ps qs)
]

find-known :
    (k n v v' : Bytes) (ps : Params)
    → find_param n ps ≡ some v'
    → find_param k ps ≡ find_param k (ps ++ ((n, v) ∷ []))
unfolding find_param
find-known k n v v' ps z = elim (Option-cases (find_param k ps)) [
  | inr (u, x) ↦ rw (find_param-append k ps ((n, v) ∷ []), x) refl
  | inl x ↦ elim (Bool-cases (bytes_eq n k)) [
    | inl same ↦ (let same' = bytes_eq_sound n k same in cc)
    | inr other ↦ rw (find_param-append k ps ((n, v) ∷ []), x, find_param, other) refl
  ]
]

-- The list that `insert` leaves answers as if the pair stood at its end.
find-insert :
    (k n v : Bytes) (ps : Params)
    → find_param k (insert_param n v ps) ≡ find_param k (ps ++ ((n, v) ∷ []))
unfolding insert_param find_param
find-insert k n v ps = elim (Option-cases (find_param n ps)) [
  | inl z ↦ rw (insert_param, z) refl
  | inr (v', z) ↦ rw (insert_param, z) (find-known k n v v' ps z)
]

parse_lines-cons :
    (line : Bytes) (lines : List Bytes) (ps ps' : Params)
    → parse_line line ps ≡ some ps'
    → parse_lines (line ∷ lines) ps ≡ parse_lines lines ps'
unfolding parse_lines
parse_lines-cons line lines ps ps' e = rw (parse_lines, e) refl

parse_lines-none :
    (line : Bytes) (lines : List Bytes) (ps : Params)
    → parse_line line ps ≡ none
    → parse_lines (line ∷ lines) ps ≡ none
unfolding parse_lines
parse_lines-none line lines ps e = rw (parse_lines, e) refl

-- The conditions on a field.
abbrev pub IsField : Bytes × Bytes → Type 0
IsField f = HasNoColon f.0 × (length (field_line f) < 2 ^ 63)

find-same :
    (k : Bytes) (ps qs rs : Params)
    → find_param k ps ≡ find_param k qs
    → find_param k (ps ++ rs) ≡ find_param k (qs ++ rs)
find-same k ps qs rs e = rw (find_param-append k ps rs, find_param-append k qs rs, e) refl

parse_lines-fields :
    (fields ps : Params)
    → All IsField fields
    → (ps' : Params) × (parse_lines (map field_line fields) ps ≡ some ps')
      × ((k : Bytes) → find_param k ps' ≡ find_param k (ps ++ fields))
unfolding parse_lines
parse_lines-fields [] ps h = (ps, refl, λ k. ap (find_param k) (sym (append-nil ps)))
parse_lines-fields (f ∷ fields) ps (h, hs) =
    let (ps', p, q) = parse_lines-fields fields (insert_param f.0 f.1 ps) hs in
    (
      ps',
      parse_lines-cons (field_line f) (map field_line fields) ps (insert_param f.0 f.1 ps)
            (parse_line-field f ps h.0 h.1)
          ∙ p,
      λ k.
          q k
          ∙ find-same k (insert_param f.0 f.1 ps) (ps ++ (f ∷ [])) fields (find-insert k f.0 f.1 ps)
          ∙ ap (find_param k) (append_assoc ps (f ∷ []) fields),
    )

-- `ParseHTTPRequest` on a request that consists of a first line without a colon and of lines with a name, a
-- colon, a space and a value returns the first line and a map in which every name has the value of the
-- first line with that name, where the first line of the request counts as a line too, with itself as the name. The
-- names hold no colon, no line holds a carriage return or 2^63 bytes, the first line is not empty, and the fuel exceeds the
-- length of the request.
pub parse_http_request_finds :
    (fuel : ℕ) (header : Bytes) (fields : Params)
    → length (join line_end (header ∷ map field_line fields)) < fuel
    → HasNoColon header
    → 1 ≤ length header
    → length header < 2 ^ 63
    → HasNoReturn header
    → All IsField fields
    → All HasNoReturn (map field_line fields)
    → (ps : Params) × (parse_http_request fuel (join line_end (header ∷ map field_line fields))
        ≡ done (some (header, ps)))
      × ((k : Bytes) → find_param k ps ≡ find_param k ((header, drop 1 header) ∷ fields))
unfolding parse_http_request insert_param find_param
parse_http_request_finds fuel header fields enough clean some_byte small one_line hs lines =
    let others = map field_line fields in
    let (ps, p, q) = parse_lines-fields fields ((header, drop 1 header) ∷ []) hs in
    (
      ps,
      ap (λ r. r >>= parse_request_lines) (split_lines fuel header others enough one_line lines)
          ∙ ap (with_header header) (
              parse_lines-cons header others [] ((header, drop 1 header) ∷ [])
                (parse_line-header header [] clean some_byte small)
              ∙ p),
      q,
    )

parse_lines_short :
    (before after : List Bytes) (n : Bytes) (ps : Params)
    → HasNoColon n
    → length n < 2 ^ 63
    → parse_lines (before ++ ((n ++ (58 ∷ [])) ∷ after)) ps ≡ none
parse_lines_short [] after n ps h small =
    parse_lines-none (n ++ (58 ∷ [])) after ps (parse_line_short n ps h small)
parse_lines_short (line ∷ before) after n ps h small =
    let others = before ++ ((n ++ (58 ∷ [])) ∷ after) in
    elim (Option-cases (parse_line line ps)) [
      | inl z ↦ parse_lines-none line others ps z
      | inr (ps', z) ↦
          parse_lines-cons line others ps ps' z ∙ parse_lines_short before after n ps' h small
    ]

-- `ParseHTTPRequest` on a request with a line that ends in its only colon throws std::out_of_range, whatever its other
-- lines are; for lines without a carriage return, a name below 2^63 bytes, and fuel above the length of the request.
pub parse_http_request_throws :
    (fuel : ℕ) (header n : Bytes) (before after : List Bytes)
    → length (join line_end (header ∷ (before ++ ((n ++ (58 ∷ [])) ∷ after)))) < fuel
    → HasNoReturn header
    → All HasNoReturn (before ++ ((n ++ (58 ∷ [])) ∷ after))
    → HasNoColon n
    → length n < 2 ^ 63
    → parse_http_request fuel (join line_end (header ∷ (before ++ ((n ++ (58 ∷ [])) ∷ after))))
      ≡ done none
unfolding parse_http_request
parse_http_request_throws fuel header n before after enough one_line lines h small =
    let others = before ++ ((n ++ (58 ∷ [])) ∷ after) in
    ap (λ r. r >>= parse_request_lines) (split_lines fuel header others enough one_line lines)
    ∙ ap (with_header header) (parse_lines_short (header ∷ before) after n [] h small)
