-- ===== src/Http/Handler/Head.antt =====
-- The heads of the responses, line by line.
use easy_network.Base.{
  ℕ, ◌≡◌, ◌⊎◌, inl, inr, refl, sym, ap, ◌∙◌, true, false, ◌&&◌, ◌||◌, Bool-cases, Option, none,
  some, List, [], ◌∷◌, ◌++◌, append_assoc, arith, Bytes, codes, length, drop, drop-drop,
  drop-append, ◌==◌, if◌then◌else◌,
}
use easy_network.Number.{to_string}
use easy_network.Text.Clean.{Lacks}
use easy_network.Transfer.Recv.{rfind}
use easy_network.Transfer.Recv.Naming.{bytes_eq_sound}
use easy_network.Transfer.Send.{bytes_eq}
use easy_network.Http.{line_end, Params, find_param}
use easy_network.Http.Handler.{
  extension, content_type, head_end, ok_head, not_found_head, first_value, requested_data_type,
}

-- The media types of the files, by what the browser wants them for and their extension.
abbrev pub media_types : List (Bytes × Bytes × Bytes)
media_types =
    (codes "image", codes "svg", codes "image/svg+xml")
    ∷ (codes "image", codes "png", codes "image/png")
    ∷ (codes "image", codes "jpg", codes "image/jpg")
    ∷ (codes "style", codes "css", codes "text/css")
    ∷ (codes "script", codes "js", codes "text/javascript")
    ∷ (codes "font", codes "ttf", codes "application/x-font-ttf")
    ∷ (codes "font", codes "otf", codes "application/x-font-opentype")
    ∷ []

-- The line for the first row that fits, if one does.
abbrev pub media_line : Bytes → Bytes → List (Bytes × Bytes × Bytes) → List Bytes
media_line type ext [] = []
media_line type ext ((t, e, m) ∷ rows) =
    if bytes_eq type t && bytes_eq ext e
    then (codes "content-type: " ++ m) ∷ []
    else media_line type ext rows

-- Documents and requests that do not say what they are for are HTML.
abbrev pub type_lines : Bytes → Bytes → List Bytes
type_lines type ext =
    if bytes_eq type (codes "document") || bytes_eq type []
    then codes "content-type: text/html" ∷ []
    else media_line type ext media_types

-- Lines, each with its end, and an empty line.
abbrev pub with_ends : List Bytes → Bytes
with_ends [] = line_end
with_ends (l ∷ ls) = l ++ (line_end ++ with_ends ls)

abbrev pub last_lines : ℕ → List Bytes
last_lines size = (codes "content-length: " ++ to_string size) ∷ codes "connection: closed" ∷ []

-- The head of a file of this size that is there.
abbrev pub found_lines : ℕ → Bytes → Bytes → List Bytes
found_lines size type ext = codes "HTTP/1.1 200 OK" ∷ (type_lines type ext ++ last_lines size)

-- The head of 404.html.
abbrev pub missing_lines : ℕ → List Bytes
missing_lines size =
    codes "HTTP/1.1 404 Not Found" ∷ codes "content-type: text/html" ∷ last_lines size

abbrev Row : Bytes → Bytes → Bytes → Bytes → Type 0
Row type ext t e = ((type ≡ t) × (ext ≡ e)) ⊎ ((bytes_eq type t && bytes_eq ext e) ≡ false)

row : (type ext t e : Bytes) → Row type ext t e
row type ext t e = elim (Bool-cases (bytes_eq type t)) [
  | inr x ↦ inr (rw x refl)
  | inl x ↦ elim (Bool-cases (bytes_eq ext e)) [
    | inr y ↦ inr (rw (x, y) refl)
    | inl y ↦ inl (bytes_eq_sound type t x, bytes_eq_sound ext e y)
  ]
]

-- The lines of the program, as the code joins them.
abbrev Agree : Bytes → Bytes → Type 0
Agree type ext =
    (ls : List Bytes)
    → content_type type ext ++ with_ends ls ≡ with_ends (type_lines type ext ++ ls)

html : (ext : Bytes) → Agree (codes "document") ext × Agree [] ext
unfolding bytes_eq content_type
html ext = (λ ls. refl, λ ls. refl)

rows :
    Agree (codes "image") (codes "svg")
    × Agree (codes "image") (codes "png")
    × Agree (codes "image") (codes "jpg")
    × Agree (codes "style") (codes "css")
    × Agree (codes "script") (codes "js")
    × Agree (codes "font") (codes "ttf")
    × Agree (codes "font") (codes "otf")
unfolding bytes_eq content_type
rows = (λ ls. refl, λ ls. refl, λ ls. refl, λ ls. refl, λ ls. refl, λ ls. refl, λ ls. refl)

no_html :
    (type ext : Bytes)
    → (bytes_eq type (codes "document") || bytes_eq type []) ≡ false
    → Agree type ext
unfolding content_type
no_html type ext h ls = elim (row type ext (codes "image") (codes "svg")) [
  | inl (p, q) ↦ rw (p, q) (rows.0 ls)
  | inr a ↦ elim (row type ext (codes "image") (codes "png")) [
    | inl (p, q) ↦ rw (p, q) (rows.1 ls)
    | inr b ↦ elim (row type ext (codes "image") (codes "jpg")) [
      | inl (p, q) ↦ rw (p, q) (rows.2 ls)
      | inr c ↦ elim (row type ext (codes "style") (codes "css")) [
        | inl (p, q) ↦ rw (p, q) (rows.3 ls)
        | inr d ↦ elim (row type ext (codes "script") (codes "js")) [
          | inl (p, q) ↦ rw (p, q) (rows.4 ls)
          | inr e ↦ elim (row type ext (codes "font") (codes "ttf")) [
            | inl (p, q) ↦ rw (p, q) (rows.5 ls)
            | inr f ↦ elim (row type ext (codes "font") (codes "otf")) [
              | inl (p, q) ↦ rw (p, q) (rows.6 ls)
              | inr g ↦ rw (content_type, h, a, b, c, d, e, f, g) refl
            ]
          ]
        ]
      ]
    ]
  ]
]

agree : (type ext : Bytes) → Agree type ext
agree type ext = elim (Bool-cases (bytes_eq type (codes "document"))) [
  | inl x ↦ let p = bytes_eq_sound type (codes "document") x in rw p ((html ext).0)
  | inr x ↦ elim (Bool-cases (bytes_eq type [])) [
    | inl y ↦ let p = bytes_eq_sound type [] y in rw p ((html ext).1)
    | inr y ↦ no_html type ext (rw (x, y) refl)
  ]
]

head_end-lines : (size : ℕ) → head_end size ≡ with_ends (last_lines size)
unfolding head_end
head_end-lines size = sym (
    append_assoc (codes "content-length: ") (to_string size)
      (line_end ++ (codes "connection: closed" ++ (line_end ++ line_end))))

pub not_found_head-lines : (size : ℕ) → not_found_head size ≡ with_ends (missing_lines size)
unfolding not_found_head
not_found_head-lines size =
    ap
      (λ (t : Bytes).
        codes "HTTP/1.1 404 Not Found"
        ++ (line_end ++ (codes "content-type: text/html" ++ (line_end ++ t))))
      (head_end-lines size)

pub ok_head-lines :
    (size : ℕ) (type name : Bytes)
    → ok_head size type name ≡ with_ends (found_lines size type (extension name))
unfolding ok_head
ok_head-lines size type name =
    ap (λ (t : Bytes). codes "HTTP/1.1 200 OK" ++ (line_end ++ t))
      (ap (λ (t : Bytes). content_type type (extension name) ++ t) (head_end-lines size)
        ∙ agree type (extension name) (last_lines size))

rfind-none : (c : ℕ) (s : Bytes) → Lacks c s → rfind c s ≡ none
unfolding rfind
rfind-none c [] h = refl
rfind-none c (x ∷ s) (p, h) =
    let q : (x == c) ≡ false = ground arith in rw (rfind, rfind-none c s h, q) refl

rfind-last :
    (c : ℕ) (pre ext : Bytes) → Lacks c ext → rfind c (pre ++ (c ∷ ext)) ≡ some (length pre)
unfolding rfind
rfind-last c [] ext h =
    let q : (c == c) ≡ true = ground arith in rw (rfind, rfind-none c ext h, q) refl
rfind-last c (x ∷ pre) ext h = rw (rfind, rfind-last c pre ext h) refl

-- The extension of a name is what stands behind its last dot.
pub extension-dot : (pre ext : Bytes) → Lacks b'.' ext → extension (pre ++ (b'.' ∷ ext)) ≡ ext
unfolding extension
extension-dot pre ext h =
    rw (extension, rfind-last b'.' pre ext h)
      (sym (drop-drop 1 (length pre) (pre ++ (b'.' ∷ ext)))
        ∙ ap (drop 1) (drop-append pre (b'.' ∷ ext)))

-- What the request says that the file is for: its first field Sec-Fetch-Dest, in either spelling.
abbrev pub purpose : Params → Bytes
purpose fields = elim (find_param (codes "Sec-Fetch-Dest") fields) [
  | some v ↦ v
  | none ↦ elim (find_param (codes "sec-fetch-dest") fields) [ some v ↦ v | none ↦ [] ]
]

pub purpose_lem : (ps : Params) → requested_data_type ps ≡ purpose ps
unfolding requested_data_type
purpose_lem ps =
    value (find_param (codes "Sec-Fetch-Dest") ps) (find_param (codes "sec-fetch-dest") ps)
  where
    value :
        (a b : Option Bytes)
        → first_value a b ≡ (elim a [ some v ↦ v | none ↦ elim b [ some v ↦ v | none ↦ [] ] ])
    value (some v) b = refl
    value none (some v) = refl
    value none none = refl
