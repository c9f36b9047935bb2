-- ===== src/Http/Handler.antt =====
-- `ClientMessageHandler` of experimental/EN_HTTP_Server.cpp: what a request is answered with.
pub mod Head
pub mod Request
pub mod Serves
use easy_network.Base.{
  ℕ, ◌+◌, ◌^◌, Bool, true, false, not, ◌&&◌, ◌||◌, Option, none, some, List, [], ◌∷◌, ◌++◌, Bytes,
  codes, length, drop, get_elem?, ltb, ◌==◌, if◌then◌else◌, Run, done, fault, stuck,
}
use easy_network.Net.{Sockets, RecvResult, got, recv_failed}
use easy_network.Number.{
  to_string, string_to_int, greatest_unsigned_long, Conversion, converted, refused, out_of_range,
}
use easy_network.Tcp.{Limits, sent_size}
use easy_network.TcpServer.{Server, Host}
use easy_network.Text.{split, find_all_occurrences}
use easy_network.Transfer.Recv.{rfind}
use easy_network.Transfer.Send.{bytes_eq}
use easy_network.Http.{line_end, Params, find_param, substr, npos, parse_http_request}
use easy_network.Http.Respond.{send_responce}

-- `none` inside `done` is a std::out_of_range that leaves the function.
infixl 5 ◌>>=◌
abbrev pub ◌>>=◌ {ℓ κ} :
    {A : Type ℓ} {B : Type κ} → Run (Option A) → (A → Run (Option B)) → Run (Option B)
done (some a) >>= f = f a
done none >>= f = done none
fault >>= f = fault
stuck >>= f = stuck

abbrev pub no_throw {ℓ} : {A : Type ℓ} → Run A → Run (Option A)
no_throw (done a) = done (some a)
no_throw fault = fault
no_throw stuck = stuck

abbrev pub in_time {ℓ} : {A : Type ℓ} → Option A → Run (Option A)
in_time none = stuck
in_time (some a) = done (some a)

-- `vec[i]`
abbrev pub item : List Bytes → ℕ → Run (Option Bytes)
item vec i = elim (get_elem? vec i) [ none ↦ fault | some x ↦ done (some x) ]

-- `EN::GetFileSize`: 0 for a file that cannot be opened.
unfoldable pub get_file_size : Option Bytes → ℕ
get_file_size none = 0
get_file_size (some content) = length content

-- `requestFileName.substr(requestFileName.rfind(".") + 1)`
unfoldable pub extension : Bytes → Bytes
extension name = elim (rfind b'.' name) [ none ↦ name | some i ↦ drop (i + 1) name ]

abbrev pub first_value : Option Bytes → Option Bytes → Bytes
first_value (some v) other = v
first_value none (some v) = v
first_value none none = []

unfoldable pub requested_data_type : Params → Bytes
requested_data_type ps =
    first_value (find_param (codes "Sec-Fetch-Dest") ps) (find_param (codes "sec-fetch-dest") ps)

abbrev pub line_if : Bool → Bytes → Bytes
line_if true line = line ++ line_end
line_if false line = []

unfoldable pub content_type : Bytes → Bytes → Bytes
content_type type ext =
    line_if (bytes_eq type (codes "document") || bytes_eq type []) (codes "content-type: text/html")
    ++ (line_if (bytes_eq type (codes "image") && bytes_eq ext (codes "svg"))
          (codes "content-type: image/svg+xml")
        ++ (line_if (bytes_eq type (codes "image") && bytes_eq ext (codes "png"))
              (codes "content-type: image/png")
            ++ (line_if (bytes_eq type (codes "image") && bytes_eq ext (codes "jpg"))
                  (codes "content-type: image/jpg")
                ++ (line_if (bytes_eq type (codes "style") && bytes_eq ext (codes "css"))
                      (codes "content-type: text/css")
                    ++ (line_if (bytes_eq type (codes "script") && bytes_eq ext (codes "js"))
                          (codes "content-type: text/javascript")
                        ++ (line_if (bytes_eq type (codes "font") && bytes_eq ext (codes "ttf"))
                              (codes "content-type: application/x-font-ttf")
                            ++ line_if (bytes_eq type (codes "font") && bytes_eq ext (codes "otf"))
                                (codes "content-type: application/x-font-opentype")))))))

-- The last two lines of every head.
unfoldable pub head_end : ℕ → Bytes
head_end size =
    codes "content-length: "
    ++ (to_string size ++ (line_end ++ (codes "connection: closed" ++ (line_end ++ line_end))))

unfoldable pub ok_head : ℕ → Bytes → Bytes → Bytes
ok_head size type name =
    codes "HTTP/1.1 200 OK" ++ (line_end ++ (content_type type (extension name) ++ head_end size))

unfoldable pub not_found_head : ℕ → Bytes
not_found_head size =
    codes "HTTP/1.1 404 Not Found"
    ++ (line_end ++ (codes "content-type: text/html" ++ (line_end ++ head_end size)))

-- `splittedFileRequest[0] == "/"`
abbrev pub is_root : Bytes → Bool
is_root path = bytes_eq path (codes "/")

-- The members and the user's virtual functions; `fresh n` is what stands in `new char[n]`.
pub record Site (World : Type 0) : Type 0 where
  pub web_files_path : Bytes
  pub running_directory : Bytes
  pub files : Bytes → Option Bytes
  pub get_url_params_handler : Bytes → World → World
  pub http_request_handler : ℕ → Params → Bytes → Bytes → World → World
  pub fresh : ℕ → Bytes

abbrev pub filled : Bytes → RecvResult → Bytes
filled array (got bytes) = bytes ++ drop (length bytes) array
filled array recv_failed = array

-- The file of a request, before and after the test of its dots.
unfoldable pub request_file_name : Bytes → Bytes → Run (Option Bytes)
request_file_name web path =
    if is_root path then done (some (web ++ codes "index.html")) else done (substr path 1 npos)

abbrev pub default_directory : Bytes → Bytes → Bytes
default_directory [] running = running
default_directory (b ∷ bs) running = b ∷ bs

unfoldable pub full_file_name : Bytes → Bytes → Bytes → Bytes → Bytes
full_file_name web running path name =
    if is_root path then name else default_directory web running ++ name

module _ (net : Sockets) (host : Host net.World) (sv : Server net.World) (limits : Limits)
    (site : Site net.World) (fuel sock : ℕ) (buf : Bytes) where
  abbrev pub send_file_with : Bytes → Bytes → net.World → Run (Option net.World)
  send_file_with head name w =
      in_time (send_responce net host sv fuel sock head (site.files name) buf w)

  -- From the size of the file on.
  unfoldable pub respond : Params → Bytes → net.World → Run (Option net.World)
  respond ps name w =
      let size = get_file_size (site.files name) in
      let not_found = site.web_files_path ++ codes "404.html" in
      let missing_size = get_file_size (site.files not_found) in
      if not (size == 0)
      then send_file_with (ok_head size (requested_data_type ps) name) name w
      else if not (missing_size == 0)
      then send_file_with (not_found_head missing_size) not_found w
      else send_file_with [] name w

  abbrev pub with_url_params : List Bytes → net.World → net.World
  with_url_params parts w = elim (get_elem? parts 1) [
    | none ↦ w
    | some p ↦ site.get_url_params_handler p w
  ]

  unfoldable pub other_request : Params → Bytes → net.World → Run (Option net.World)
  other_request ps header w = done (some (site.http_request_handler sock ps header [] w))

  unfoldable pub handle_get : Params → Bytes → List Bytes → net.World → Run (Option net.World)
  handle_get ps header words w = do
    target ← item words 1
    parts ← no_throw (split fuel target (codes "?"))
    path ← item parts 0
    name ← request_file_name site.web_files_path path
    dots ← no_throw (find_all_occurrences fuel name (codes "."))
    if not (length dots == 1) && not (is_root path)
        then other_request ps header w
        else respond ps (full_file_name site.web_files_path site.running_directory path name)
            (with_url_params parts w)

  unfoldable pub handle_body : Params → Bytes → ℕ → net.World → Run (Option net.World)
  handle_body ps header size w =
      let (r, w') = net.recv sock size w in
      done (some (site.http_request_handler sock ps header (filled (site.fresh size) r) w'))

  unfoldable pub handle_post : Params → Bytes → net.World → Run (Option net.World)
  handle_post ps header w = elim (find_param (codes "Content-Length") ps) [
    | none ↦ other_request ps header w
    | some v ↦ elim (string_to_int greatest_unsigned_long v) [
      | refused ↦ other_request ps header w
      | out_of_range ↦ done none
      | converted size ↦
          if ltb size limits.max_tcp_message_size
          then handle_body ps header size w
          else other_request ps header w
    ]
  ]

  unfoldable pub client_message_handler : Bytes → net.World → Run (Option net.World)
  client_message_handler message w = do
    (header, ps) ← parse_http_request fuel message
    words ← no_throw (split fuel header (codes " "))
    method ← item words 0
    if bytes_eq method (codes "GET")
        then handle_get ps header words w
        else if bytes_eq method (codes "POST")
        then handle_post ps header w
        else other_request ps header w

-- `HTTP_Send`
unfoldable pub http_send : (net : Sockets) → ℕ → Bytes → net.World → Bool × net.World
http_send net sock message w =
    let (r, w') = net.send sock message w in (sent_size r == length message, w')
