-- ===== src/Http/Tests.antt =====
-- Requests and responses on a concrete connection, and the theorems on them.
use easy_network.Base.{
  ◌<◌, ◌≡◌, refl, true, false, none, some, [], ◌∷◌, ◌++◌, map, arith, Bytes, codes, length, drop,
  replicate, All, done, if◌then◌else◌, ◌||◌,
}
use easy_network.Net.Pipe.{pipe, pipe-IsStream}
use easy_network.Text.Match.{strip}
use easy_network.Text.Parts.{Free, join}
use easy_network.Http.{line_end, request_end, find_param, Params, http_recv, parse_http_request}
use easy_network.Http.Recv.{http_recv_request}
use easy_network.Http.Lines.{HasNoReturn}
use easy_network.Http.Parse.{HasNoColon, field_line, IsField, parse_http_request_finds}
use easy_network.Http.Respond.{chunk_size, unfinished, send_chunks}
use easy_network.Http.Respond.Sends.{copies, missing_file_leaks}
use easy_network.Http.Handler.{Site, get_file_size, client_message_handler, http_send}
use easy_network.Http.Handler.Head.{with_ends, found_lines, missing_lines, purpose}
use easy_network.Http.Handler.Request.{request_line, dotted}
use easy_network.Http.Handler.Serves.{IsGet, get_found, get_missing}
use easy_network.Tcp.{default_limits}
use easy_network.Transfer.Send.{bytes_eq}
use easy_network.TcpServer.{Server, Host, find_socket}

abbrev get : Bytes
get = codes "GET /"

get-Free : Free request_end get request_end
unfolding strip
get-Free = (refl, (refl, (refl, (refl, (refl, tt)))))

http_recv_request_example :
    (w' : Bytes) × (http_recv pipe 9 1 (get ++ (request_end ++ codes "body"))
      ≡ some ((true, get), w'))
    × (w' ≡ codes "body")
http_recv_request_example =
    http_recv_request pipe (pipe-IsStream 0 1) 9 get (codes "body")
      (get ++ (request_end ++ codes "body")) (omega arith) get-Free (omega arith) refl

abbrev fields : Params
fields = (codes "Host", codes "a:1") ∷ (codes "A", codes "b") ∷ []

get_clean : HasNoColon get
get_clean = ground arith

get_line : HasNoReturn get
get_line = ground arith

names : All IsField fields
names = ground arith

lines : All HasNoReturn (map field_line fields)
lines = ground arith

get_short : length (join line_end (get ∷ map field_line fields)) < 30
unfolding join
get_short = omega arith

parse_http_request_finds_example :
    (ps : Params) × (parse_http_request 30 (join line_end (get ∷ map field_line fields))
      ≡ done (some (get, ps)))
    × ((k : Bytes) → find_param k ps ≡ find_param k ((get, drop 1 get) ∷ fields))
parse_http_request_finds_example =
    parse_http_request_finds 30 get fields get_short get_clean (omega arith) (omega arith) get_line
      names lines

empty_short : length (join line_end (get ∷ ([] ++ ((codes "X" ++ (58 ∷ [])) ∷ [])))) < 30
unfolding join
empty_short = omega arith

abbrev quiet : Host Bytes
quiet = record {
  on_client_connected = λ sock w. w;
  client_message_handler = λ sock m w. w;
  on_client_disconnect = λ sock w. w;
  close_socket = λ sock w. w;
  set_option = λ sock o w. w;
}

abbrev serving : Server Bytes
serving = record {
  port = 80;
  ip_address = codes "127.0.0.1";
  is_shutdown = false;
  server_listen_socket = some 3;
  client_sockets = 5 ∷ [];
  accept_socket_options = [];
  socket_options_after_connection = [];
  tcp_send = λ sock m w. (true, w ++ m);
  tcp_recv = λ sock m w. some ((false, m), w);
  events = [];
}

abbrev array : Bytes
array = replicate chunk_size 7

array_full : length array ≡ chunk_size
array_full = refl

is_client : find_socket 5 (5 ∷ []) ≡ true
unfolding find_socket
is_client = refl

missing_file_leaks_example :
    (w' : Bytes) × (send_chunks pipe 2 5 none array [] ≡ (unfinished, w'))
    × (w' ≡ [] ++ copies 2 array)
missing_file_leaks_example =
    missing_file_leaks pipe (pipe-IsStream 5 6) (λ bs w. refl) 2 array [] array_full (omega arith)

-- The server of the page, with one file in its directory.
abbrev page : Bytes
page = codes "page"

abbrev shop : Site Bytes
shop = record {
  web_files_path = codes "w/";
  running_directory = codes "r/";
  files = λ name.
      if bytes_eq name (codes "w/a.png") || bytes_eq name (codes "w/404.html")
      then some page
      else none;
  get_url_params_handler = λ parts w. w;
  http_request_handler = λ sock ps header body w. w;
  fresh = λ n. replicate n 0;
}

abbrev http_serving : Server Bytes
http_serving = record serving { tcp_send = http_send pipe }

abbrev image : Params
image = (codes "Sec-Fetch-Dest", codes "image") ∷ []

image-IsGet :
    IsGet pipe
      (pipe-IsStream 5 6)
      (λ bs w. refl)
      quiet
      http_serving
      default_limits
      shop
      50
      array
      (codes "a")
      (codes "png")
      image
unfolding join
image-IsGet =
    (ground arith, ground arith, ground arith, omega arith, omega arith, ground arith, ground arith)

is_there : shop.files (codes "w/a.png") ≡ some page
unfolding bytes_eq
is_there = refl

is_gone : get_file_size (shop.files (codes "w/b.png")) ≡ 0
unfolding bytes_eq get_file_size
is_gone = refl

not_found_page : shop.files (codes "w/404.html") ≡ some page
unfolding bytes_eq
not_found_page = refl

get_found_example :
    let header = request_line (dotted (codes "a") (codes "png")) in
    let type = purpose ((header, drop 1 header) ∷ image) in
    (w' : Bytes) × (client_message_handler pipe quiet http_serving default_limits shop 50 5 array
        (join line_end (header ∷ map field_line image))
        []
      ≡ done (some w'))
    × (w' ≡ [] ++ (with_ends (found_lines 4 type (codes "png")) ++ page))
get_found_example =
    get_found pipe (pipe-IsStream 5 6) (λ bs w. refl) quiet http_serving default_limits shop 50
      array (codes "a") (codes "png") page image [] image-IsGet refl is_client array_full is_there
      (omega arith) (omega arith)

other-IsGet :
    IsGet pipe
      (pipe-IsStream 5 6)
      (λ bs w. refl)
      quiet
      http_serving
      default_limits
      shop
      50
      array
      (codes "b")
      (codes "png")
      image
unfolding join
other-IsGet =
    (ground arith, ground arith, ground arith, omega arith, omega arith, ground arith, ground arith)

get_missing_example :
    (w' : Bytes) × (client_message_handler pipe quiet http_serving default_limits shop 50 5 array
        (join line_end (request_line (dotted (codes "b") (codes "png")) ∷ map field_line image))
        []
      ≡ done (some w'))
    × (w' ≡ [] ++ (with_ends (missing_lines 4) ++ page))
get_missing_example =
    get_missing pipe (pipe-IsStream 5 6) (λ bs w. refl) quiet http_serving default_limits shop 50
      array (codes "b") (codes "png") page image [] other-IsGet refl is_client array_full is_gone
      not_found_page (omega arith) (omega arith)
