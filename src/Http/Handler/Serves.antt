-- ===== src/Http/Handler/Serves.antt =====
-- A GET of a file that is there, and of one that is not.
use easy_network.Base.{
  sym, append_assoc, ap₂, ℕ, ◌*◌, ◌^◌, ◌≤◌, ◌<◌, ◌≡◌, refl, ap, ◌∙◌, Bool, true, false, some, List,
  [], ◌∷◌, ◌++◌, map, arith, Bytes, codes, length, length-append, drop, All, ◌==◌, done,
}
use easy_network.Net.{Sockets, IsStream, sent}
use easy_network.Tcp.{Limits}
use easy_network.TcpServer.{Server, Host, find_socket}
use easy_network.Text.Parts.{join}
use easy_network.Text.Clean.{Lacks}
use easy_network.Transfer.Send.{bytes_eq}
use easy_network.Http.{line_end, Params, parse_http_request}
use easy_network.Http.Lines.{HasNoReturn}
use easy_network.Http.Parse.{field_line, IsField, parse_http_request_finds}
use easy_network.Http.Respond.{chunk_size}
use easy_network.Http.Respond.Sends.{send_responce_sends}
use easy_network.Http.Handler.{
  extension, get_file_size, requested_data_type, ok_head, not_found_head, Site, default_directory,
  full_file_name, send_file_with, respond, handle_get, client_message_handler, http_send,
}
use easy_network.Http.Handler.Head.{
  with_ends, found_lines, missing_lines, not_found_head-lines, ok_head-lines, extension-dot,
  purpose, purpose_lem,
}
use easy_network.Http.Handler.Request.{
  request_line, dotted, IsPlain, Plain-Lacks, type-same, request-Lacks, join_longer, size_of,
  header-words, target-parts, one_dot, full_name, path-name,
}

module _ (net : Sockets) {sock to : ℕ} (s : IsStream net sock to)
    (takes_all : (bs : Bytes) (w : net.World) → (net.send sock bs w).0 ≡ sent (length bs))
    (host : Host net.World) (sv : Server net.World) (limits : Limits) (site : Site net.World)
    (fuel : ℕ) (buf : Bytes) where
  open s use {unread}

  get_responds :
      (stem ext header : Bytes) (more : List Bytes) (ps : Params) (w : net.World)
      → IsPlain (dotted stem ext)
      → Lacks b'.' stem
      → Lacks b'.' ext
      → length (request_line (dotted stem ext)) < fuel
      → length (request_line (dotted stem ext)) < 2 ^ 63
      → handle_get net host sv limits site fuel sock buf ps header
          (codes "GET" ∷ (b'/' ∷ dotted stem ext) ∷ more)
          w
        ≡ respond net host sv limits site fuel sock buf ps
            (default_directory site.web_files_path site.running_directory ++ dotted stem ext)
            w
  unfolding handle_get full_file_name
  get_responds stem ext header more ps w plain h h' enough small =
      let name = dotted stem ext in
      let size = length-append name (codes " HTTP/1.1") in
      let size' = length-append stem (b'.' ∷ ext) in
      let some_byte : 1 ≤ length name = omega arith in
      rw
        (
          handle_get,
          target-parts fuel name plain enough,
          path-name site.web_files_path name some_byte (omega arith),
          one_dot fuel stem ext h h' (omega arith),
          full_name name some_byte,
        )
        refl

  handler_gets :
      (message name : Bytes) (ps : Params) (w : net.World)
      → IsPlain name
      → length (request_line name) < fuel
      → parse_http_request fuel message ≡ done (some (request_line name, ps))
      → client_message_handler net host sv limits site fuel sock buf message w
        ≡ handle_get net host sv limits site fuel sock buf ps
            (request_line name)
            (codes "GET" ∷ (b'/' ∷ name) ∷ codes "HTTP/1.1" ∷ [])
            w
  unfolding client_message_handler bytes_eq
  handler_gets message name ps w plain enough p =
      rw (client_message_handler, p, header-words fuel name plain enough) refl

  file_sent :
      (head content : Bytes) (name : Bytes) (w : net.World)
      → sv.tcp_send ≡ http_send net
      → find_socket sock sv.client_sockets ≡ true
      → length buf ≡ chunk_size
      → site.files name ≡ some content
      → length content < chunk_size * fuel
      → (w' : net.World) × (send_file_with net host sv limits site fuel sock buf head name w
          ≡ done (some w'))
        × (unread w' ≡ unread w ++ (head ++ content))
  unfolding http_send
  file_sent head content name w e client l f enough =
      let sends : (sv.tcp_send sock head w).1 ≡ (net.send sock head w).1 =
        ap (λ (g : ℕ → Bytes → net.World → Bool × net.World). (g sock head w).1) e in
      let (w', p, q) =
        send_responce_sends net s takes_all host sv fuel head content buf w sends client l enough in
      (w', rw (f, p) refl, q)

  respond_found :
      (ps : Params) (name content : Bytes) (w : net.World)
      → site.files name ≡ some content
      → 1 ≤ length content
      → respond net host sv limits site fuel sock buf ps name w
        ≡ send_file_with net host sv limits site fuel sock buf
            (ok_head (length content) (requested_data_type ps) name)
            name
            w
  unfolding respond get_file_size
  respond_found ps name content w f h =
      let size : (length content == 0) ≡ false = ground arith in rw (respond, f, size) refl

  respond_missing :
      (ps : Params) (name page : Bytes) (w : net.World)
      → get_file_size (site.files name) ≡ 0
      → site.files (site.web_files_path ++ codes "404.html") ≡ some page
      → 1 ≤ length page
      → respond net host sv limits site fuel sock buf ps name w
        ≡ send_file_with net host sv limits site fuel sock buf
            (not_found_head (length page))
            (site.web_files_path ++ codes "404.html")
            w
  unfolding respond
  respond_missing ps name page w none_there f h =
      let size : (length page == 0) ≡ false = ground arith in
      let there = size_of (site.files (site.web_files_path ++ codes "404.html")) page f in
      rw (respond, none_there, there, size) refl

  -- The conditions on a GET with the name `stem.ext` and the fields: none of them holds the end of a line, the name no
  -- other byte that the server looks for, and the request is short enough for the fuel.
  abbrev pub IsGet : Bytes → Bytes → Params → Type 0
  IsGet stem ext fields =
      IsPlain (dotted stem ext)
      × Lacks b'.' stem
      × Lacks b'.' ext
      × (length (join line_end (request_line (dotted stem ext) ∷ map field_line fields)) < fuel)
      × (length (request_line (dotted stem ext)) < 2 ^ 63)
      × All IsField fields
      × All HasNoReturn (map field_line fields)

  request_handled :
      (stem ext : Bytes) (fields : Params) (w : net.World)
      → IsGet stem ext fields
      → let header = request_line (dotted stem ext) in
        (ps : Params) × (client_message_handler net host sv limits site fuel sock buf
            (join line_end (header ∷ map field_line fields))
            w
          ≡ respond net host sv limits site fuel sock buf ps
              (default_directory site.web_files_path site.running_directory ++ dotted stem ext)
              w)
        × (requested_data_type ps ≡ requested_data_type ((header, drop 1 header) ∷ fields))
  request_handled stem ext fields w (plain, h, h', enough, small, hs, lines) =
      let name = dotted stem ext in
      let header = request_line name in
      let long : length header < fuel =
        omega (arith, join_longer line_end header (map field_line fields)) in
      let (ps, p, q) =
        parse_http_request_finds fuel header fields enough
          (request-Lacks b':' name (ground arith) (ground arith)
            (Plain-Lacks b':' name (λ c x. x.2) plain))
          (omega arith) small
          (request-Lacks 13 name (ground arith) (ground arith)
            (Plain-Lacks 13 name (λ c x. x.0) plain))
          hs lines in
      (
        ps,
        handler_gets (join line_end (header ∷ map field_line fields)) name ps w plain long p
            ∙ get_responds stem ext header (codes "HTTP/1.1" ∷ []) ps w plain h h' long small,
        type-same ps ((header, drop 1 header) ∷ fields) q,
      )

  extension-name :
      (stem ext : Bytes)
      → Lacks b'.' ext
      → extension (default_directory site.web_files_path site.running_directory ++ dotted stem ext)
        ≡ ext
  extension-name stem ext h =
      let dir = default_directory site.web_files_path site.running_directory in
      ap extension (sym (append_assoc dir stem (b'.' ∷ ext))) ∙ extension-dot (dir ++ stem) ext h

  -- A GET for a file that is there and not empty, in the directory of the server, is answered with the status
  -- 200, the media type that the table gives for the request's Sec-Fetch-Dest and the file's extension, the
  -- length of the file, the end of the connection and an empty line, and then the file itself.
  -- The name has one dot; the socket is a client's, its functions are those of the HTTP server and it takes
  -- everything; and the fuel is enough for the request and for the chunks of the file.
  pub get_found :
      (stem ext content : Bytes) (fields : Params) (w : net.World)
      → IsGet stem ext fields
      → sv.tcp_send ≡ http_send net
      → find_socket sock sv.client_sockets ≡ true
      → length buf ≡ chunk_size
      → site.files (default_directory site.web_files_path site.running_directory ++ dotted stem ext)
        ≡ some content
      → 1 ≤ length content
      → length content < chunk_size * fuel
      → let header = request_line (dotted stem ext) in
        let type = purpose ((header, drop 1 header) ∷ fields) in
        (w' : net.World) × (client_message_handler net host sv limits site fuel sock buf
            (join line_end (header ∷ map field_line fields))
            w
          ≡ done (some w'))
        × (unread w' ≡ unread w ++ (with_ends (found_lines (length content) type ext) ++ content))
  get_found stem ext content fields w get e client l f some_byte enough =
      let name = default_directory site.web_files_path site.running_directory ++ dotted stem ext in
      let (ps, p, q) = request_handled stem ext fields w get in
      let (w', r, u) =
        file_sent (ok_head (length content) (requested_data_type ps) name) content name w e client l
          f enough in
      (
        w',
        p ∙ respond_found ps name content w f some_byte ∙ r,
        u
            ∙ ap (λ (t : Bytes). unread w ++ (t ++ content))
                (ok_head-lines (length content) (requested_data_type ps) name)
            ∙ ap₂
                (λ (t x : Bytes).
                  unread w ++ (with_ends (found_lines (length content) t x) ++ content))
                (q ∙ purpose_lem _) (extension-name stem ext (get.2)),
      )

  -- A GET for a file that is missing or empty is answered with the status 404, the media type of HTML, the length
  -- of 404.html, the end of the connection and an empty line, and then 404.html, if that is there and not empty; under the same conditions on the request and the socket.
  pub get_missing :
      (stem ext page : Bytes) (fields : Params) (w : net.World)
      → IsGet stem ext fields
      → sv.tcp_send ≡ http_send net
      → find_socket sock sv.client_sockets ≡ true
      → length buf ≡ chunk_size
      → get_file_size (
          site.files
            (default_directory site.web_files_path site.running_directory ++ dotted stem ext))
        ≡ 0
      → site.files (site.web_files_path ++ codes "404.html") ≡ some page
      → 1 ≤ length page
      → length page < chunk_size * fuel
      → (w' : net.World) × (client_message_handler net host sv limits site fuel sock buf
            (join line_end (request_line (dotted stem ext) ∷ map field_line fields))
            w
          ≡ done (some w'))
        × (unread w' ≡ unread w ++ (with_ends (missing_lines (length page)) ++ page))
  get_missing stem ext page fields w get e client l gone f some_byte enough =
      let name = default_directory site.web_files_path site.running_directory ++ dotted stem ext in
      let not_found = site.web_files_path ++ codes "404.html" in
      let (ps, p, q) = request_handled stem ext fields w get in
      let (w', r, u) =
        file_sent (not_found_head (length page)) page not_found w e client l f enough in
      (
        w',
        p ∙ respond_missing ps name page w gone f some_byte ∙ r,
        u ∙ ap (λ (t : Bytes). unread w ++ (t ++ page)) (not_found_head-lines (length page)),
      )
