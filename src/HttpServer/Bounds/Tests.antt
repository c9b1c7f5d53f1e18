-- ===== src/HttpServer/Bounds/Tests.antt =====
-- server/HttpServer.cpp: a read behind the header section of a request with a body.
use web_library.Base.{List, [], ◌∷◌, ◌≡◌, refl, codes, true, ok}
use web_library.HttpServer.{new_client, State, ReadEvent, received, read_request}
use web_library.HttpServer.Read.{after_reads}
use web_library.HttpServer.Bounds.{read_request-after_reads}

abbrev reads : List ReadEvent
reads = received (codes "POST /a HTTP/1.1\r\nContent-Length: 4\r\n") ∷ received (codes "\r\na") ∷ []

-- The body is awaited.
reads_test : (after_reads reads (new_client 7)).is_in_body ≡ true
unfolding read_request web_library.Base.find_str web_library.HttpServer.read_content_length
    web_library.Base.substr web_library.HttpHeaders.extract_headers_from_str
    web_library.Base.get_lines web_library.Base.find web_library.Utils.trim web_library.Base.stoi
    web_library.HttpHeaders.get_header web_library.Base.lookup web_library.Base.bytes_eq
    web_library.Utils.to_lowercase_str web_library.Base.is_space web_library.Base.emplace
    web_library.Base.starts_with web_library.HttpServer.catch_invalid web_library.HttpServer.is_zero
reads_test = refl

read_request-after_reads_example :
    (state : State) × ((read_request (received (codes "b")) (after_reads reads (new_client 7))).0
      ≡ ok state)
read_request-after_reads_example =
    read_request-after_reads 7 reads (received (codes "b")) reads_test
