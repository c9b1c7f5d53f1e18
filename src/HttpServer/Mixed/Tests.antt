-- ===== src/HttpServer/Mixed/Tests.antt =====
-- A connection that is accepted, and its request with a body, read beside another connection, which closes
-- while a third is accepted.
use web_library.Base.{
  ℕ, List, [], ◌∷◌, ◌++◌, ◌==◌, ==_iff, ◌≡◌, inl, inr, refl, codes, ok, Bytes, true, pos, npos,
  arith, lacks_sound,
}
use web_library.RequestType.{post}
use web_library.HttpRequest.{new_request}
use web_library.HttpResponse.{set_body, new_response, to_string}
use web_library.HttpBinder.{handle_for}
use web_library.HttpRouter.Branches.{Answered}
use web_library.HttpServer.{
  ClientMap, Client, new_client, ReadEvent, received, would_block, accepted, accept_failed, Polled,
  idle, ready, HttpServer, run_round, read_request, handle_incoming_request, lookup_fd,
}
use web_library.HttpServer.Delivery.Tests.{
  json, sock, hello, say_hello, table, table', parsed, four, line-IsLine, four-IsMessageHeader,
}
use web_library.HttpServer.Isolation.{Owned, share}
use web_library.HttpServer.Mixed.{Rounds, done, mine, others}
use web_library.HttpServer.Mixed.Life.{accepted-Answered}

abbrev first : Bytes
first = codes "OST /a HTTP/1.1\r\nContent-Length: 4\r\n\r\nab"

abbrev before : HttpServer
before = record {
  m_listen_socket = 3;
  is_running = true;
  poll_fds = 3 ∷ 8 ∷ 7 ∷ [];
  m_active_clients = (8, new_client 8) ∷ (7, new_client 7) ∷ [];
  tasks = [];
}

abbrev half_read : Client
half_read = record (new_client 7) {
  raw_http = b'P' ∷ first;
  content_length = pos 4;
  is_in_body = true;
  header_end_pos = 35;
}

-- Both connections are read.
abbrev at_both : List Polled
at_both =
    idle
    ∷ ready accept_failed (received (codes "GET "))
    ∷ ready accept_failed (received (b'P' ∷ first))
    ∷ []

abbrev asking : Client
asking = record (new_client 8) { raw_http = codes "GET "; header_end_pos = npos }

abbrev s1 : HttpServer
s1 = record before { m_active_clients = (8, asking) ∷ (7, half_read) ∷ [] }

-- The other connection closes, and a third is accepted.
abbrev at_others : List Polled
at_others = ready (accepted 9) would_block ∷ ready accept_failed (received []) ∷ idle ∷ []

abbrev s2 : HttpServer
s2 = record before {
  poll_fds = 3 ∷ 7 ∷ 9 ∷ [];
  m_active_clients = (7, half_read) ∷ (9, new_client 9) ∷ [];
}

abbrev at_last : List Polled
at_last = idle ∷ ready accept_failed (received (codes "cd")) ∷ []

abbrev all_read : Client
all_read = record half_read { raw_http = (b'P' ∷ first) ++ codes "cd"; body_bytes_rd = pos 4 }

abbrev s3 : HttpServer
s3 = record s2 { m_active_clients = (7, all_read) ∷ (9, new_client 9) ∷ []; tasks = 7 ∷ [] }

abbrev s0 : HttpServer
s0 = record before { poll_fds = 3 ∷ 8 ∷ []; m_active_clients = (8, new_client 8) ∷ [] }

abbrev at_accept : List Polled
at_accept = ready (accepted 7) would_block ∷ idle ∷ []

s0-Owned : Owned s0.m_active_clients
unfolding lookup_fd
s0-Owned fd c h = ground (arith, h, ==_iff 8 fd)

s0-run : run_round at_accept s0 ≡ ok before
unfolding run_round web_library.HttpServer.emplace_fd
s0-run = refl

before-run : run_round at_both before ≡ ok s1
unfolding run_round read_request web_library.HttpServer.client_at lookup_fd
    web_library.Base.find_str web_library.HttpServer.assign_fd
    web_library.HttpServer.read_content_length web_library.Base.substr
    web_library.HttpHeaders.extract_headers_from_str web_library.Base.get_lines
    web_library.Base.find web_library.Utils.trim web_library.Base.stoi
    web_library.HttpHeaders.get_header web_library.Base.lookup web_library.Base.bytes_eq
    web_library.Utils.to_lowercase_str web_library.Base.is_space web_library.Base.emplace
    web_library.Base.starts_with web_library.HttpServer.catch_invalid web_library.HttpServer.is_zero
before-run = refl

s1-run : run_round at_others s1 ≡ ok s2
unfolding run_round read_request web_library.HttpServer.erase_fd web_library.HttpServer.assign_fd
    web_library.HttpServer.emplace_fd web_library.HttpServer.client_at lookup_fd
s1-run = refl

s2-run : run_round at_last s2 ≡ ok s3
unfolding run_round read_request web_library.HttpServer.client_at lookup_fd
    web_library.HttpServer.leb_int web_library.HttpServer.to_int web_library.HttpServer.assign_fd
s2-run = refl

run : Rounds 7 (received (b'P' ∷ first) ∷ received (codes "cd") ∷ []) before s3
run = mine {s = before} {s1 = s1} at_both (inl (refl, tt, inr (refl, refl, tt))) before-run (
    others {s = s1} {s1 = s2} at_others (refl, refl, (refl, tt, tt)) s1-run
      (mine {s = s2} {s1 = s3} at_last (inr (refl, refl, tt)) s2-run done))

accepted-Answered_example :
    (share 7 s3.tasks ≡ 7 ∷ [])
    × Answered hello sock ((handle_incoming_request json table' s3.m_active_clients 7).1 sock)
unfolding lookup_fd web_library.HttpBinder.register_handler web_library.Base.contains
    web_library.Base.bytes_eq web_library.Utils.process_url_str web_library.Base.emplace
    web_library.RequestType.type_eq web_library.HttpBinder.match_path
    web_library.HttpBinder.split_path web_library.Base.split web_library.Base.find new_request
    web_library.Base.substr web_library.Base.find_str
    web_library.HttpHeaders.extract_headers_from_str web_library.Base.get_lines
    web_library.Utils.trim web_library.HttpQuery.parse_from_string web_library.Base.lookup
    web_library.Base.find_last_of handle_for web_library.Utils.extract_params
    web_library.Utils.to_lowercase_str web_library.RequestType.req_type_from_str to_string set_body
    new_response web_library.Base.print_nat web_library.Base.print_int
    web_library.HttpServer.catch_invalid web_library.HttpHandle.has_method
    web_library.HttpServer.is_zero web_library.Base.stoi
accepted-Answered_example =
    accepted-Answered json (codes "/a") say_hello (post ∷ []) table {m_handles' = table'}
      {key = codes "/a"} s0 before s3 at_accept 7 (received (b'P' ∷ first) ∷ []) b'c' (codes "d")
      (codes "POST") (codes "/a") (codes "1.1") four [] (codes "abcd") parsed hello sock refl refl
      refl refl refl (inr refl, tt) line-IsLine four-IsMessageHeader (omega arith) (omega arith)
      refl refl refl refl refl refl s0-Owned refl (inl (refl, refl, tt)) s0-run run
      (lacks_sound 32 (codes "POST") refl) (lacks_sound 32 (codes "/a") refl) refl refl
      ((tt, (tt, tt)), omega arith)
