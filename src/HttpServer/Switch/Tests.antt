-- ===== src/HttpServer/Switch/Tests.antt =====
-- server/HttpServer.cpp at a connection that its peer closes.
use web_library.Base.{ℕ, [], ◌∷◌, ◌++◌, ◌==◌, ◌≡◌, refl, codes, true, none, ok, if◌then◌else◌}
use web_library.HttpServer.{
  Client, new_client, received, accept_failed, ready, HttpServer, run_round, lookup_fd,
  connection_aborted, read_request,
}
use web_library.HttpServer.Serve.{idles}
use web_library.HttpServer.Switch.{run_round-Switched}

abbrev waiting : Client
waiting = record (new_client 8) { raw_http = codes "GET /a" }

abbrev server : HttpServer
server = record {
  m_listen_socket = 3;
  is_running = true;
  poll_fds = 3 ∷ 7 ∷ 8 ∷ 9 ∷ [];
  m_active_clients = (7, new_client 7) ∷ (8, waiting) ∷ [];
  tasks = 7 ∷ [];
}

run_round-Switched_example :
    (s' : HttpServer) × (run_round
        (idles (3 ∷ 7 ∷ []) ++ ready accept_failed (received []) ∷ [])
        server
      ≡ ok s')
    × ((s'.poll_fds ≡ 3 ∷ 7 ∷ 9 ∷ [])
        × (s'.tasks ≡ 7 ∷ [])
        × ((j : ℕ)
            → lookup_fd j s'.m_active_clients
              ≡ (if 8 == j then none else lookup_fd j server.m_active_clients))
        × (s'.m_listen_socket ≡ 3)
        × (s'.is_running ≡ true))
unfolding lookup_fd read_request
run_round-Switched_example =
    run_round-Switched server (3 ∷ 7 ∷ []) (9 ∷ []) 8 accept_failed (received []) waiting waiting
      connection_aborted refl refl refl refl refl
