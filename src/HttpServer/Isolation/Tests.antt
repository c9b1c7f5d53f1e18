-- ===== src/HttpServer/Isolation/Tests.antt =====
-- server/HttpServer.cpp at a round in which one of two connections is read and another is accepted.
use web_library.Base.{List, [], ◌∷◌, ==_iff, ◌≡◌, refl, codes, true, some, arith}
use web_library.HttpServer.{
  Client, ClientMap, new_client, received, would_block, accepted, accept_failed, idle, ready,
  Polled, HttpServer, run_round, lookup_fd, read_request,
}
use web_library.HttpServer.Isolation.{share, Owned, run_round-Untouched}

abbrev waiting : Client
waiting = record (new_client 8) { raw_http = codes "GET /a" }

abbrev clients : ClientMap
clients = (7, new_client 7) ∷ (8, waiting) ∷ []

abbrev server : HttpServer
server = record {
  m_listen_socket = 3;
  is_running = true;
  poll_fds = 3 ∷ 7 ∷ 8 ∷ [];
  m_active_clients = clients;
  tasks = [];
}

abbrev reported : List Polled
reported = ready (accepted 9) would_block ∷ ready accept_failed (received []) ∷ idle ∷ []

abbrev later : HttpServer
later = record server {
  poll_fds = 3 ∷ 8 ∷ 9 ∷ [];
  m_active_clients = (8, waiting) ∷ (9, new_client 9) ∷ [];
}

clients-Owned : Owned clients
unfolding lookup_fd
clients-Owned fd c h = ground (arith, h, ==_iff 7 fd, ==_iff 8 fd)

run_round-Untouched_example :
    (lookup_fd 8 later.m_active_clients ≡ some waiting)
    × (share 8 later.tasks ≡ [])
    × Owned later.m_active_clients
unfolding lookup_fd run_round read_request web_library.HttpServer.erase_fd
    web_library.HttpServer.assign_fd web_library.HttpServer.emplace_fd
    web_library.HttpServer.client_at
run_round-Untouched_example =
    run_round-Untouched 8 reported server refl clients-Owned (refl, refl, (refl, tt, tt)) refl
