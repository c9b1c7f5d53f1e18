-- ===== src/HttpServer/Setup/Tests.antt =====
-- server/HttpServer.cpp at system calls that succeed, and at a port that is taken.
use web_library.Base.{
  List, [], ◌∷◌, true, false, ◌&&◌, ◌||◌, some, none, is_some, pos, ◌≡◌, refl, negsuc,
}
use web_library.HttpServer.{
  new_client, would_block, read_request, accepted, idle, ready, HttpServer, event_loop, run_round,
  LoopEvent, polled, stopped,
}
use web_library.HttpServer.Accept.{Listens}
use web_library.HttpServer.Setup.{
  SocketCalls, Listener, server_setup, listen_start, calls_made, first_failure, server_setup_lem,
  listen_start-Listens, htons,
}

abbrev all_succeed : SocketCalls
all_succeed = record { socket = some 3; setsockopt = true; bind = true; listen = true }

abbrev port_taken : SocketCalls
port_taken = record { socket = some 3; setsockopt = true; bind = false; listen = true }

abbrev fresh : Listener
fresh = record { m_listen_socket = none; sin_port = []; is_running = false }

htons_test : (htons (pos 8080) ≡ 31 ∷ 144 ∷ []) × (htons (negsuc 0) ≡ 255 ∷ 255 ∷ [])
htons_test = (refl, refl)

server_setup_lem_example :
    ((server_setup port_taken (pos 8080) fresh).1.m_listen_socket ≡ some 3)
    × ((server_setup port_taken (pos 8080) fresh).1.is_running
        ≡ (false || (is_some port_taken.socket && (true && false))))
server_setup_lem_example = server_setup_lem port_taken (pos 8080) fresh

abbrev events : List LoopEvent
events = polled (ready (accepted 7) would_block ∷ []) ∷ stopped ∷ []

abbrev ended : HttpServer
ended = record {
  m_listen_socket = 3;
  is_running = false;
  poll_fds = 3 ∷ 7 ∷ [];
  m_active_clients = (7, new_client 7) ∷ [];
  tasks = [];
}

listen_start-Listens_example : (first_failure (calls_made all_succeed) ≡ none) × Listens [] ended
unfolding listen_start event_loop web_library.HttpServer.stop_server
    web_library.HttpServer.emplace_fd
listen_start-Listens_example =
    listen_start-Listens all_succeed (pos 8080) events [] [] fresh {s = ended} refl
