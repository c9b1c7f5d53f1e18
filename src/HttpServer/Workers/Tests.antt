-- ===== src/HttpServer/Workers/Tests.antt =====
-- server/HttpServer.cpp at one request and a pool of one worker.
use web_library.Base.{ℕ, ◌<◌, List, [], ◌∷◌, ◌++◌, ◌≡◌, refl, codes, true, ok, Bytes, arith}
use web_library.HttpServer.{
  Client, ClientMap, new_client, received, accept_failed, idle, ready, HttpServer, Polled,
  run_round, read_request,
}
use web_library.ThreadPool.{ThreadPool, new_pool, push_task, enqueue_alone}
use web_library.ThreadPool.Effort.{Turns}
use web_library.HttpServer.Workers.{
  WorkersReach, begins, goes_on, loops, hands_over, WorkersReach-tasks, WorkersReach-begun,
}

abbrev request : Bytes
request = codes "GET /a HTTP/1.1\r\nHost: x\r\n\r\n"

abbrev server : HttpServer
server = record {
  m_listen_socket = 3;
  is_running = true;
  poll_fds = 3 ∷ 7 ∷ [];
  m_active_clients = (7, new_client 7) ∷ [];
  tasks = [];
}

abbrev reported : List Polled
reported = idle ∷ ready accept_failed (received request) ∷ []

abbrev complete : Client
complete = (read_request (received request) (new_client 7)).1

abbrev served : HttpServer
served = record server { m_active_clients = (7, complete) ∷ []; tasks = 7 ∷ [] }

served-round : run_round reported server ≡ ok served
unfolding run_round read_request web_library.HttpServer.client_at web_library.HttpServer.lookup_fd
    web_library.Base.find_str web_library.HttpServer.read_content_length web_library.Base.substr
    web_library.HttpHeaders.extract_headers_from_str web_library.Base.get_lines
    web_library.Base.find web_library.Utils.trim web_library.Base.stoi
    web_library.HttpHeaders.get_header web_library.Base.lookup web_library.Base.bytes_eq
    web_library.Utils.to_lowercase_str web_library.Base.emplace web_library.HttpServer.assign_fd
    web_library.HttpServer.catch_invalid web_library.HttpServer.is_zero
served-round = refl

abbrev handed : ThreadPool ℕ
handed = push_task 7 new_pool

handed-WorkersReach : WorkersReach 1 (record { server = served; pool = handed })
unfolding new_pool push_task
handed-WorkersReach =
    goes_on (goes_on (begins server refl) (loops reported served-round))
      (hands_over 7 [] refl (enqueue_alone 7 refl (λ i lt. refl)) refl)

WorkersReach-tasks_example : (more : List ℕ) × (7 ∷ [] ≡ (handed.started ++ handed.m_tasks) ++ more)
WorkersReach-tasks_example = WorkersReach-tasks handed-WorkersReach

WorkersReach-begun_example :
    (k : ℕ) × ((q : ThreadPool ℕ) × (Turns 1 k handed q × (q.started ≡ 7 ∷ [])))
unfolding push_task new_pool
WorkersReach-begun_example = WorkersReach-begun handed-WorkersReach (omega arith) refl
