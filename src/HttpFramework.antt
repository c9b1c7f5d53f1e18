-- ===== src/HttpFramework.antt =====
-- include/weblib/server/HttpFramework.hpp: what the process does on SIGINT. `app` installs the handler and gives
-- the one server, which is an argument here. Logging is left out.
use web_library.Base.{ℕ}
use web_library.HttpServer.{HttpServer, stop_server}

-- The server at std::exit, and the status of the process. The loop of the server is not left before.
pub record Exit : Type 0 where
  pub server : HttpServer
  pub status : ℕ

unfoldable pub sigint_handler : HttpServer → Exit
sigint_handler app = record { server = stop_server app; status = 0 }
