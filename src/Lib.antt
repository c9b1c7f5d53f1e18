-- ===== src/Lib.antt =====
-- The HTTP server library WebLibrary: its request path, from the bytes of a connection to the bytes of
-- the response.
--
-- How the parts work together. HttpServer polls the connections, collects the bytes of each until a
-- request is complete, and hands it to a thread of the pool. There HttpRouter cuts the request line
-- (utils), asks HttpBinder for the endpoint that has the method and matches the path, builds the
-- HttpRequest from the bytes (HttpHeaders for the header section, HttpQuery for the parameters of the
-- endpoint's template), runs the filters of the HttpHandle and then its handler, and answers errors
-- itself. A handler writes an HttpResponse, with its Cookie, through HttpResponseWriter. ThreadPool runs
-- the tasks that it is handed on its workers.
--
-- The files, by the code that they are about (a folder holds the lemmas of the file beside it):
--   Base         names that all modules share; std::string, size_t, std::unordered_map, std::stoi, and
--                include/weblib/exceptions.hpp
--   Json         the calls of jsoncpp, as a parameter; utils::error_response
--   Consts       include/weblib/consts.hpp
--   Utils        server/utils.cpp: process_url_str, trim, to_lowercase_str, extract_params,
--                parse_request_line
--   RequestType  include/weblib/server/RequestType.hpp
--   Cookie       include/weblib/server/Cookie.hpp, server/Cookie.cpp; Builder for CookieBuilder
--   HttpHeaders  server/HttpHeaders.cpp: extract_headers_from_str (add_line for a round of its loop),
--                parse_cookie, get_header, get_cookie, set_header
--   HttpQuery    server/HttpQuery.cpp: parse_from_string (bind_path and bind_query for its two loops),
--                get_query; include/weblib/server/Query.hpp
--   HttpRequest  server/HttpRequest.cpp: new_request for the constructor, and the members by their names
--   Socket       a connection that is written to, and the monad of the code that does so
--   HttpResponse server/HttpResponse.cpp: to_string, the setters, respond (write_from for its loop);
--                Builder for HttpResponseBuilder
--   Hash         include/weblib/server/hash.hpp
--   HttpHandle   server/HttpHandle.cpp: call for operator(), pass_all for the loop over the filters
--   HttpBinder   include/weblib/server/HttpBinder.hpp: register_handler, register_filter, match_path,
--                find_handle; Parts, Query and Accepts tell what match_path accepts without its helpers
--   HttpController include/weblib/server/HttpController.hpp: register_method; HttpFilter.hpp beside it:
--                register_filter, do_filter
--   HttpRouter   server/HttpRouter.cpp: handle_request (dispatch and run_handle for its branches),
--                process_request; Failed for the page that answers an exception
--   HttpServer   server/HttpServer.cpp: read_request, handle_incoming_request, stop_server, and
--                event_loop (loop_from from its test or from inside poll(), run_round for one pass over
--                poll_fds); Setup for server_setup and listen_start, Accept for the loop and its stop,
--                Chunks for the reads of one connection over many rounds, Switch for the switch on the
--                state of a client, Overflow for a Content-Length that is no int, Isolation for what a
--                round does to other connections, Workers for the loop with its pool, Delivery for the
--                whole way from a registration to an answer, Mixed for the same among other connections,
--                Repeat for a connection that sends on or closes
--   HttpFramework include/weblib/server/HttpFramework.hpp: sigint_handler
--   MyController examples/CustomController.hpp: its constructor and handlers
--   MyFilter     examples/CustomFilter.hpp, examples/CustomFilter2.hpp: the constructors, and the filter of
--                the second
--   ThreadPool   include/weblib/server/ThreadPool.hpp: the loop of a worker (turn), enqueue_task, clear,
--                queue_size and the destructor, as the steps of threads that share one state (Step);
--                settle, settle_void and settle_detached for the tasks of enqueue and enqueue_detach
--
-- The state of a class is a record, passed on explicitly; the singletons are arguments. Code that may
-- throw gives a Result, which has a third outcome for behaviour that the C++ standard leaves undefined;
-- code that writes to a socket gives an Outcome and the socket, which holds the bytes on the wire and
-- what the calls of send() and poll() to come will do. The calls of read(), accept(), poll() and of the
-- set-up of the listening socket are events that the server's functions take. A map is its entries in
-- the order of iteration. The threads of the pool are interleaved: a step is one thread's, from one
-- point where it tests, waits, locks or unlocks to the next, and the steps follow one another in any
-- order; wake-ups without a notification are steps too.
--
-- Bounds and fuel. Positions are size_t: sums and differences of positions are taken modulo 2 ^ 64, and
-- the results that need it ask for messages below 2 ^ 64 bytes, as any std::string is; the count of body
-- bytes is an int, whose conversion is modulo 2 ^ 32. The loops of process_url_str and extract_params
-- are recursions on fuel, the length of the text, which is enough since each round reads at least one
-- byte; print_nat has a round for every digit and one to spare. All other loops recurse on what they
-- read.
--
-- Not modelled: logging and other output, with the pauses of the examples; signal() and the start of the
-- process; the macros for controllers and filters, which call operations modelled here; the filter of
-- examples/CustomFilter.hpp, which calls a function that does not exist. Workers joins the server and the
-- pool in the order of the hand-overs; what a task reads of the clients, and the client that it may add,
-- while the loop changes them on its own thread is left out. The steps of ThreadPool end with the body of
-- its destructor: the destruction of the mutex, the condition variable and the queue, which is made before
-- the workers are joined, is not among them. A char is taken to be unsigned, which concerns the calls of
-- isspace alone.
pub mod Base
pub mod Json
pub mod Consts
pub mod Utils
pub mod RequestType
pub mod Cookie
pub mod HttpHeaders
pub mod HttpQuery
pub mod HttpRequest
pub mod Socket
pub mod HttpResponse
pub mod Hash
pub mod HttpHandle
pub mod HttpBinder
pub mod HttpController
pub mod HttpRouter
pub mod HttpServer
pub mod ThreadPool
pub mod MyController
pub mod MyFilter
pub mod HttpFramework
