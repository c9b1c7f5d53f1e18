-- ===== src/MyController/Handlers.antt =====
-- examples/CustomController.hpp: the handlers of MyController. Their output on the console and the pause of
-- `reg` are left out.
use web_library.Base.{Bytes, codes}
use web_library.Socket.{◌>>=◌, lift}
use web_library.HttpQuery.{as_int}
use web_library.HttpRequest.{get_query}
use web_library.HttpResponse.{HttpResponse, text, respond}
use web_library.HttpResponse.Builder.{new_builder, set_content_type, set_body_str, build}
use web_library.HttpHandle.{Handler}

unfoldable pub reg : Handler
reg req = respond (build (set_body_str (codes "Hello friend") new_builder))

abbrev pub text_page : Bytes → HttpResponse
text_page body = build (set_body_str body (set_content_type text new_builder))

-- The age is converted before anything is sent; the name is only printed.
unfoldable pub test_r : Handler
test_r req = do
  age ← lift (as_int (get_query (codes "age") req))
  respond (text_page (codes "test"))

unfoldable pub test_r2 : Handler
test_r2 req = respond (text_page (codes "test"))

-- This handler is not registered.
unfoldable pub smth : Handler
smth req = respond (text_page (codes "dasasds"))

unfoldable pub smth2 : Handler
smth2 req = respond (text_page (codes "sdadasdasdas"))
