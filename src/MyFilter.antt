-- ===== src/MyFilter.antt =====
-- examples/CustomFilter.hpp and examples/CustomFilter2.hpp: filters of an application, by their
-- constructors. The function do_filter of MyFilter calls HttpRequest::add_header, which does not exist, and is
-- a parameter; the output of the other one on the console is left out.
use web_library.Base.{codes, Result, ok, is_some}
use web_library.HttpRequest.{get_header}
use web_library.HttpHandle.{Filter}
use web_library.HttpBinder.{HttpBinder}
use web_library.HttpController.{register_filter}

unfoldable pub my_filter : Filter → HttpBinder → Result HttpBinder
my_filter do_filter binder = register_filter (codes "/smth/{id}?name={name}") do_filter binder

-- MyFilter2::do_filter
unfoldable pub do_filter : Filter
do_filter req = ok (is_some (get_header (codes "Goida") req))

unfoldable pub my_filter2 : HttpBinder → Result HttpBinder
my_filter2 binder = register_filter (codes "/zov") do_filter binder
