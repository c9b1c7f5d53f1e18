-- ===== src/HttpController.antt =====
-- include/weblib/server/HttpController.hpp and HttpFilter.hpp: the base classes by which an application
-- registers its handlers and filters with the one HttpBinder. Logging is left out.
use web_library.Base.{Bytes, List, Result}
use web_library.RequestType.{RequestType}
use web_library.HttpHandle.{Handler, Filter}
use web_library.HttpBinder.{HttpBinder, register_handler}
use web_library.HttpBinder

unfoldable pub register_method : Bytes → Handler → List RequestType → HttpBinder → Result HttpBinder
register_method path handler types binder = register_handler path handler types binder

unfoldable pub register_filter : Bytes → Filter → HttpBinder → Result HttpBinder
register_filter route filter binder = HttpBinder.register_filter route filter binder

-- The call of the derived class's function.
unfoldable pub do_filter : Filter → Filter
do_filter derived req = derived req
