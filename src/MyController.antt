-- ===== src/MyController.antt =====
-- examples/CustomController.hpp: a controller of an application, by its constructor.
mod Handlers
pub mod Routes
mod Tests
unfoldable pub use Handlers.*
use web_library.Base.{List, [], ◌∷◌, codes, Result, ◌>>=◌}
use web_library.RequestType.{RequestType, get, options}
use web_library.HttpBinder.{HttpBinder}
use web_library.HttpController.{register_method}

-- The methods of each endpoint.
abbrev pub types : List RequestType
types = get ∷ options ∷ []

-- The constructor, on the table of the one HttpBinder.
unfoldable pub my_controller : HttpBinder → Result HttpBinder
my_controller b0 = do
  b1 ← register_method (codes "/courses") reg types b0
  b2 ← register_method (codes "/courses/{course_id}?name={name}&age={age}") test_r types b1
  b3 ← register_method (codes "/courses/{course_id}?name={name}&skill=big") test_r2 types b2
  register_method (codes "/courses/{course_id}/modules/{module_id}") smth2 types b3
