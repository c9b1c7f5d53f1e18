-- ===== src/MyController/Tests.antt =====
-- examples/CustomController.hpp: a request for the courses of a name and a skill.
use web_library.Base.{[], ◌∷◌, codes, some, ok, ◌≡◌, refl}
use web_library.RequestType.{get}
use web_library.HttpBinder.{HttpBinder, handle_for, find_handle}
use web_library.HttpBinder.Find.{In, here, there, Entry}
use web_library.MyController.{types, reg, test_r, test_r2, smth2}
use web_library.MyController.Routes.{endpoints, my_controller-find_handle}

abbrev by_skill : Entry
by_skill = (
  codes "/courses/{}?name={}&skill=big",
  handle_for (codes "/courses/{course_id}?name={name}&skill=big") test_r2 types,
)

-- The endpoints in another order.
abbrev order : HttpBinder
order =
    by_skill
    ∷ (
      codes "/courses/{}/modules/{}",
      handle_for (codes "/courses/{course_id}/modules/{module_id}") smth2 types,
    )
    ∷ (codes "/courses", handle_for (codes "/courses") reg types)
    ∷ (
      codes "/courses/{}?name={}&age={}",
      handle_for (codes "/courses/{course_id}?name={name}&age={age}") test_r types,
    )
    ∷ []

order_within : (x : Entry) → In x order → In x endpoints
order_within x here = there (there here)
order_within x (there here) = there (there (there here))
order_within x (there (there here)) = here
order_within x (there (there (there here))) = there here
order_within x (there (there (there (there i)))) = elim i [ ]

my_controller-find_handle_example :
    find_handle (codes "/courses/7?skill=big&name=Ann") get order ≡ ok (some by_skill.1)
unfolding web_library.MyController.my_controller web_library.HttpController.register_method
    web_library.HttpBinder.register_handler web_library.Base.contains
    web_library.Utils.process_url_str web_library.Base.emplace web_library.Base.bytes_eq
    web_library.Base.find web_library.HttpHandle.has_method handle_for
    web_library.RequestType.type_eq web_library.HttpBinder.match_path
    web_library.HttpBinder.split_path web_library.Base.split web_library.HttpBinder.parse_query
my_controller-find_handle_example =
    my_controller-find_handle endpoints order by_skill (codes "/courses/7?skill=big&name=Ann") get
      refl order_within here (refl, refl)
