-- ===== src/HttpBinder/Tables/Tests.antt =====
-- include/weblib/server/HttpBinder.hpp: two handlers and a filter, registered one after another.
use web_library.Base.{[], ◌∷◌, ◌≡◌, refl, codes, true, ok, All, Unique}
use web_library.RequestType.{get, post}
use web_library.Socket.{lift}
use web_library.HttpHandle.{Handler, Filter, add_filter}
use web_library.HttpBinder.{HttpBinder, handle_for, register_handler, register_filter}
use web_library.HttpBinder.Tables.{
  Made, at_first, by_handler, by_filter, WellFormed, Made-WellFormed,
}

abbrev silent : Handler
silent req = lift (ok tt)

abbrev pass : Filter
pass req = ok true

abbrev one : HttpBinder
one = (codes "/a/{}", handle_for (codes "/a/{id}") silent (get ∷ [])) ∷ []

abbrev two : HttpBinder
two =
    (codes "/a/{}", handle_for (codes "/a/{id}") silent (get ∷ []))
    ∷ (codes "/b", handle_for (codes "/b") silent (post ∷ []))
    ∷ []

abbrev table : HttpBinder
table =
    (codes "/a/{}", add_filter pass (handle_for (codes "/a/{id}") silent (get ∷ [])))
    ∷ (codes "/b", handle_for (codes "/b") silent (post ∷ []))
    ∷ []

made_one : register_handler (codes "/a/{id}") silent (get ∷ []) [] ≡ ok one
unfolding register_handler web_library.Base.contains web_library.Utils.process_url_str
    web_library.Base.find web_library.Base.emplace
made_one = refl

made_two : register_handler (codes "/b") silent (post ∷ []) one ≡ ok two
unfolding register_handler web_library.Base.contains web_library.Base.bytes_eq
    web_library.Utils.process_url_str web_library.Base.emplace
made_two = refl

made_table : register_filter (codes "/a/{name}") pass two ≡ ok table
unfolding register_filter web_library.Utils.process_url_str web_library.Base.find
    web_library.Base.lookup web_library.Base.bytes_eq web_library.Base.assign
made_table = refl

table-Made : Made table
table-Made = by_filter {b = two} (codes "/a/{name}") pass made_table (
    by_handler {b = one} (codes "/b") silent (post ∷ []) made_two
      (by_handler {b = []} (codes "/a/{id}") silent (get ∷ []) made_one at_first))

Made-WellFormed_example : Unique table × All WellFormed table
Made-WellFormed_example = Made-WellFormed table table-Made
