-- ===== src/RequestType/Tests.antt =====
-- include/weblib/server/RequestType.hpp at names of methods.
use web_library.Base.{◌≡◌, refl, codes}
use web_library.RequestType.{put, get, req_type_to_str, req_type_from_str}

name_tests :
    (req_type_to_str put ≡ codes "PUT")
    × (req_type_from_str (codes "PUT") ≡ put)
    × (req_type_from_str (codes "BREW") ≡ get)
unfolding req_type_to_str req_type_from_str web_library.Base.bytes_eq
name_tests = (refl, refl, refl)
