-- ===== src/MyController/Routes.antt =====
-- examples/CustomController.hpp: which endpoint of MyController a request reaches.
use web_library.Base.{
  List, [], ◌∷◌, true, false, some, Bytes, Dict, codes, length, lookup, Result, ok, All, ◌≡◌, ◌⊎◌,
  inl, inr, refl, sym, ap, subst, ◌∙◌,
}
use web_library.RequestType.{RequestType}
use web_library.HttpBinder.{HttpBinder, handle_for, match_path, find_handle}
use web_library.HttpBinder.Find.{In, here, there, Entry, Serves, Refuses, find_handle_only}
use web_library.HttpBinder.Apart.{apart_by_parts, apart_by_key, two_keys}
use web_library.HttpServer.Loop.{ok_injective}
use web_library.MyController.{types, reg, test_r, test_r2, smth2, my_controller}

abbrev all_courses : Bytes
all_courses = codes "/courses"

abbrev by_age : Bytes
by_age = codes "/courses/{}?name={}&age={}"

abbrev by_skill : Bytes
by_skill = codes "/courses/{}?name={}&skill=big"

abbrev modules : Bytes
modules = codes "/courses/{}/modules/{}"

-- The table that the constructor makes.
abbrev pub endpoints : HttpBinder
endpoints =
    (all_courses, handle_for all_courses reg types)
    ∷ (by_age, handle_for (codes "/courses/{course_id}?name={name}&age={age}") test_r types)
    ∷ (by_skill, handle_for (codes "/courses/{course_id}?name={name}&skill=big") test_r2 types)
    ∷ (modules, handle_for (codes "/courses/{course_id}/modules/{module_id}") smth2 types)
    ∷ []

my_controller-endpoints : my_controller [] ≡ ok endpoints
unfolding my_controller web_library.HttpController.register_method
    web_library.HttpBinder.register_handler web_library.Base.contains
    web_library.Utils.process_url_str web_library.Base.emplace web_library.Base.bytes_eq
    web_library.Base.find
my_controller-endpoints = refl

abbrev age_params : Dict Bytes
age_params = (codes "name", codes "{}") ∷ (codes "age", codes "{}") ∷ []

abbrev skill_params : Dict Bytes
skill_params = (codes "name", codes "{}") ∷ (codes "skill", codes "big") ∷ []

age_not_skill :
    (path : Bytes) → match_path by_age path ≡ ok true → match_path by_skill path ≡ ok false
unfolding web_library.Base.find web_library.HttpBinder.parse_query web_library.Base.split
    web_library.Base.emplace web_library.Base.bytes_eq
age_not_skill path =
    apart_by_key by_age by_skill path 11 11 age_params skill_params (codes "skill") (codes "big")
      refl refl refl refl (there here)
      (λ rs size ((v, at_name, ok_name), ((w, at_age, ok_age), done)).
        two_keys (codes "name") (codes "age") (codes "skill") rs v w refl refl refl size at_name
          at_age)

skill_not_age :
    (path : Bytes) → match_path by_skill path ≡ ok true → match_path by_age path ≡ ok false
unfolding web_library.Base.find web_library.HttpBinder.parse_query web_library.Base.split
    web_library.Base.emplace web_library.Base.bytes_eq
skill_not_age path =
    apart_by_key by_skill by_age path 11 11 skill_params age_params (codes "age") (codes "{}") refl
      refl refl refl (there here)
      (λ rs size ((v, at_name, ok_name), ((w, at_skill, ok_skill), done)).
        two_keys (codes "name") (codes "skill") (codes "age") rs v w refl refl refl size at_name
          at_skill)

-- Two different endpoints never match one path.
apart :
    (path : Bytes) (e x : Entry)
    → In e endpoints
    → In x endpoints
    → match_path e.0 path ≡ ok true
    → (match_path x.0 path ≡ ok false) ⊎ (x ≡ e)
unfolding web_library.HttpBinder.split_path web_library.Base.split web_library.Base.find
apart path e x here here matched = inr refl
apart path e x here (there here) matched = inl (apart_by_parts all_courses by_age path refl matched)
apart path e x here (there (there here)) matched =
    inl (apart_by_parts all_courses by_skill path refl matched)
apart path e x here (there (there (there here))) matched =
    inl (apart_by_parts all_courses modules path refl matched)
apart path e x (there here) here matched = inl (apart_by_parts by_age all_courses path refl matched)
apart path e x (there here) (there here) matched = inr refl
apart path e x (there here) (there (there here)) matched = inl (age_not_skill path matched)
apart path e x (there here) (there (there (there here))) matched =
    inl (apart_by_parts by_age modules path refl matched)
apart path e x (there (there here)) here matched =
    inl (apart_by_parts by_skill all_courses path refl matched)
apart path e x (there (there here)) (there here) matched = inl (skill_not_age path matched)
apart path e x (there (there here)) (there (there here)) matched = inr refl
apart path e x (there (there here)) (there (there (there here))) matched =
    inl (apart_by_parts by_skill modules path refl matched)
apart path e x (there (there (there here))) here matched =
    inl (apart_by_parts modules all_courses path refl matched)
apart path e x (there (there (there here))) (there here) matched =
    inl (apart_by_parts modules by_age path refl matched)
apart path e x (there (there (there here))) (there (there here)) matched =
    inl (apart_by_parts modules by_skill path refl matched)
apart path e x (there (there (there here))) (there (there (there here))) matched = inr refl
apart path e x here (there (there (there (there i)))) matched = elim i [ ]
apart path e x (there here) (there (there (there (there i)))) matched = elim i [ ]
apart path e x (there (there here)) (there (there (there (there i)))) matched = elim i [ ]
apart path e x (there (there (there here))) (there (there (there (there i)))) matched = elim i [ ]
apart path e x (there (there (there (there i)))) j matched = elim i [ ]

sorted :
    (e x : Entry) (path : Bytes) (type : RequestType)
    → (match_path x.0 path ≡ ok false) ⊎ (x ≡ e)
    → Serves path type e
    → Refuses path type x ⊎ ((x.1 ≡ e.1) × Serves path type x)
sorted e x path type (inl misses) serves = inl (inr misses)
sorted e x path type (inr same) serves =
    inr (ap (λ t. t.1) same, subst (Serves path type) (sym same) serves)

all_in : {A : Type 0} (P : A → Type 0) (xs : List A) → ((x : A) → In x xs → P x) → All P xs
all_in P [] h = tt
all_in P (x ∷ xs) h = (h x here, all_in P xs (λ y i. h y (there i)))

-- Registered alone, MyController has endpoints of which no two match one path: whatever the order in which
-- the table is iterated, the endpoint that has the method of a request and matches its path is the one
-- that is found.
pub my_controller-find_handle :
    (m order : HttpBinder) (e : Entry) (path : Bytes) (type : RequestType)
    → my_controller [] ≡ ok m
    → ((x : Entry) → In x order → In x m)
    → In e order
    → Serves path type e
    → find_handle path type order ≡ ok (some e.1)
my_controller-find_handle m order e path type made within i (has, matched) =
    let same : m ≡ endpoints = ok_injective (sym made ∙ my_controller-endpoints) in
    let there_too : (x : Entry) → In x order → In x endpoints =
      λ x j. subst (In x) same (within x j) in
    find_handle_only path type order e i (has, matched)
      (all_in _ order (λ x j.
        sorted e x path type (apart path e x (there_too e i) (there_too x j) matched)
          (has, matched)))
