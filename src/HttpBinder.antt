-- ===== src/HttpBinder.antt =====
-- include/weblib/server/HttpBinder.hpp: the table of endpoints. The order of the table is that in which
-- the unordered_map is iterated. The table is the state of the class's one instance.
pub mod Match
pub mod Find
pub mod Register
pub mod Apart
pub mod Parts
pub mod Query
pub mod Accepts
pub mod Tables
mod Tests
use web_library.Base.{
  ℕ, suc, List, [], ◌∷◌, Bool, true, false, not, ◌&&◌, ◌||◌, ◌==◌, Option, none, some, Bytes, codes,
  take, drop, length, find, is_empty, bytes_eq, if◌then◌else◌, Result, ok, throw, undefined,
  endpoint_already_set, filter_before_controller, ◌>>=◌, split, zip, Dict, lookup, contains,
  emplace, assign,
}
use web_library.Utils.{process_url_str, extract_params}
use web_library.RequestType.{RequestType}
use web_library.HttpHandle.{
  HttpHandle, Handler, Filter, new_handle, add_filter, set_handle_method, add_http_method,
  set_parameters, set_path, has_method,
}

abbrev pub HttpBinder : Type 0
HttpBinder = Dict HttpHandle

add_methods : List RequestType → HttpHandle → HttpHandle
add_methods [] h = h
add_methods (type ∷ types) h = add_methods types (add_http_method type h)

-- The handle that `register_handler` builds.
unfoldable pub handle_for : Bytes → Handler → List RequestType → HttpHandle
unfolding add_methods new_handle add_http_method set_handle_method set_parameters set_path
handle_for endpoint_name handler types = set_path endpoint_name (
    set_parameters (extract_params endpoint_name)
      (set_handle_method handler (add_methods types new_handle)))

-- The test is for the name as it is given, the entry is stored under the processed name.
unfoldable pub register_handler :
    Bytes → Handler → List RequestType → HttpBinder → Result HttpBinder
register_handler endpoint_name handler types m_handles =
    if contains endpoint_name m_handles
    then throw endpoint_already_set
    else (process_url_str endpoint_name >>= λ key.
        ok (emplace key (handle_for endpoint_name handler types) m_handles))

unfoldable pub register_filter : Bytes → Filter → HttpBinder → Result HttpBinder
register_filter route filter m_handles = process_url_str route >>= λ key.
    elim (lookup key m_handles) [
      | none ↦ throw filter_before_controller
      | some handle ↦ ok (assign key (add_filter filter handle) m_handles)
    ]

pub drop_empty : List Bytes → List Bytes
drop_empty [] = []
drop_empty (part ∷ parts) =
    let rest = drop_empty parts in if is_empty part then rest else part ∷ rest

unfoldable pub split_path : Bytes → List Bytes
unfolding drop_empty
split_path str = drop_empty (split b'/' str)

pub last : Bytes → List Bytes → Bytes
last x [] = x
last x (y ∷ ys) = last y ys

-- `front` and `back` of an empty vector are undefined.
pub emplace_pair : List Bytes → Dict Bytes → Result (Dict Bytes)
emplace_pair [] params = undefined
emplace_pair (key ∷ rest) params = ok (emplace key (last key rest) params)

pub emplace_pairs : List Bytes → Dict Bytes → Result (Dict Bytes)
emplace_pairs [] params = ok params
emplace_pairs (pair ∷ pairs) params = emplace_pair (split b'=' pair) params >>= emplace_pairs pairs

unfoldable pub parse_query : Bytes → Result (Dict Bytes)
unfolding emplace_pairs emplace_pair last
parse_query query = emplace_pairs (split b'&' query) []

abbrev pub wildcard : Bytes
wildcard = codes "{}"

part_matches : Bytes → Bytes → Bool
part_matches pp rp = bytes_eq pp wildcard || bytes_eq pp rp

parts_match : List (Bytes × Bytes) → Bool
parts_match [] = true
parts_match ((pp, rp) ∷ parts) = part_matches pp rp && parts_match parts

-- `value != "{}" && path_params[key] != value`, negated, at a key that may be missing
value_matches : Bytes → Option Bytes → Bool
value_matches value none = false
value_matches value (some given) = bytes_eq value wildcard || bytes_eq given value

params_match : Dict Bytes → Dict Bytes → Bool
params_match [] path_params = true
params_match ((key, value) ∷ pattern_params) path_params =
    value_matches value (lookup key path_params) && params_match pattern_params path_params

-- The text in front of the first '?' and the text behind it.
abbrev pub path_of : Bytes → Option ℕ → Bytes
path_of text none = text
path_of text (some pos) = take pos text

abbrev pub query_of : Bytes → Option ℕ → Bytes
query_of text none = []
query_of text (some pos) = drop (suc pos) text

match_queries : Bytes → Bytes → Result Bool
match_queries pattern_query path_query =
    if is_empty path_query
    then ok false
    else (parse_query pattern_query >>= λ pattern_params.
        (parse_query path_query >>= λ path_params.
        ok
          (length pattern_params == length path_params && params_match pattern_params path_params)))

match_rest : Bytes → Option ℕ → Bytes → Result Bool
match_rest pattern none path_query = ok true
match_rest pattern (some pos) path_query = match_queries (drop (suc pos) pattern) path_query

unfoldable pub match_path : Bytes → Bytes → Result Bool
unfolding match_rest match_queries params_match value_matches parts_match part_matches
match_path pattern path =
    let pattern_question_pos = find b'?' pattern in
    let path_question_pos = find b'?' path in
    let pattern_parts = split_path (path_of pattern pattern_question_pos) in
    let path_parts = split_path (path_of path path_question_pos) in
    if length pattern_parts == length path_parts && parts_match (zip pattern_parts path_parts)
    then match_rest pattern pattern_question_pos (query_of path path_question_pos)
    else ok false

unfoldable pub find_handle : Bytes → RequestType → HttpBinder → Result (Option HttpHandle)
find_handle path type [] = ok none
find_handle path type ((pattern, handle) ∷ m_handles) =
    let rest = find_handle path type m_handles in
    if has_method type handle
    then (match_path pattern path >>= λ matched. (if matched then ok (some handle) else rest))
    else rest
