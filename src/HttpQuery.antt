-- ===== src/HttpQuery.antt =====
-- include/weblib/server/Query.hpp, HttpQuery.hpp and server/HttpQuery.cpp: the parameters of a request.
pub mod Parts
pub mod Steps
pub mod Parse
pub mod Lookup
mod Tests
use web_library.Base.{
  ℕ, suc, ◌+◌, List, [], ◌∷◌, Bool, true, false, Option, none, some, Bytes, codes, take, drop,
  length, ltb, ◌==◌, find, find_str, size_of, sub64, is_empty, if◌then◌else◌, Result, ok, throw,
  undefined, query_parsing_error, query_error, invalid_argument, or_throw, guard, ◌>>=◌, ◌>>◌,
  split, zip, Dict, lookup, contains, emplace, is_some, ℤ, stoi, stoll,
}
use web_library.Consts.HttpConsts
use web_library.Utils.{to_lowercase_str}

pub record Query : Type 0 where
  pub content : Bytes

unfoldable pub as_str : Query → Bytes
as_str query = query.content

-- `as<int>` and `as<int64_t>`
unfoldable pub as_int : Query → Result ℤ
as_int query =
    if is_empty query.content
    then throw (invalid_argument (codes "Could not be converted"))
    else stoi query.content

unfoldable pub as_int64 : Query → Result ℤ
as_int64 query =
    if is_empty query.content
    then throw (invalid_argument (codes "Could not be converted"))
    else stoll query.content

-- `as<float>` and `as<double>`, over std::stof and std::stod
module _ {F : Type 0} (stof stod : Bytes → Result F) where
  unfoldable pub as_float : Query → Result F
  as_float query =
      if is_empty query.content
      then throw (invalid_argument (codes "Could not be converted"))
      else stof query.content

  unfoldable pub as_double : Query → Result F
  as_double query =
      if is_empty query.content
      then throw (invalid_argument (codes "Could not be converted"))
      else stod query.content

-- `as<const char *>`: the text that its reader sees ends at the first zero byte
unfoldable pub as_c_str : Query → Bytes
as_c_str query = elim (find 0 query.content) [
  | none ↦ query.content
  | some n ↦ take n query.content
]

pub record HttpQuery : Type 0 where
  pub parameters : Dict Bytes

abbrev pub no_query : HttpQuery
no_query = record { parameters = [] }

-- s.contains(c)
unfoldable pub has_char : ℕ → Bytes → Bool
has_char c s = is_some (find c s)

-- The names that `param_iter` has not reached, and the parameters so far.
abbrev pub Binding : Type 0
Binding = List Bytes × HttpQuery

abbrev pub put : Bytes → Bytes → HttpQuery → HttpQuery
put name value q = record q { parameters = emplace name value q.parameters }

-- `m_parameters.emplace(*param_iter, value); ++param_iter`, with the test before it
pub bind_next : Bytes → Binding → Result Binding
bind_next value ([], q) = throw query_error
bind_next value (name ∷ names, q) = ok (names, put name value q)

-- A round of the loop over the path.
pub bind_arg : Bytes → Bytes → Binding → Result Binding
bind_arg pattern_arg path_arg b = if has_char b'{' pattern_arg then bind_next path_arg b else ok b

pub bind_path : List (Bytes × Bytes) → Binding → Result Binding
bind_path [] b = ok b
bind_path ((pattern_arg, path_arg) ∷ args) b = bind_arg pattern_arg path_arg b >>= bind_path args

-- `split_kv_query`, after its split
pub key_value : List Bytes → Result (Bytes × Bytes)
key_value (k ∷ v ∷ []) = ok (k, v)
key_value _ = throw query_error

-- A round of the loop over the query.
pub bind_pair : Bytes → Bytes → Binding → Result Binding
bind_pair t_path_kv path_kv (names, q) = do
  (_, t_path_value) ← key_value (split b'=' t_path_kv)
  (path_name, path_value) ← key_value (split b'=' path_kv)
  if has_char b'{' t_path_value
      then bind_next path_value (names, q)
      else ok (names, put path_name path_value q)

pub bind_query : List (Bytes × Bytes) → Binding → Result Binding
bind_query [] b = ok b
bind_query ((t_path_kv, path_kv) ∷ kvs) b = bind_pair t_path_kv path_kv b >>= bind_query kvs

-- The view {s.data() + pos, len}; one that goes past the end of s is not valid.
pub view : Bytes → ℕ → ℕ → Result Bytes
view s pos len = if ltb (length s) (pos + len) then undefined else ok (take len (drop pos s))

-- template_path.remove_prefix(1), which wants a text that is not empty
pub remove_first : Bytes → Result Bytes
remove_first [] = undefined
remove_first (c ∷ s) = ok s

abbrev same_size : List Bytes → List Bytes → Result (Unit {0})
same_size xs ys =
    guard (length xs == length ys)
      (query_parsing_error (codes "Template path does not match the actual path"))

-- The part of `parse_from_string` behind the views: `path` and `template` have lost their first '/'.
pub bind_all : Bytes → Bytes → Binding → Result Binding
bind_all template path b = do
  t_ques_mark ← or_throw query_error (find b'?' template)
  ques_mark ← or_throw query_error (find b'?' path)
  let t_path_params = split b'/' (take t_ques_mark template)
  let path_slash_params = split b'/' (take ques_mark path)
  same_size t_path_params path_slash_params
  b' ← bind_path (zip t_path_params path_slash_params) b
  let t_path_query_params = split b'&' (drop (suc t_ques_mark) template)
  let path_query_params = split b'&' (drop (suc ques_mark) path)
  same_size t_path_query_params path_query_params
  bind_query (zip t_path_query_params path_query_params) b'

-- The path ends two bytes before the first "HTTP", where a space stands; its length is computed in size_t.
unfoldable pub parse_from_string : Bytes → List Bytes → Bytes → HttpQuery → Result HttpQuery
unfolding bind_all bind_query bind_pair bind_path bind_arg bind_next key_value view remove_first
    has_char
parse_from_string raw_http [] template_path q = ok q
parse_from_string raw_http (name ∷ names) template_path q = do
  endpoint_start ← or_throw query_error (find b'/' raw_http)
  path ←
      view raw_http (endpoint_start + 1)
        (sub64 (sub64 (size_of (find_str HttpConsts.http raw_http)) endpoint_start) 2)
  template ← remove_first template_path
  bound ← bind_all template path (name ∷ names, q)
  ok bound.1

abbrev pub or_empty : Option Bytes → Bytes
or_empty none = []
or_empty (some value) = value

unfoldable pub get_query : Bytes → HttpQuery → Query
get_query query_name q = record {
  content = or_empty (lookup (to_lowercase_str query_name) q.parameters);
}
