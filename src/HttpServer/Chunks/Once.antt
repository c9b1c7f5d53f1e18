-- ===== src/HttpServer/Chunks/Once.antt =====
-- server/HttpServer.cpp: how often a request is handed over, by the counts of bytes.
use web_library.Base.{
  ℕ, ◌+◌, ◌<◌, List, [], ◌∷◌, ◌++◌, Bool, true, false, not, ◌&&◌, Bytes, length, length-append, ltb,
  ◌==◌, pos, all, if◌then◌else◌, ◌≡◌, refl, sym, ap, ◌∙◌, arith,
}
use web_library.HttpServer.{ReadEvent, received, would_block, read_failed, leb_int, is_zero}
use web_library.HttpServer.Read.{data_of, all_data}
use web_library.HttpServer.Switch.{is_complete}
use web_library.HttpServer.Chunks.{expected, all_expected}
use web_library.HttpServer.Chunks.Rounds.{all_parts, stays_open, tasks_for}

before_last :
    (header m seen : ℕ) (event : ReadEvent)
    → stays_open event ≡ true
    → seen + length (data_of event) < header + m
    → is_complete (expected header (pos m) seen event) ≡ false
unfolding leb_int is_zero
before_last header m seen (received []) h more = absurd (cc)
before_last header m seen (received (d ∷ ds)) h more = ground arith
before_last header m seen would_block h more = refl
before_last header m seen read_failed h more = absurd (cc)

at_last :
    (header m seen d : ℕ) (ds : Bytes)
    → seen + length (d ∷ ds) ≡ header + m
    → is_complete (expected header (pos m) seen (received (d ∷ ds)))
      ≡ not (ltb seen header && not (m == 0))
unfolding leb_int is_zero
at_last header m seen d ds total = ground arith

flip : (fd : ℕ) (b : Bool) → (if not b then fd ∷ [] else []) ++ [] ≡ (if b then [] else fd ∷ [])
flip fd true = refl
flip fd false = refl

pub tasks_once :
    (fd header m : ℕ) (events : List ReadEvent) (seen d : ℕ) (ds : Bytes)
    → all stays_open events ≡ true
    → seen + length (all_data events) + length (d ∷ ds) ≡ header + m
    → tasks_for fd (all_expected header (pos m) seen (events ++ received (d ∷ ds) ∷ []))
      ≡ (if ltb (seen + length (all_data events)) header && not (m == 0) then [] else fd ∷ [])
tasks_once fd header m [] seen d ds h total =
    let plain : seen + 0 ≡ seen = omega arith in
    let last = at_last header m seen d ds (omega arith) in
    ap (λ b. (if b then fd ∷ [] else []) ++ []) last
    ∙ flip fd (ltb seen header && not (m == 0))
    ∙ ap (λ t. if ltb t header && not (m == 0) then [] else fd ∷ []) (sym plain)
tasks_once fd header m (event ∷ events) seen d ds h total =
    let (now, later) = all_parts (stays_open event) (all stays_open events) h in
    let split = length-append (data_of event) (all_data events) in
    let count : seen + length (data_of event) + length (all_data events)
        ≡ seen + length (data_of event ++ all_data events) =
      omega arith in
    let nothing = before_last header m seen event now (omega arith) in
    ap
      (λ b.
        (if b then fd ∷ [] else [])
        ++ tasks_for fd (
            all_expected header (pos m) (seen + length (data_of event))
              (events ++ received (d ∷ ds) ∷ [])))
      nothing
    ∙ tasks_once fd header m events (seen + length (data_of event)) d ds later (omega arith)
    ∙ ap (λ t. if ltb t header && not (m == 0) then [] else fd ∷ []) count
