-- ===== src/Utils/Params.antt =====
-- server/utils.cpp: `extract_params` on the text of a template.
use web_library.Base.{
  ℕ, zero, suc, ◌+◌, ◌<◌, ◌≤◌, ◌^◌, List, [], ◌∷◌, ◌++◌, ◌≡◌, sym, ap, ◌∙◌, arith, Bytes, find,
  find-append, Lacks, drop, length, length-append, find-Lacks, All-append, take-length, drop_after,
  All, append_assoc, append-nil,
}
use web_library.Utils.{open_brace, close_brace, extract_from, extract_params}
use web_library.Utils.Template.{Piece, byte, hole, render, names, IsStrict, render-hole}

render_hole_size :
    (pre name : Bytes) (ps : List Piece)
    → length (render ps) + 2 ≤ length (pre ++ render (hole name ∷ ps))
render_hole_size pre name ps = omega (
  arith,
  length-append pre (render (hole name ∷ ps)),
  ap length (render-hole name ps),
  length-append name (close_brace ∷ render ps),
)

-- One round of `extract_params`, at a hole.
extract_hole :
    (fuel : ℕ) (pre name rest : Bytes) (found : List Bytes)
    → Lacks open_brace pre
    → Lacks close_brace pre
    → Lacks close_brace name
    → length (pre ++ open_brace ∷ (name ++ close_brace ∷ rest)) < 2 ^ 64
    → extract_from (suc fuel) (pre ++ open_brace ∷ (name ++ close_brace ∷ rest)) found
      ≡ extract_from fuel rest (found ++ name ∷ [])
unfolding extract_from
extract_hole fuel pre name rest found ho hc hn b =
    let tail : Bytes = name ++ close_brace ∷ rest in
    let head : Bytes = pre ++ open_brace ∷ name in
    let e : pre ++ open_brace ∷ tail ≡ head ++ close_brace ∷ rest =
      sym (append_assoc pre (open_brace ∷ name) (close_brace ∷ rest)) in
    ground (
      arith,
      find-append open_brace pre tail ho,
      ap (find close_brace) e,
      find-append close_brace head rest
          (All-append _ pre (open_brace ∷ name) hc ((omega arith), hn)),
      ap (drop (suc (length head))) e,
      drop_after head close_brace rest,
      drop_after pre open_brace tail,
      take-length name (close_brace ∷ rest),
      length-append pre (open_brace ∷ name),
      length-append pre (open_brace ∷ tail),
      length-append name (close_brace ∷ rest),
    )

extract_from-render :
    (fuel : ℕ) (pre : Bytes) (ps : List Piece) (found : List Bytes)
    → Lacks open_brace pre
    → Lacks close_brace pre
    → All IsStrict ps
    → length (pre ++ render ps) ≤ fuel
    → length (pre ++ render ps) < 2 ^ 64
    → extract_from fuel (pre ++ render ps) found ≡ found ++ names ps
unfolding extract_from
extract_from-render zero pre [] found ho hc h k b = rw append-nil
extract_from-render (suc fuel) pre [] found ho hc h k b =
    ground (arith, append-nil pre, append-nil found, find-Lacks open_brace pre ho)
extract_from-render fuel pre (byte c ∷ ps) found ho hc h k b =
    let e : (pre ++ c ∷ []) ++ render ps ≡ pre ++ c ∷ render ps =
      append_assoc pre (c ∷ []) (render ps) in
    rw (← e) (
      extract_from-render fuel (pre ++ c ∷ []) ps found (All-append _ pre (c ∷ []) ho (h.0.0, tt))
        (All-append _ pre (c ∷ []) hc (h.0.1, tt)) h.1 (rw e k) (rw e b))
extract_from-render zero pre (hole name ∷ ps) found ho hc h k b =
    absurd (omega (arith, length-append pre (render (hole name ∷ ps))))
extract_from-render (suc fuel) pre (hole name ∷ ps) found ho hc h k b = rw (render-hole name ps) (
    extract_hole fuel pre name (render ps) found ho hc h.0 (rw (render-hole name ps) at b)
    ∙ extract_from-render fuel [] ps (found ++ name ∷ []) tt tt h.1
        (omega (arith, render_hole_size pre name ps)) (omega (arith, render_hole_size pre name ps))
    ∙ append_assoc found (name ∷ []) (names ps))

-- From a template with no '}' outside its holes, `extract_params` collects the names of the holes in
-- their order. The text is shorter than 2^64 bytes, as every std::string is.
pub extract_params-render :
    (ps : List Piece)
    → All IsStrict ps
    → length (render ps) < 2 ^ 64
    → extract_params (render ps) ≡ names ps
unfolding extract_params
extract_params-render ps h b =
    extract_from-render (length (render ps)) [] ps [] tt tt h (omega arith) b
