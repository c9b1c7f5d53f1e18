-- ===== src/Cookie/Print.antt =====
-- server/Cookie.cpp: the print of a cookie against a list of its attributes.
use web_library.Base.{
  List, [], ◌∷◌, ◌++◌, Bool, true, false, ◌||◌, Option, none, some, Bytes, codes, length,
  find_last_of, is_empty, if◌then◌else◌, ok, throw, empty_cookie, print_int, ℤ, ◌≡◌, refl, arith,
  append_assoc, join, length-append, take-length, sym, ap, ◌∙◌,
}
use web_library.Cookie.{Cookie, samesite_name, attributes, max_age_part, cut_last, to_string}

abbrev sep : Bytes
sep = codes "; "

abbrev max_age_attribute : Option ℤ → List Bytes
max_age_attribute none = []
max_age_attribute (some n) = (codes "Max-Age=" ++ print_int n) ∷ []

abbrev when : Bool → Bytes → List Bytes
when true text = text ∷ []
when false text = []

abbrev unless : Bool → Bytes → List Bytes
unless true text = []
unless false text = text ∷ []

-- The attributes that are set, in the order of the print; SameSite always stands last.
abbrev pub attribute_list : Cookie → List Bytes
attribute_list c =
    max_age_attribute c.max_age
    ++ (when c.secure (codes "Secure")
        ++ (when c.http_only (codes "HttpOnly")
            ++ (unless (is_empty c.path) (codes "Path=" ++ c.path)
                ++ (unless (is_empty c.domain) (codes "Domain=" ++ c.domain)
                    ++ (codes "SameSite=" ++ samesite_name c.samesite) ∷ []))))

-- Every part with a separator behind it.
abbrev ended : List Bytes → Bytes
ended [] = []
ended (p ∷ ps) = p ++ (sep ++ ended ps)

ended-append : (ps qs : List Bytes) → ended (ps ++ qs) ≡ ended ps ++ ended qs
ended-append [] qs = refl
ended-append (p ∷ ps) qs = simp (ended-append ps qs, append_assoc)

ended-join : (p : Bytes) (ps : List Bytes) → ended (p ∷ ps) ≡ join sep (p ∷ ps) ++ sep
ended-join p [] = refl
ended-join p (q ∷ ps) = ap (λ t. p ++ (sep ++ t)) (ended-join q ps) ∙ sym (append_assoc p _ sep)

find_last_of-sep : (s : Bytes) → find_last_of b';' (s ++ sep) ≡ some (length s)
unfolding find_last_of
find_last_of-sep [] = refl
find_last_of-sep (x ∷ s) = rw (find_last_of-sep s)

cut_last-sep : (s : Bytes) → cut_last (s ++ sep) ≡ ok s
unfolding cut_last
cut_last-sep s = ground (arith, find_last_of-sep s, length-append s sep, take-length s sep)

joined :
    (ps qs : List Bytes) {s t : Bytes} → s ≡ ended ps → t ≡ ended qs → s ++ t ≡ ended (ps ++ qs)
joined ps qs hs ht = rw (hs, ht) (sym (ended-append ps qs))

max_age-ended : (o : Option ℤ) → max_age_part o ≡ ended (max_age_attribute o)
max_age-ended none = refl
max_age-ended (some n) = sym (append_assoc (codes "Max-Age=") (print_int n) sep)

when-ended :
    (b : Bool) (text : Bytes) {s : Bytes}
    → s ≡ text ++ sep
    → (if b then s else []) ≡ ended (when b text)
when-ended true text h = h
when-ended false text h = refl

unless-ended :
    (b : Bool) (text : Bytes) {s : Bytes}
    → s ≡ text ++ sep
    → (if b then [] else s) ≡ ended (unless b text)
unless-ended true text h = refl
unless-ended false text h = h

attributes-ended : (c : Cookie) → attributes c ≡ ended (attribute_list c)
unfolding attributes
attributes-ended c = joined (max_age_attribute c.max_age) _ (max_age-ended c.max_age) (
    joined (when c.secure (codes "Secure")) _ (when-ended c.secure (codes "Secure") refl) (
      joined (when c.http_only (codes "HttpOnly")) _
        (when-ended c.http_only (codes "HttpOnly") refl)
        (joined (unless (is_empty c.path) (codes "Path=" ++ c.path)) _
          (unless-ended (is_empty c.path) (codes "Path=" ++ c.path) refl)
          (joined (unless (is_empty c.domain) (codes "Domain=" ++ c.domain)) _
            (unless-ended (is_empty c.domain) (codes "Domain=" ++ c.domain) refl) (refl)))))

-- A cookie prints as its name and value, and if it is a response cookie also the attributes that are
-- set, with "; " between each two and none at the end. Without a name or a value, `to_string` throws
-- empty_cookie, which is a std::exception and no std::runtime_error.
pub to_string-join :
    (c : Cookie)
    → to_string c ≡ (
        if is_empty c.name || is_empty c.value
        then throw empty_cookie
        else ok (
            if c.response_cookie
            then join sep ((c.name ++ b'=' ∷ c.value) ∷ attribute_list c)
            else c.name ++ b'=' ∷ c.value))
unfolding to_string
to_string-join c =
    let text : Bytes = c.name ++ b'=' ∷ c.value in
    let e : text ++ (codes "; " ++ attributes c) ≡ join sep (text ∷ attribute_list c) ++ sep =
      ap (λ t. text ++ (sep ++ t)) (attributes-ended c) ∙ ended-join text (attribute_list c) in
    ground (arith, ap cut_last e, cut_last-sep (join sep (text ∷ attribute_list c)))
