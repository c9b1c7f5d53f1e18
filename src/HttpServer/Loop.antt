-- ===== src/HttpServer/Loop.antt =====
-- server/HttpServer.cpp: what the event loop keeps from round to round.
use web_library.Base.{
  ℕ, List, [], ◌∷◌, ◌++◌, ◌==◌, ok, >>=-eq-ok, Bool-cases, inl, inr, ◌≡◌, refl, sym, ap, subst, ◌∙◌,
  append_assoc, append-nil,
}
use web_library.HttpServer.{
  assign_fd, client_at, State, read_more, connection_aborted, end_of_connection, connection_error,
  ReadEvent, AcceptEvent, accepted, accept_failed, flags_failed, Polled, idle, ready, Round, keep,
  accept_client, after_request, read_client, read_request, visit, visit_all,
}

-- The second list is the first with more at its end.
abbrev pub Extends : List ℕ → List ℕ → Type 0
Extends a b = (more : List ℕ) × (b ≡ a ++ more)

pub Extends-refl : (a : List ℕ) → Extends a a
Extends-refl a = ([], sym (append-nil a))

pub Extends-trans : (a b c : List ℕ) → Extends a b → Extends b c → Extends a c
Extends-trans a b c (m, e) (m', e') = (m ++ m', e' ∙ ap (λ t. t ++ m') e ∙ append_assoc a m m')

pub ok_injective : {A : Type 0} {a b : A} → ok a ≡ ok b → a ≡ b
ok_injective e = cc

-- What no step of a round undoes.
abbrev pub Grows : Round → Round → Type 0
Grows r r' = Extends r.kept r'.kept × Extends r.queued r'.queued

after_request-Grows :
    (state : State) (fd client_fd : ℕ) (r : Round) → Grows r (after_request state fd client_fd r)
unfolding after_request keep
after_request-Grows read_more fd k r = ((fd ∷ [], refl), Extends-refl r.queued)
after_request-Grows end_of_connection fd k r = ((fd ∷ [], refl), (k ∷ [], refl))
after_request-Grows connection_aborted fd k r = (Extends-refl r.kept, Extends-refl r.queued)
after_request-Grows connection_error fd k r = (Extends-refl r.kept, Extends-refl r.queued)

read_client-Grows :
    (fd : ℕ) (event : ReadEvent) (r : Round) {r' : Round}
    → read_client fd event r ≡ ok r'
    → Grows r r'
unfolding read_client
read_client-Grows fd event r {r'} h =
    let answer = read_request event (client_at fd r.clients) in
    let base : Round = record r { clients = assign_fd fd answer.1 r.clients } in
    let (state, e, e') = >>=-eq-ok answer.0 _ h in
    let same : after_request state fd answer.1.fd base ≡ r' = ok_injective e' in
    subst (λ t. Grows r t) same (after_request-Grows state fd answer.1.fd base)

pub accept_client-Grows :
    (event : AcceptEvent) (r : Round) {r' : Round}
    → accept_client event r ≡ ok r'
    → Extends r.kept r'.kept × Extends r.queued r'.queued
unfolding accept_client
accept_client-Grows (accepted k) r h =
    subst (λ t. Grows r t) (ok_injective h) (Extends-refl r.kept, Extends-refl r.queued)
accept_client-Grows accept_failed r h =
    subst (λ t. Grows r t) (ok_injective h) (Extends-refl r.kept, Extends-refl r.queued)
accept_client-Grows flags_failed r h = cc

Grows-trans : (a b c : Round) → Grows a b → Grows b c → Grows a c
Grows-trans a b c (k, q) (k', q') =
    (Extends-trans a.kept b.kept c.kept k k', Extends-trans a.queued b.queued c.queued q q')

pub keep-Grows : (fd : ℕ) (r : Round) → Grows r (keep fd r)
unfolding keep
keep-Grows fd r = ((fd ∷ [], refl), Extends-refl r.queued)

pub visit-Grows :
    (listen_socket fd : ℕ) (event : Polled) (r : Round) {r' : Round}
    → visit listen_socket fd event r ≡ ok r'
    → Grows r r'
unfolding visit
visit-Grows l fd idle r h = subst (λ t. Grows r t) (ok_injective h) (keep-Grows fd r)
visit-Grows l fd (ready accept event) r {r'} h = elim (Bool-cases (fd == l)) [
  | inl e ↦
      Grows-trans r (keep fd r) r' (keep-Grows fd r)
        (accept_client-Grows accept (keep fd r) (rw (e, visit) at h))
  | inr e ↦ read_client-Grows fd event r (rw (e, visit) at h)
]

pub visit_all-Grows :
    (listen_socket : ℕ) (fds : List ℕ) (events : List Polled) (r : Round) {r' : Round}
    → visit_all listen_socket fds events r ≡ ok r'
    → Grows r r'
unfolding visit_all
visit_all-Grows l [] events r h =
    subst (λ t. Grows r t) (ok_injective h) (Extends-refl r.kept, Extends-refl r.queued)
visit_all-Grows l (fd ∷ fds) [] r {r'} h =
    Grows-trans r (keep fd r) r' (keep-Grows fd r) (visit_all-Grows l fds [] (keep fd r) h)
visit_all-Grows l (fd ∷ fds) (event ∷ events) r {r'} h =
    let (mid, e, e') = >>=-eq-ok (visit l fd event r) _ h in
    Grows-trans r mid r' (visit-Grows l fd event r e) (visit_all-Grows l fds events mid e')
