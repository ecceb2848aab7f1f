-- ===== src/Electrum/Handshake.antt =====
-- The handshake with a proxy in src/electrumclient.cpp: what it may send.
use libnunchuk.Base.{
  ℕ, ◌≡◌, refl, ◌∙◌, subst, List, [], ◌∷◌, ◌++◌, Option, none, some, ◌==◌, Bool, true, false, not,
  ◌&&◌, ◌||◌, arith, Bool-cases, inl, inr,
}
use libnunchuk.Base.Text.{Text}
use libnunchuk.Types.{ok, ok->>=}
use libnunchuk.Electrum.Server.{Endpoint}
use libnunchuk.Electrum.Socks5.{
  two_bytes, four_bytes, has_login, auth_req, up_req, connect_req, skip_address, last_read,
  ask_connect, ask_login, handle_socks5, connect_answer, login_answer, by_method, greeting_answer,
  through_proxy,
}

-- The messages of a handshake that ends with this Boolean, and the answers that led to them.
pub data Talk (e : Endpoint) (replies : Text) : Bool → List Text → Type 0 where
  no_proxy : e.use_proxy ≡ false → Talk e replies true []
  greeted : e.use_proxy ≡ true → Talk e replies false (auth_req (has_login e) ∷ [])
  refused_login :
      (rest : Text)
      → e.use_proxy ≡ true
      → has_login e ≡ true
      → replies ≡ 5 ∷ 2 ∷ rest
      → Talk e replies false (auth_req true ∷ up_req e ∷ [])
  asked :
      (b : Bool) (rest : Text)
      → e.use_proxy ≡ true
      → replies ≡ 5 ∷ 0 ∷ rest
      → Talk e replies b (auth_req (has_login e) ∷ connect_req e ∷ [])
  asked_with_login :
      (b : Bool) (rest : Text)
      → e.use_proxy ≡ true
      → has_login e ≡ true
      → replies ≡ 5 ∷ 2 ∷ 1 ∷ 0 ∷ rest
      → Talk e replies b (auth_req true ∷ up_req e ∷ connect_req e ∷ [])

last_read-written :
    (written : List Text) (o : Option Text) (b : Bool) (ws : List Text)
    → last_read written o ≡ ok (b, ws)
    → written ≡ ws
last_read-written written none b ws h = ground arith
last_read-written written (some s) b ws h =
    let (r, e1, e2) = ok->>= (two_bytes s) _ (b, ws) h in ground arith

connect_answer-written :
    (written : List Text) (bad : Bool) (kind : ℕ) (s : Text) (b : Bool) (ws : List Text)
    → connect_answer written bad kind s ≡ ok (b, ws)
    → written ≡ ws
connect_answer-written written true kind s b ws h = ground arith
connect_answer-written written false kind s b ws h =
    let (o, e1, e2) = ok->>= (skip_address kind s) _ (b, ws) h in
    last_read-written written o b ws e2

-- Asking for the connection writes its request, whatever comes of it.
ask_connect-written :
    (e : Endpoint) (before : List Text) (s : Text) (b : Bool) (ws : List Text)
    → ask_connect e before s ≡ ok (b, ws)
    → before ++ connect_req e ∷ [] ≡ ws
unfolding ask_connect
ask_connect-written e before s b ws h =
    let ((version, code, reserved, kind, rest), e1, e2) = ok->>= (four_bytes s) _ (b, ws) h in
    connect_answer-written (before ++ connect_req e ∷ []) _ kind rest b ws e2

two_bytes-inv : (s : Text) (a b : ℕ) (r : Text) → two_bytes s ≡ ok (a, b, r) → s ≡ a ∷ b ∷ r
two_bytes-inv [] a b r h = cc
two_bytes-inv (x ∷ []) a b r h = cc
two_bytes-inv (x ∷ y ∷ s) a b r h = ground arith

login_answer-Talk :
    (e : Endpoint) (replies rest : Text) (v c : ℕ) (bad : Bool) (b : Bool) (ws : List Text)
    → e.use_proxy ≡ true
    → has_login e ≡ true
    → replies ≡ 5 ∷ 2 ∷ v ∷ c ∷ rest
    → bad ≡ (not (v == 1) || not (c == 0))
    → login_answer e (auth_req true ∷ up_req e ∷ []) bad rest ≡ ok (b, ws)
    → Talk e replies b ws
login_answer-Talk e replies rest v c true b ws p l q t h =
    let refused : false ≡ b = ground arith in
    let same : auth_req true ∷ up_req e ∷ [] ≡ ws = ground arith in
    subst (λ d. Talk e replies d ws) refused
      (subst (Talk e replies false) same (refused_login (v ∷ c ∷ rest) p l q))
login_answer-Talk e replies rest v c false b ws p l q t h =
    let version : v ≡ 1 = ground arith in
    let code : c ≡ 0 = ground arith in
    let read : replies ≡ 5 ∷ 2 ∷ 1 ∷ 0 ∷ rest = q ∙ rw (version, code) refl in
    subst (Talk e replies b) (ask_connect-written e _ rest b ws h)
      (asked_with_login b rest p l read)

by_method-Talk :
    (e : Endpoint) (replies rest : Text) (m : ℕ) (login free b : Bool) (ws : List Text)
    → e.use_proxy ≡ true
    → replies ≡ 5 ∷ m ∷ rest
    → login ≡ (has_login e && m == 2)
    → free ≡ (m == 0)
    → by_method e (auth_req (has_login e) ∷ []) login free rest ≡ ok (b, ws)
    → Talk e replies b ws
unfolding ask_login
by_method-Talk e replies rest m true free b ws p q l f h =
    let given : has_login e ≡ true = ground arith in
    let method : m ≡ 2 = ground arith in
    let ((v, c, s), e1, e2) = ok->>= (two_bytes rest) _ (b, ws) h in
    let read : replies ≡ 5 ∷ 2 ∷ v ∷ c ∷ s = q ∙ rw (method, two_bytes-inv rest v c s e1) refl in
    login_answer-Talk e replies s v c _ b ws p given read refl (
      subst
        (λ d.
          login_answer e (auth_req d ∷ up_req e ∷ []) (not (v == 1) || not (c == 0)) s ≡ ok (b, ws))
        given e2)
by_method-Talk e replies rest m false true b ws p q l f h =
    let method : m ≡ 0 = ground arith in
    subst (Talk e replies b) (ask_connect-written e (auth_req (has_login e) ∷ []) rest b ws h)
      (asked b rest p (q ∙ rw method refl))
by_method-Talk e replies rest m false false b ws p q l f h =
    let refused : false ≡ b = ground arith in
    let same : auth_req (has_login e) ∷ [] ≡ ws = ground arith in
    subst (λ d. Talk e replies d ws) refused (subst (Talk e replies false) same (greeted p))

greeting_answer-Talk :
    (e : Endpoint) (replies rest : Text) (v m : ℕ) (good b : Bool) (ws : List Text)
    → e.use_proxy ≡ true
    → replies ≡ v ∷ m ∷ rest
    → good ≡ (v == 5)
    → greeting_answer e (auth_req (has_login e) ∷ []) good m rest ≡ ok (b, ws)
    → Talk e replies b ws
greeting_answer-Talk e replies rest v m false b ws p q g h =
    let refused : false ≡ b = ground arith in
    let same : auth_req (has_login e) ∷ [] ≡ ws = ground arith in
    subst (λ d. Talk e replies d ws) refused (subst (Talk e replies false) same (greeted p))
greeting_answer-Talk e replies rest v m true b ws p q g h =
    let version : v ≡ 5 = ground arith in
    by_method-Talk e replies rest m _ _ b ws p (q ∙ rw version refl) refl refl h

-- A handshake that ends without an exception wrote one of these sequences of messages, after these
-- answers: nothing where no proxy is used; else a greeting that offers the method with a user name if
-- and only if a user name and a password are set; the user name and the password only if both are set
-- and the proxy chose that method; and the request for the connection only after the proxy asked for
-- neither or accepted them. It succeeds only without a proxy or after that request.
pub handle_socks5-Talk :
    (e : Endpoint) (replies : Text) (b : Bool) (ws : List Text)
    → handle_socks5 e replies ≡ ok (b, ws)
    → Talk e replies b ws
unfolding handle_socks5
handle_socks5-Talk e replies b ws h = elim (Bool-cases e.use_proxy) [
  | inl used ↦
      let h2 : through_proxy e replies true ≡ ok (b, ws) =
        subst (λ d. through_proxy e replies d ≡ ok (b, ws)) used h in
      let ((v, m, s), e1, e2) = ok->>= (two_bytes replies) _ (b, ws) h2 in
      greeting_answer-Talk e replies s v m _ b ws used (two_bytes-inv replies v m s e1) refl e2
  | inr direct ↦
      let h2 : through_proxy e replies false ≡ ok (b, ws) =
        subst (λ d. through_proxy e replies d ≡ ok (b, ws)) direct h in
      let done : true ≡ b = ground arith in
      let same : [] ≡ ws = ground arith in
      subst (λ d. Talk e replies d ws) done (subst (Talk e replies true) same (no_proxy direct))
]
