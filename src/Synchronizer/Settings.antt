-- ===== src/Synchronizer/Settings.antt =====
-- When src/synchronizer.cpp keeps its client, and what src/electrumclient.cpp would make of the settings.
use libnunchuk.Base.{
  ◌≡◌, refl, sym, ap, ◌∙◌, List, [], ◌∷◌, Bool, true, false, not, ◌&&◌, arith, Bool-cases, inl, inr,
}
use std.Path.{fun_ext}
use libnunchuk.Base.Int.{ℤ, eqb_ℤ, int_laws}
use libnunchuk.Base.Text.{Text, text_eq, text_eq_iff}
use libnunchuk.Types.{AppSettings, Chain, main, testnet, regtest, ok, ◌>>=◌}
use libnunchuk.Electrum.Server.{
  Server, server_url, first_server, endpoint_of, open_endpoint, parse_server,
}
use libnunchuk.Synchronizer.{
  Sync, chain_eq, bool_same, texts_eq, same_proxy, same_servers, need_update_client,
}

texts_eq_sound : (s t : List Text) → texts_eq s t ≡ true → s ≡ t
texts_eq_sound [] [] h = refl
texts_eq_sound [] (t ∷ ts) h = cc
texts_eq_sound (s ∷ ss) [] h = cc
texts_eq_sound (s ∷ ss) (t ∷ ts) h =
    let first : text_eq s t ≡ true = ground arith in
    let rest : texts_eq ss ts ≡ true = ground arith in
    ap (λ x. x ∷ ss) ((text_eq_iff s t).0 first) ∙ ap (λ xs. t ∷ xs) (texts_eq_sound ss ts rest)

chain_eq_sound : (a b : Chain) → chain_eq a b ≡ true → a ≡ b
chain_eq_sound main main h = refl
chain_eq_sound main testnet h = cc
chain_eq_sound main regtest h = cc
chain_eq_sound testnet main h = cc
chain_eq_sound testnet testnet h = refl
chain_eq_sound testnet regtest h = cc
chain_eq_sound regtest main h = cc
chain_eq_sound regtest testnet h = cc
chain_eq_sound regtest regtest h = refl

bool_same_sound : (a b : Bool) → bool_same a b ≡ true → a ≡ b
bool_same_sound true true h = refl
bool_same_sound true false h = sym h
bool_same_sound false true h = h
bool_same_sound false false h = refl

same_url :
    (c : Chain) (a b : AppSettings) → same_servers c a b ≡ true → server_url a c ≡ server_url b c
same_url testnet a b h =
    ap (λ s. ok (first_server s)) (texts_eq_sound a.testnet_servers b.testnet_servers h)
same_url main a b h =
    ap (λ s. ok (first_server s)) (texts_eq_sound a.mainnet_servers b.mainnet_servers h)
same_url regtest a b h = refl

eqb_ℤ_sound : (a b : ℤ) → eqb_ℤ a b ≡ true → a ≡ b
eqb_ℤ_sound a b h = grind int_laws

same_endpoint :
    (a b : AppSettings) (server : Server)
    → a.use_proxy ≡ b.use_proxy
    → (b.use_proxy && not (same_proxy a b)) ≡ false
    → endpoint_of a server ≡ endpoint_of b server
same_endpoint a b server u p = elim (Bool-cases b.use_proxy) [
  | inl used ↦
      let h1 : text_eq a.proxy_host b.proxy_host ≡ true = ground arith in
      let h2 : eqb_ℤ a.proxy_port b.proxy_port ≡ true = ground arith in
      let h3 : text_eq a.proxy_password b.proxy_password ≡ true = ground arith in
      let h4 : text_eq a.proxy_username b.proxy_username ≡ true = ground arith in
      let e1 : a.proxy_host ≡ b.proxy_host = (text_eq_iff a.proxy_host b.proxy_host).0 h1 in
      let e2 : a.proxy_port ≡ b.proxy_port = eqb_ℤ_sound a.proxy_port b.proxy_port h2 in
      let e3 : a.proxy_password ≡ b.proxy_password =
        (text_eq_iff a.proxy_password b.proxy_password).0 h3 in
      let e4 : a.proxy_username ≡ b.proxy_username =
        (text_eq_iff a.proxy_username b.proxy_username).0 h4 in
      rw (u, used, e1, e2, e3, e4) refl
  | inr direct ↦ rw (u, direct) refl
]

-- Where Run needs no new client for new settings, a client made from the new settings would reach the
-- same server in the same way, and fail where one made from the settings before does: the settings
-- that a client reads are all compared, but for the certificate file.
pub need_update_client-open_endpoint :
    (settings : AppSettings) (s : Sync)
    → (need_update_client settings s).0 ≡ false
    → open_endpoint settings ≡ open_endpoint s.app_settings
unfolding need_update_client open_endpoint
need_update_client-open_endpoint settings s h =
    let a = s.app_settings in
    let b = settings in
    let c : chain_eq a.chain b.chain ≡ true = ground arith in
    let u : bool_same a.use_proxy b.use_proxy ≡ true = ground arith in
    let p : (b.use_proxy && not (same_proxy a b)) ≡ false = ground arith in
    let v : same_servers b.chain a b ≡ true = ground arith in
    let url : server_url a a.chain ≡ server_url b b.chain =
      ap (server_url a) (chain_eq_sound a.chain b.chain c) ∙ same_url b.chain a b v in
    let made : endpoint_of a ≡ endpoint_of b =
      fun_ext (λ server. same_endpoint a b server (bool_same_sound a.use_proxy b.use_proxy u) p) in
    sym (
      ap (λ m. ◌>>=◌ m (λ x. ◌>>=◌ (parse_server x) (λ server. ok (endpoint_of a server)))) url
      ∙ ap
          (λ f.
            ◌>>=◌ (server_url b b.chain) (λ x. ◌>>=◌ (parse_server x) (λ server. ok (f server))))
          made)
