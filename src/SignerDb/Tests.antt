-- ===== src/SignerDb/Tests.antt =====
-- A signer's database with the keys of two indices, and the theorems there.
use libnunchuk.Base.{ℕ, ◌≡◌, ◌≢◌, refl, ◌≤◌, List, [], ◌∷◌, arith, true, inr}
use libnunchuk.Base.Int.{ℤ, pos, negsuc}
use libnunchuk.Base.Text.{Text, codes, text_eq}
use libnunchuk.Base.Decimal.{show, show_ℕ, stoi, read_signed, skip_space}
use libnunchuk.Types.{legacy, main, single_sig, ok}
use libnunchuk.Bip32.{
  coin_type, short_path, get_bip32_path, get_bip32_type, get_index_from_path, after_slash,
}
use libnunchuk.SignerDb.{
  Row, SignerDb, init_signer, delete_signer, upsert, add_xpub_at, add_xpub, changes, use_index,
  get_xpub_at, get_xpub, filter_rows, greatest_index, get_unused_index, get_cached_index,
}
use libnunchuk.SignerDb.Sound.{Made, IsWf}
use libnunchuk.SignerDb.Steps.{add, Steps, done, more}
use libnunchuk.SignerDb.History.{begins, calls, deletes, History-IsWf}
use libnunchuk.SignerDb.Index.{VisitLaws, get_unused_index-use_index, used_index_gone}
use libnunchuk.SignerDb.Xpub.{add_xpub-get_xpub}

abbrev row : ℕ → Text → ℤ → Row
row n xpub used = record {
  path = short_path (codes "m/44h/") (pos 0) (pos n);
  xpub = xpub;
  type = codes "bip44";
  used = used;
}

abbrev db_of : List Row → SignerDb
db_of rows = record {
  id = codes "d34db33f";
  chain = main;
  name = codes "one";
  fingerprint = codes "d34db33f";
  last_health_check = pos 0;
  bip32 = rows;
}

abbrev both : SignerDb
both = db_of (row 1 (codes "xpub1") (negsuc 0) ∷ row 2 (codes "xpub2") (negsuc 0) ∷ [])

abbrev one_used : SignerDb
one_used = db_of (row 1 (codes "xpub1") (pos 1) ∷ row 2 (codes "xpub2") (negsuc 0) ∷ [])

abbrev renewed : SignerDb
renewed = db_of (row 1 (codes "xpub3") (pos 1) ∷ row 2 (codes "xpub2") (negsuc 0) ∷ [])

abbrev in_order : List Row → List Row
in_order rows = rows

in_order-VisitLaws : VisitLaws in_order
in_order-VisitLaws = record { visit_only = λ rows r i. i; visit_all = λ rows r i. i }

row-Made : (n : ℕ) (xpub : Text) (used : ℤ) → n ≤ 1000 → Made main (row n xpub used)
unfolding get_bip32_path get_bip32_type coin_type
row-Made n xpub used small = record {
  wallet = single_sig;
  address = legacy;
  index = pos n;
  index-IsInt = (omega arith, omega arith);
  path_is = refl;
  type_is = refl;
}

both-IsWf : IsWf both
unfolding text_eq show show_ℕ
both-IsWf = (
  ((refl, tt), (tt, tt)),
  (inr (row-Made 1 _ _ (omega arith)), (inr (row-Made 2 _ _ (omega arith)), tt)),
)

one_used-IsWf : IsWf one_used
unfolding text_eq show show_ℕ
one_used-IsWf = (
  ((refl, tt), (tt, tt)),
  (inr (row-Made 1 _ _ (omega arith)), (inr (row-Made 2 _ _ (omega arith)), tt)),
)

use_runs : use_index single_sig legacy (pos 1) both ≡ ok (true, one_used)
unfolding use_index changes get_bip32_path coin_type text_eq show show_ℕ
use_runs = refl

renew_runs : add_xpub single_sig legacy (pos 1) (codes "xpub3") one_used ≡ ok (true, renewed)
unfolding add_xpub add_xpub_at upsert get_bip32_path get_bip32_type coin_type text_eq show show_ℕ
renew_runs = refl

offer_runs :
    (get_unused_index in_order single_sig legacy both ≡ ok (pos 1))
    × (get_unused_index in_order single_sig legacy renewed ≡ ok (pos 2))
    × (get_cached_index in_order single_sig legacy both ≡ ok (pos 2))
unfolding get_unused_index get_cached_index greatest_index filter_rows get_bip32_type
    get_index_from_path after_slash stoi read_signed skip_space text_eq show show_ℕ
offer_runs = (refl, refl, refl)

abbrev renewal : Steps one_used renewed
renewal =
    more done
      (add single_sig legacy (pos 1) (codes "xpub3") true (omega arith, omega arith) renew_runs)

get_unused_index-use_index_example :
    (db2 : SignerDb) × (use_index single_sig legacy (pos 1) both ≡ ok (true, db2))
get_unused_index-use_index_example =
    get_unused_index-use_index in_order in_order-VisitLaws single_sig legacy both (pos 1) both-IsWf
      offer_runs.0 (λ e. cc)

used_index_gone_example : pos 2 ≢ pos 1
used_index_gone_example =
    used_index_gone in_order in_order-VisitLaws single_sig legacy (pos 1) (pos 2) both one_used
      renewed both-IsWf (λ e. cc) use_runs renewal offer_runs.1

add_xpub-get_xpub_example :
    (true ≡ true)
    × (get_xpub single_sig legacy (pos 1) renewed ≡ ok (codes "xpub3"))
    × ((other : Text)
        → get_bip32_path main single_sig legacy (pos 1) ≢ ok other
        → get_xpub_at other renewed ≡ get_xpub_at other one_used)
add_xpub-get_xpub_example =
    add_xpub-get_xpub single_sig legacy (pos 1) (codes "xpub3") one_used renewed true renew_runs
      (refl, (refl, (refl, (refl, (refl, tt)))))

abbrev made_again : SignerDb
made_again = init_signer (codes "two") (codes "d34db33f") (delete_signer renewed)

History-IsWf_example : IsWf made_again × (made_again.chain ≡ one_used.chain)
History-IsWf_example = History-IsWf one_used made_again one_used-IsWf (
    deletes (codes "two") (codes "d34db33f") (
      calls begins
        (add single_sig legacy (pos 1) (codes "xpub3") true (omega arith, omega arith) renew_runs)))
