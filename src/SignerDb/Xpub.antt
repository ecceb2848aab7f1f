-- ===== src/SignerDb/Xpub.antt =====
-- GetXpub of NunchukSignerDb after AddXPub.
use libnunchuk.Base.{◌≡◌, ◌≢◌, refl, ap, ◌∙◌, Option, none, some, Bool, true}
use libnunchuk.Base.Int.{ℤ}
use libnunchuk.Base.Text.{Text, c_string, NotZero, c_string-whole}
use libnunchuk.Base.Lists.{All}
use libnunchuk.Types.{AddressType, WalletType, ok}
use libnunchuk.Bip32.{get_bip32_path}
use libnunchuk.SignerDb.{Row, SignerDb, xpub_of, upsert, add_xpub, find_row, get_xpub_at, get_xpub}
use libnunchuk.SignerDb.Rows.{inserted, find_row-upsert, find_row-upsert_other, text_neq}
use libnunchuk.SignerDb.Steps.{add_xpub-result}

inserted_xpub : (path xpub type : Text) (o : Option Row) → (inserted path xpub type o).xpub ≡ xpub
inserted_xpub path xpub type none = refl
inserted_xpub path xpub type (some r) = refl

-- After AddXPub of a key without a zero byte, which answers true when it does not throw, GetXpub gives
-- the key at the index, and at every other path what it gave before.
pub add_xpub-get_xpub :
    (w : WalletType) (a : AddressType) (index : ℤ) (xpub : Text) (db db2 : SignerDb) (b : Bool)
    → add_xpub w a index xpub db ≡ ok (b, db2)
    → All NotZero xpub
    → (b ≡ true)
      × (get_xpub w a index db2 ≡ ok xpub)
      × ((other : Text)
          → get_bip32_path db.chain w a index ≢ ok other
          → get_xpub_at other db2 ≡ get_xpub_at other db)
unfolding get_xpub get_xpub_at
add_xpub-get_xpub w a index xpub db db2 b e whole =
    let (path, type, path_is, type_is, answer, left) = add_xpub-result w a index xpub db db2 b e in
    let rows : db2.bip32 ≡ upsert path xpub type db.bip32 = ap (λ d. d.bip32) left in
    let path_after : get_bip32_path db2.chain w a index ≡ ok path =
      ap (λ d. get_bip32_path d.chain w a index) left ∙ path_is in
    let read : xpub_of (find_row path db2.bip32) ≡ xpub =
      ap (λ t. xpub_of (find_row path t)) rows
      ∙ ap xpub_of (find_row-upsert path xpub type db.bip32)
      ∙ ap c_string (inserted_xpub path xpub type (find_row path db.bip32))
      ∙ c_string-whole xpub whole in
    (
      answer,
      rw path_after (ap ok read),
      λ other differs.
          ap (λ t. xpub_of (find_row other t)) rows
          ∙ ap xpub_of (
              find_row-upsert_other path xpub type other db.bip32
                (text_neq path other (λ same. differs (path_is ∙ ap ok same)))),
    )
