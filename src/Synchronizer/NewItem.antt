-- ===== src/Synchronizer/NewItem.antt =====
-- An item of a history in src/synchronizer.cpp whose transaction is not in the wallet.
use libnunchuk.Base.Text.{Text}
use libnunchuk.WalletDb.Transaction.{Transaction}
