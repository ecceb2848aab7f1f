-- ===== src/Lib.antt =====
-- A model of libnunchuk, a C++ library of Bitcoin wallets, with proofs of what its code does.
--
-- The program. A wallet has one or several signers, each with keys along derivation paths. Nunchuk
-- (src/nunchukimpl.cpp) keeps wallets and signers in SQLite databases (src/storage.cpp), turns them
-- into descriptors (src/descriptor.cpp), follows their addresses through an Electrum server
-- (src/synchronizer.cpp, src/electrumclient.cpp) and chooses the coins of a payment
-- (src/coinselector.cpp). Bitcoin Core has the transactions, the scripts and the solvers.
--
-- The parts that are modelled:
--
-- CoinSelector is src/coinselector.cpp. CoinSelector.Bitcoin has Bitcoin Core as a record of types
--   and functions, the parameter of everything else; Pool is GroupOutputs and the pools of
--   SelectCoinsMinConf, Choose is SelectCoinsMinConf and SelectCoins, Pay the loop over the
--   recipients, Pass one pass of the loop of Select, Select the loop with its checks. A pass ends in
--   a result, in another pass or in an error (Step). Totals, Funded, PayTotal, Built, Settled and
--   Balance add up amounts, Terminates bounds the passes and Covered compares fee and size. The
--   loop runs on a fuel, and the theorem on its end says which fuel is enough. SolverLaws has what
--   the solvers of Bitcoin Core document: a solver that succeeds takes coins of its pool, and its
--   value is theirs.
-- Bip32 is src/utils/bip32.hpp. Path has the kinds of path and GetIndexFromPath on them, Apart
--   reads the kind off a path.
-- SignerDb is NunchukSignerDb of src/storage.cpp. A table is the list of its rows and a statement
--   of SQL the function that it asks for. Rows says what the statements do to the row of a path,
--   Sound which rows belong to wallets, Steps what the calls keep between InitSigner and DeleteSigner,
--   History also across these; AddXPub at a path has the type "custom" in both, as its only caller has.
--   Index is about the index that is offered, Cached about the greatest one, Xpub about the key that is
--   read. The order in which SQLite visits rows is a parameter, and VisitLaws asks that the visit has
--   every row and no other.
-- Utils is src/nunchukutils.cpp, with the calls of Bitcoin Core as a record of functions. Numeral has
--   the digits that amounts are written with, Money reads them back (CoreLaws says what the parser of
--   Bitcoin Core documents), Prefix is about the versions of keys (Base58Laws).
-- Descriptor is src/descriptor.cpp. Descriptor writes the descriptor of a wallet, Signer matches the
--   regular expression of a key, Parse is ParseDescriptors, Accepted and Key relate the two ways.
-- WalletDb is NunchukWalletDb of src/storage.cpp: the table ADDRESS with the unspent outputs and the
--   balance, and the table VTX. InputStr is about the texts that stand for inputs, Unspent about the
--   locked outputs, Current about the index of the newest address, SendReceive is
--   FillSendReceiveData. Transaction is how src/utils/txutils.hpp and FillExtra make a transaction,
--   Transactions and Broadcast are the calls on VTX, which give what they return or throw and the
--   tables as they leave them. TxRows, TxWf and TxSteps say what all these calls keep, Replaced and
--   Replacing follow a transaction that replaces another, Inserted one that is new, Renamed one whose
--   identifier changes. Signers and SignersKept are about the table SIGNER. Decoding, the reading of JSON and the order in which the
--   rows of ADDRESS are visited are arguments.
-- Electrum is src/electrumclient.cpp. Server reads the address of the server (Address), Socks5 is
--   the handshake with a proxy (Handshake says what it may send, Connect reads its request). Requests
--   has the state of the client, the queue and the writes, Calls the promises by their ids. A call is
--   two steps, the request and the taking of the future, between which the handlers of asio may run;
--   Run is the relation of these steps, each of them atomic although the code takes no lock, also
--   after an error. Fifo and Ordered are about the queue, Ordered also about a handler that runs inside
--   enqueue_message, Cells and Owned about the promises, Answers about one call.
-- Synchronizer is src/synchronizer.cpp: the status of the connection with its steps (Life), the
--   comparison of settings (Settings, against Electrum.Server), the cache of fees (Fees), and
--   UpdateTransactions on the tables of WalletDb (Update, NewItem). The server is a function.
-- KeyValues is the tables VSTR and VINT of NunchukDb of src/storage.cpp (Kept).
-- Nunchuk is src/nunchukimpl.cpp: GetUnusedAddress (Gap) and NewAddress over an interface of the calls
--   that they make (Answers), with the fuel that is enough. LookAhead has these calls, those of
--   src/synchronizer.cpp and src/storage.cpp, and Search is about the searches with them. Wallets and
--   Selected are about the wallets with the selected one.
-- Base and Types have texts as lists of bytes, integers, decimal numerals (`%d` and std::stoi), the
--   types and exceptions of include/nunchuk.h.
--
-- Bounds. An amount (`int64_t`) is an integer without bound: the amounts of Bitcoin stay below 2^51,
-- and the code checks no overflow. Where the code narrows the size of a transaction to `int` or
-- `unsigned int`, or reads a column of 64 bits as an `int`, the model does too. std::stoi throws
-- outside `int`, as it does in the model. The identifiers of requests and the indices of addresses
-- are numbers without bound; neither comes near 2^31. The index of a spent output is a number too:
-- txutils.hpp narrows it to `int`, which keeps what is below 2^31. A column of text is read up to its
-- first zero byte where a text of the caller's stands there (names, memos, keys, values), while
-- addresses, identifiers, paths and encoded transactions have none. The searches for an address run on a fuel: the
-- gap limit of 20 rounds and one for each index up to the last used one are enough.
--
-- Not modelled: what SQLite answers when the disk or a statement fails, files, encryption, sockets,
-- logging, the hardware wallets (src/hwiservice.cpp), the embedded Bitcoin Core, and the copies of
-- nlohmann/json, loguru and doctest. Of the wallet's database the list of transactions and the data
-- of the wallet itself, of the synchronizer the subscription of addresses, and the other calls of
-- src/nunchukimpl.cpp are not modelled.
pub mod Base
pub mod Types
pub mod CoinSelector
pub mod Bip32
pub mod SignerDb
pub mod Utils
pub mod Descriptor
pub mod WalletDb
pub mod Electrum
pub mod Synchronizer
pub mod Nunchuk
pub mod KeyValues
