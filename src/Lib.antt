-- ===== src/Lib.antt =====
-- The Elusiv SDK: private top-ups and sends on Solana, seen from the client.
--
-- Parts of the program and the files that model them. Paths are from the repository's root.
--   * Index.antt: src/sdk/utils/IndexConverter.ts, positions in the commitment tree.
--   * Token.antt: src/public/tokenTypes, the supported tokens.
--   * GeneralSet.antt: src/sdk/utils/GeneralSet.ts, sets of items by an id.
--   * Transaction.antt: src/sdk/transactions/ElusivTransaction.ts, the record that the managers share.
--   * Cache.antt: src/sdk/utils/caching/IndexedMultiCacher.ts, with TransactionCacher.ts of
--     src/sdk/txManagers in Cache/Transactions.antt. A cache is a sparse array of buckets.
--   * TxFetch.antt: src/sdk/txManagers/AbstractTxManager.ts, which fetches transactions in batches
--     through the cache. The cache is passed as a state; what fetches from the chain is a parameter.
--   * TxManager.antt: src/sdk/txManagers/TransactionManager.ts, transactions and balances of one token
--     over the base class's getTxs, a parameter; the active ones are in TxManager/Active.antt.
--   * Commitments.antt: src/sdk/paramManagers/CommitmentManager.ts, which rebuilds commitments from
--     transactions. Hashes and the tree search are fields of the record Commitments.
--   * Fee.antt, Fee/Send.antt: src/sdk/paramManagers/fee/FeeCalculator.ts, the fees in lamports.
--   * IdFetch.antt: src/sdk/txManagers/IdentifierTxFetcher.ts, which asks the chain for the
--     transactions of many nonces at once. The keys, requests and converter are the record Chain.
--   * Tree.antt: src/sdk/paramManagers/TreeManager.ts, openings in the Merkle tree over the storage
--     reader, the record StorageReader; Tree/Defaults.antt has the hashes of empty subtrees.
--   * Storage.antt, Storage/Chunk.antt: src/sdk/accountReaders/StorageAccountReader.ts, which reads nodes
--     and searches commitments in chunks; `storage_reader` fills the record StorageReader.
--   * Metadata.antt: src/sdk/clientCrypto/CommitmentMetadata.ts, the metadata and its bytes.
--   * Fee/Amounts.antt: src/public/Fee.ts, sums of fees.
--   * Building.antt: src/sdk/transactions/txBuilding/TransactionBuilding.ts, with the parameters of
--     RemoteParamFetching.ts beside it (fetched in Building/Remote.antt) and lamportFeeToTokenFee of
--     FeeUtils.ts. Topups stand in
--     Building/Topup.antt, sends and merges in Building/Send.antt. Commitments, proofs and ciphers are the
--     record Builder, and a token's price the rounded amounts of the record Pricing.
--   * Serialization.antt: src/sdk/transactions/txBuilding/wardenSerialization, the requests for the
--     Wardens: the join split in Serialization/JoinSplit.antt, a proof in Serialization/Send.antt, a
--     signed transaction in Serialization/Store.antt, and what is read back from the chain (the
--     borshTypes folder of serializedTypes) in Serialization/Borsh.antt. The libraries are the record
--     Serializer.
--   * Instruction.antt: src/sdk/transactions/instructions, the instructions of the program: Instruction/
--     Store.antt, Compute.antt, Init.antt with Roots.antt and InitCodec.antt, and Finalize.antt. Borsh is
--     a Codec for each class, and the ciphers of a root viewing key are the record Rvk.
--   * Parsing.antt: src/sdk/transactions/txParsing and src/sdk/txManagers/ResponseConverter.ts:
--     instructions in Parsing.antt and Parsing/Parts.antt, messages in Parsing/Find.antt and Parsing/
--     Raw.antt, the responses of a nonce in Parsing/Response.antt. Parsing/History.antt describes the
--     histories that a chain can show.
--   * Client.antt: src/public/elusiv.ts, the facade: building a topup with the merge that it may need, the
--     estimates of fees, and how a transaction that was sent is found. Client calls Building and
--     Commitments; what the network and the managers answer are arguments.
--   * Viewer.antt: src/public/elusivViewer.ts, the signatures, number and volume of a time span.
--   * Wrappers.antt: src/public/transactionWrappers/TxWrappers.ts, what Parsing returns as the user is shown
--     it, with getPrivateTransactions of the viewer.
--   * Base.antt, Result.antt, Constants.antt: numbers, lists, JavaScript's Map and slice, errors as
--     values (one constructor for each message), and src/constants.ts.
--
-- Numbers: a number or bigint that cannot be negative is a ℕ, any other a ℤ; both are unbounded, as
-- the code's bigints are, and its numbers stay far below 2^53.
--
-- Fuel: the loop that plans batches runs on `fetch_fuel`, one round for each nonce of the range and one
-- for the last test, the search of a chunk has a round for each of its places, and the search across
-- chunks one for each of the 25. None of these can take more rounds, since a place or a nonce moves on
-- in each. The loops that fetch until the chain has no more take their fuel from the caller and report
-- its end as an error of its own, as does the loop over the pages of signatures, for which
-- one round more than the account has signatures is enough.
--
-- Building calls the fees of Fee/Send.antt, the commitments of Commitments.antt and the metadata of
-- Metadata.antt; its proofs are what Serialization writes, and its topups are what Instruction compiles.
-- Parsing reads such instructions from the chain; its results are the transactions of Transaction.antt
-- that the managers fetch through IdFetch.antt.
--
-- Not modelled: requests over the network, cryptography, the layouts that decorators declare for Borsh,
-- floating point prices, the raw transaction around an instruction, and what of src/public only passes a
-- call on. A PublicKey is its base58 text, which the modelled code copies and compares.
pub mod Base
pub mod Result
pub mod Constants
pub mod Index
pub mod Token
pub mod GeneralSet
pub mod Transaction
pub mod Cache
pub mod TxFetch
pub mod IdFetch
pub mod TxManager
pub mod Commitments
pub mod Fee
pub mod Tree
pub mod Storage
pub mod Metadata
pub mod Building
pub mod Client
pub mod Instruction
pub mod Parsing
pub mod Serialization
pub mod Viewer
pub mod Wrappers
