-- ===== src/Viewer/Counting.antt =====
-- elusivViewer.ts: the number of transactions.
use elusiv_sdk.Base.{
  ℕ, ◌+◌, ◌≤◌, ◌≡◌, refl, sym, ◌∙◌, arith, Bool, true, false, ◌&&◌, String, Option, none, some,
  List, [], ◌∷◌, length, get_elem?, if◌then◌else◌,
}
use elusiv_sdk.Result.{Result, ok, >>=-eq-ok, ok-injective, ◌>>=◌}
use elusiv_sdk.Viewer.{CompiledIx, ChainTx, is_of_program, is_counted, counted_once, count_txs}

one_or :
    (b : Bool) (later : Result ℕ) (n : ℕ)
    → (later ≡ ok n → n ≤ 1)
    → (if b then ok 1 else later) ≡ ok n
    → n ≤ 1
one_or true later n small done = omega (arith, ok-injective done)
one_or false later n small done = small done

ix_step :
    (program : String) (keys : List String) (ix : CompiledIx) (ixs : List CompiledIx)
    → counted_once program keys (ix ∷ ixs) ≡ (
        is_of_program program (get_elem? keys ix.program_id_index) >>= λ own.
        if own && is_counted ix.ix_data then ok 1 else counted_once program keys ixs)
unfolding counted_once
ix_step program keys ix ixs = refl

once :
    (program : String) (keys : List String) (ixs : List CompiledIx) (n : ℕ)
    → counted_once program keys ixs ≡ ok n
    → n ≤ 1
once program keys [] n done = unfold counted_once in omega (arith, ok-injective done)
once program keys (ix ∷ ixs) n done =
    let (own, e, f) =
      >>=-eq-ok (is_of_program program (get_elem? keys ix.program_id_index)) _
        (sym (ix_step program keys ix ixs) ∙ done) in
    one_or (own && is_counted ix.ix_data) (counted_once program keys ixs) n
      (once program keys ixs n) f

tx_step :
    (program : String) (tx : ChainTx) (txs : List (Option ChainTx))
    → count_txs program (some tx ∷ txs) ≡ (
        counted_once program tx.static_account_keys tx.compiled_instructions >>= λ here.
        count_txs program txs >>= λ rest. ok (here + rest))
unfolding count_txs
tx_step program tx txs = refl

skip_step :
    (program : String) (txs : List (Option ChainTx))
    → count_txs program (none ∷ txs) ≡ count_txs program txs
unfolding count_txs
skip_step program txs = refl

-- No transaction is counted twice, however many of its instructions are the program's.
pub count_txs-le :
    (program : String) (txs : List (Option ChainTx)) (n : ℕ)
    → count_txs program txs ≡ ok n
    → n ≤ length txs
count_txs-le program [] n done = unfold count_txs in omega (arith, ok-injective done)
count_txs-le program (none ∷ txs) n done =
    let rest = count_txs-le program txs n (sym (skip_step program txs) ∙ done) in
    omega (arith, rest)
count_txs-le program (some tx ∷ txs) n done =
    let (here, e, f) =
      >>=-eq-ok (counted_once program tx.static_account_keys tx.compiled_instructions) _
        (sym (tx_step program tx txs) ∙ done) in
    let (rest, e', f') = >>=-eq-ok (count_txs program txs) _ f in
    let one = once program tx.static_account_keys tx.compiled_instructions here e in
    let more = count_txs-le program txs rest e' in omega (arith, one, more, ok-injective f')
