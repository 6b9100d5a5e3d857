-- ===== src/Viewer/Pages.antt =====
-- elusivViewer.ts: the signatures of a time span, page by page.
use elusiv_sdk.Base.{
  ℕ, zero, suc, ◌≤◌, ◌<◌, ◌≡◌, refl, sym, ap, ◌∙◌, arith, Bool, true, false, not, String, Option,
  none, some, List, [], ◌∷◌, ◌++◌, take, drop, map, length, length-append, keep_if,
  take-append-drop, if◌then◌else◌, ltb, Bool-cases, inl, inr,
}
use elusiv_sdk.Base.Eq.{beq_iff, string_eq}
use elusiv_sdk.Result.{ok, map_result, map_ok}
use elusiv_sdk.Token.{TokenType, lamports, token_beq, get_token_types}
use elusiv_sdk.Viewer.{
  ConfirmedSignatureInfo, is_recent, last_or, last_of, go_on, signature_of, sigs_loop, in_some,
  ViewerChain, collector_of, non_lamport_sigs, is_lamports, get_elusiv_sigs_last_time,
}

-- The newest signature first, and none of them after `bound`.
abbrev pub IsNewestFirst : ℕ → List ConfirmedSignatureInfo → Type 0
IsNewestFirst bound [] = Unit
IsNewestFirst bound (s ∷ older) =
    (time : ℕ) × (s.block_time ≡ some time) × (time ≤ bound) × IsNewestFirst time older

-- What the RPC node documents: a page starts at the newest signature, or after the given one.
pub record Pages (fetch : Option String → List ConfirmedSignatureInfo) (page : ℕ)
    (history : List ConfirmedSignatureInfo) : Type 0 where
  pub newest : fetch none ≡ take (suc page) history
  pub before :
      (newer older : List ConfirmedSignatureInfo) (s : ConfirmedSignatureInfo)
      → history ≡ newer ++ s ∷ older
      → fetch (some s.signature) ≡ take (suc page) older

keep_if-append {ℓ} :
    {A : Type ℓ} (p : A → Bool) (xs ys : List A)
    → keep_if p (xs ++ ys) ≡ keep_if p xs ++ keep_if p ys
keep_if-append p [] ys = refl
keep_if-append p (x ∷ xs) ys = elim (Bool-cases (p x)) [
  | inl kept ↦ rw kept (ap (λ zs. x ∷ zs) (keep_if-append p xs ys))
  | inr gone ↦ rw gone (keep_if-append p xs ys)
]

append_assoc {ℓ} : {A : Type ℓ} (xs ys zs : List A) → (xs ++ ys) ++ zs ≡ xs ++ (ys ++ zs)
append_assoc [] ys zs = refl
append_assoc (x ∷ xs) ys zs = ap (λ us. x ∷ us) (append_assoc xs ys zs)

snoc {ℓ} :
    {A : Type ℓ} (x : A) (xs : List A) → (init : List A) × (x ∷ xs ≡ init ++ last_or x xs ∷ [])
snoc x [] = ([], refl)
snoc x (y ∷ ys) = let (init, e) = snoc y ys in (x ∷ init, ap (λ zs. x ∷ zs) e)

last_of-append {ℓ} : {A : Type ℓ} (xs : List A) (y : A) → last_of (xs ++ y ∷ []) ≡ some y
last_of-append [] y = refl
last_of-append (x ∷ []) y = refl
last_of-append (x ∷ z ∷ zs) y = last_of-append (z ∷ zs) y

none_recent :
    (until bound : ℕ) (h : List ConfirmedSignatureInfo)
    → IsNewestFirst bound h
    → bound ≤ until
    → keep_if (is_recent until) h ≡ []
none_recent until bound [] sorted old = refl
none_recent until bound (s ∷ h) (time, e, below, sorted) old =
    let gone : is_recent until s ≡ false = rw e (ground (arith, below, old)) in
    rw gone (none_recent until time h sorted (omega (arith, below, old)))

after_old :
    (until bound : ℕ) (newer older : List ConfirmedSignatureInfo) (s : ConfirmedSignatureInfo)
    → IsNewestFirst bound (newer ++ s ∷ older)
    → is_recent until s ≡ false
    → keep_if (is_recent until) older ≡ []
after_old until bound [] older s (time, e, below, sorted) old =
    let early : ltb until time ≡ false = rw e at old in
    none_recent until time older sorted (ground (arith, early))
after_old until bound (n ∷ newer) older s (time, e, below, sorted) old =
    after_old until time newer older s sorted old

-- Where the oldest signature of a page is recent, the loop goes on.
goes_on :
    (until : ℕ) (init : List ConfirmedSignatureInfo) (s : ConfirmedSignatureInfo)
    → is_recent until s ≡ true
    → go_on (last_of (keep_if (is_recent until) (init ++ s ∷ []))) (last_of (init ++ s ∷ [])) ≡ true
goes_on until init s recent =
    let kept : keep_if (is_recent until) (init ++ s ∷ [])
        ≡ keep_if (is_recent until) init ++ s ∷ [] =
      keep_if-append (is_recent until) init (s ∷ []) ∙ rw recent refl in
    let same = (beq_iff s.signature s.signature).1 refl in
    rw (kept, last_of-append init s, last_of-append (keep_if (is_recent until) init) s) same

append_nil {ℓ} : {A : Type ℓ} (xs : List A) → xs ++ [] ≡ xs
append_nil [] = refl
append_nil (x ∷ xs) = ap (λ ys. x ∷ ys) (append_nil xs)

-- Where it stops, the oldest signature is not recent.
stopped :
    (until : ℕ) (sigs init : List ConfirmedSignatureInfo) (s : ConfirmedSignatureInfo)
    → sigs ≡ init ++ s ∷ []
    → go_on (last_of (keep_if (is_recent until) sigs)) (last_of sigs) ≡ false
    → is_recent until s ≡ false
stopped until sigs init s made stop = elim (Bool-cases (is_recent until s)) [
  | inl recent ↦ let on = goes_on until init s recent in let stop' = rw made at stop in cc
  | inr old ↦ old
]

module _ (fetch : Option String → List ConfirmedSignatureInfo) (page until : ℕ)
    (history : List ConfirmedSignatureInfo) (bound : ℕ) (pages : Pages fetch page history)
    (sorted : IsNewestFirst bound history) where
  loop_step :
      (fuel : ℕ) (before : Option String)
      → sigs_loop fetch until (suc fuel) before ≡ (
          if go_on (last_of (keep_if (is_recent until) (fetch before))) (last_of (fetch before))
          then map_ok
              (λ more. keep_if (is_recent until) (fetch before) ++ more)
              (sigs_loop fetch until fuel (signature_of (last_of (fetch before))))
          else ok (keep_if (is_recent until) (fetch before)))
  unfolding sigs_loop
  loop_step fuel before = refl

  paged :
      (fuel : ℕ) (before : Option String) (newer rest : List ConfirmedSignatureInfo)
      → length rest < fuel
      → history ≡ newer ++ rest
      → fetch before ≡ take (suc page) rest
      → sigs_loop fetch until fuel before ≡ ok (keep_if (is_recent until) rest)
  paged zero before newer rest enough split fetched = absurd (ground (arith, enough))
  paged (suc fuel) before newer [] enough split fetched = loop_step fuel before ∙ rw fetched refl
  paged (suc fuel) before newer (s ∷ rest) enough split fetched =
      let here = take page rest in
      let later = drop page rest in
      let recent = is_recent until in
      let oldest = last_or s here in
      let (init, made) = snoc s here in
      let whole : s ∷ rest ≡ init ++ oldest ∷ later =
        ap (λ t. s ∷ t) (sym (take-append-drop page rest))
        ∙ ap (λ t. t ++ later) made
        ∙ append_assoc init (oldest ∷ []) later in
      let split' : history ≡ (newer ++ init) ++ oldest ∷ later =
        split ∙ ap (λ t. newer ++ t) whole ∙ sym (append_assoc newer init (oldest ∷ later)) in
      let kept : keep_if recent (s ∷ rest) ≡ keep_if recent (s ∷ here) ++ keep_if recent later =
        ap (λ t. keep_if recent (s ∷ t)) (sym (take-append-drop page rest))
        ∙ keep_if-append recent (s ∷ here) later in
      let parts = ap length (take-append-drop page rest) in
      let sizes = length-append here later in
      let less : length later < fuel = omega (arith, enough, parts, sizes) in
      let following =
        paged fuel (some oldest.signature) (newer ++ init ++ oldest ∷ []) later less
          (split' ∙ sym (append_assoc (newer ++ init) (oldest ∷ []) later))
          (pages.before (newer ++ init) later oldest split') in
      loop_step fuel before
      ∙ elim (Bool-cases (go_on (last_of (keep_if recent (s ∷ here))) (some oldest))) [
        | inl more ↦ rw (fetched, more, following, kept) refl
        | inr done ↦
            let old : is_recent until oldest ≡ false =
              stopped until (s ∷ here) init oldest made done in
            let ended =
              after_old until bound (newer ++ init) later oldest (rw split' at sorted) old in
            rw (fetched, done, kept, ended) (ap ok (sym (append_nil (keep_if recent (s ∷ here)))))
      ]

-- The signatures of an account that are recent.
abbrev pub recent_of :
    (String → List ConfirmedSignatureInfo) → ℕ → String → List ConfirmedSignatureInfo
recent_of history until account = keep_if (is_recent until) (history account)

-- What the chain holds: a history for every account, of less than `fuel` signatures.
pub record IsChain (chain : ViewerChain) (page fuel bound : ℕ)
    (history : String → List ConfirmedSignatureInfo) : Type 0 where
  pub pages : (account : String) → Pages (chain.fetch account) page (history account)
  pub sorted : (account : String) → IsNewestFirst bound (history account)
  pub enough : (account : String) → length (history account) < fuel

-- The recent signatures of the other tokens, none for lamports.
abbrev pub others_of :
    ViewerChain
    → (String → List ConfirmedSignatureInfo)
    → ℕ
    → TokenType
    → List ConfirmedSignatureInfo
others_of chain history until t =
    if token_beq t lamports then [] else recent_of history until (collector_of chain (some t))

-- What is asked for: the recent signatures of the token's collector, for lamports without those that
-- another token has too.
abbrev pub asked_for :
    ViewerChain
    → (String → List ConfirmedSignatureInfo)
    → ℕ
    → Option TokenType
    → List ConfirmedSignatureInfo
asked_for chain history until token_type =
    let recent = recent_of history until (collector_of chain token_type) in
    let others = map (others_of chain history until) get_token_types in
    if is_lamports chain token_type then keep_if (λ s. not (in_some others s)) recent else recent

module _ (chain : ViewerChain) (page fuel bound until : ℕ)
    (history : String → List ConfirmedSignatureInfo)
    (is_chain : IsChain chain page fuel bound history) where
  account_sigs :
      (account : String)
      → sigs_loop (chain.fetch account) until fuel none ≡ ok (recent_of history until account)
  account_sigs account =
      paged (chain.fetch account) page until (history account) bound (is_chain.pages account)
        (is_chain.sorted account) fuel none [] (history account) (is_chain.enough account) refl
        ((is_chain.pages account).newest)

  other_sigs :
      (t : TokenType) → non_lamport_sigs chain until fuel t ≡ ok (others_of chain history until t)
  unfolding non_lamport_sigs
  other_sigs t = elim (Bool-cases (token_beq t lamports)) [
    | inl same ↦ rw same refl
    | inr other ↦ rw other (rw other at (account_sigs (collector_of chain (some t))))
  ]

  all_others :
      (ts : List TokenType)
      → map_result (non_lamport_sigs chain until fuel) ts
        ≡ ok (map (others_of chain history until) ts)
  unfolding map_result
  all_others [] = refl
  all_others (t ∷ ts) = rw (other_sigs t, all_others ts) refl

  -- On a chain whose nodes answer in pages, newest first, the loops end and find every recent signature of
  -- the token's fee collector, once for each time that it stands there; for lamports those that another
  -- token has are left out.
  pub get_elusiv_sigs_last_time_lem :
      (token_type : Option TokenType)
      → get_elusiv_sigs_last_time chain until fuel token_type
        ≡ ok (asked_for chain history until token_type)
  unfolding get_elusiv_sigs_last_time
  get_elusiv_sigs_last_time_lem token_type =
      rw (account_sigs (collector_of chain token_type))
        (elim (Bool-cases (is_lamports chain token_type)) [
          | inl only ↦ rw (only, all_others get_token_types) refl
          | inr any ↦ rw any refl
        ])
