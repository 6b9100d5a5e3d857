-- ===== src/Parsing/Marks.antt =====
-- ResponseConverter.ts: the inner loop finds the init of a finalize, and marks it.
use elusiv_sdk.Base.{
  ℕ, Bool, true, false, ◌≡◌, ◌≢◌, refl, sym, ap, ◌∙◌, arith, String, Option, none, some, List, [],
  ◌∷◌, All, In, inl, inr, ◌==◌, Bool-cases,
}
use elusiv_sdk.Base.Eq.{beq, beq_iff, string_eq}
use elusiv_sdk.Result.{ok, map_ok, ◌>>=◌}
use elusiv_sdk.Parsing.Response.{matches, found_here, keep_mark, find_init}
use elusiv_sdk.Parsing.History.{
  Event, init_event, finalize_event, store_event, without, open_sends, started, IsHistory, has,
  ShowAll, init_of,
}

-- The marks of the responses once the finalizes of `seen` have found their inits.
abbrev pub marks_of : List ℕ → List Event → List Bool
marks_of seen [] = []
marks_of seen (init_event s a ∷ es) = has s seen ∷ marks_of seen es
marks_of seen (finalize_event s a ∷ es) = false ∷ marks_of seen es
marks_of seen (store_event ∷ es) = false ∷ marks_of seen es

In-without :
    (t s : ℕ) (a : String) (os : List (ℕ × String)) → In (s, a) (without t os) → In (s, a) os
In-without t s a [] h = h
In-without t s a (o ∷ os) h = elim (Bool-cases (o.0 == t)) [
  | inl gone ↦ inr (In-without t s a os (rw gone at h))
  | inr kept ↦ elim (rw kept at h) [ inl e ↦ inl e | inr later ↦ inr (In-without t s a os later) ]
]

open-started :
    (s : ℕ) (a : String) (es : List Event) → In (s, a) (open_sends es) → In s (started es)
open-started s a [] h = absurd h.lower
open-started s a (init_event t b ∷ es) (inl e) = inl (ap (λ (o : ℕ × String). o.0) e)
open-started s a (init_event t b ∷ es) (inr h) = inr (open-started s a es h)
open-started s a (finalize_event t b ∷ es) h =
    open-started s a es (In-without t s a (open_sends es) h)
open-started s a (store_event ∷ es) h = open-started s a es h

All-In {ℓ κ} : {A : Type ℓ} (P : A → Type κ) (xs : List A) (x : A) → All P xs → In x xs → P x
All-In P [] x h i = absurd i.lower
All-In P (y ∷ ys) x (h, hs) (inl e) = rw e h
All-In P (y ∷ ys) x (h, hs) (inr i) = All-In P ys x hs i

-- A send that did not start in these events changes no mark of theirs.
marks_absent :
    (s : ℕ) (seen : List ℕ) (es : List Event)
    → All (λ t. t ≢ s) (started es)
    → marks_of (s ∷ seen) es ≡ marks_of seen es
marks_absent s seen [] h = refl
marks_absent s seen (init_event t a ∷ es) (other, h) =
    let differ : (s == t) ≡ false = ground arith in rw (differ, marks_absent s seen es h) refl
marks_absent s seen (finalize_event t a ∷ es) h = ap (λ ms. false ∷ ms) (marks_absent s seen es h)
marks_absent s seen (store_event ∷ es) h = ap (λ ms. false ∷ ms) (marks_absent s seen es h)

module _ {T : Type 0} (is_store : T → Bool)
    (finalize_acc init_acc : T → Option (Option String)) where
  find_step :
      (acc : Option String) (tx : T) (txs : List T) (v : Bool) (vs : List Bool)
      → find_init is_store finalize_acc init_acc acc (tx ∷ txs) (v ∷ vs) ≡ (
          matches is_store finalize_acc init_acc acc (init_acc tx) >>= λ here.
          found_here is_store finalize_acc init_acc here
            (tx, true ∷ vs)
            (map_ok
              (keep_mark is_store finalize_acc init_acc v)
              (find_init is_store finalize_acc init_acc acc txs vs)))
  unfolding find_init
  find_step acc tx txs v vs = refl

  pub find_skip :
      (acc : Option String) (tx init : T) (txs : List T) (v : Bool) (vs ms : List Bool)
      → matches is_store finalize_acc init_acc acc (init_acc tx) ≡ ok false
      → find_init is_store finalize_acc init_acc acc txs vs ≡ ok (some (init, ms))
      → find_init is_store finalize_acc init_acc acc (tx ∷ txs) (v ∷ vs) ≡ ok (some (init, v ∷ ms))
  find_skip acc tx init txs v vs ms other later = find_step acc tx txs v vs ∙ rw (other, later) refl

  find_hit :
      (acc : Option String) (tx : T) (txs : List T) (v : Bool) (vs : List Bool)
      → matches is_store finalize_acc init_acc acc (init_acc tx) ≡ ok true
      → find_init is_store finalize_acc init_acc acc (tx ∷ txs) (v ∷ vs) ≡ ok (some (tx, true ∷ vs))
  find_hit acc tx txs v vs here = find_step acc tx txs v vs ∙ rw here refl

  match_same :
      (a b : String) (tx : T)
      → init_acc tx ≡ some (some b)
      → a ≡ b
      → matches is_store finalize_acc init_acc (some a) (init_acc tx) ≡ ok true
  match_same a b tx shows e = let same = (beq_iff b a).1 (sym e) in rw (shows, same) refl

  match_other :
      (a b : String) (tx : T)
      → init_acc tx ≡ some (some b)
      → a ≢ b
      → matches is_store finalize_acc init_acc (some a) (init_acc tx) ≡ ok false
  match_other a b tx shows differ = elim (Bool-cases (beq b a)) [
    | inl same ↦ absurd (differ (sym ((beq_iff b a).0 same)))
    | inr other ↦ rw (shows, other) refl
  ]

  pub match_none :
      (acc : Option String) (tx : T)
      → init_acc tx ≡ none
      → matches is_store finalize_acc init_acc acc (init_acc tx) ≡ ok false
  match_none acc tx shows = rw shows refl

  -- The inner loop finds the init of an open send, and marks it.
  pub find_own :
      (s : ℕ) (a : String) (seen : List ℕ) (es : List Event) (txs : List T)
      → IsHistory es
      → ShowAll is_store finalize_acc init_acc es txs
      → In (s, a) (open_sends es)
      → (init : T) × (init_of s es txs ≡ some init)
        × (find_init is_store finalize_acc init_acc (some a) txs (marks_of seen es)
            ≡ ok (some (init, marks_of (s ∷ seen) es)))
  find_own s a seen [] txs h shown i = absurd i.lower
  find_own s a seen (e ∷ es) [] h shown i = elim shown [ ]
  find_own s a seen (init_event t b ∷ es) (tx ∷ txs) (free, fresh, h) ((shows, _, _), shown)
        (inl e) =
      let same : s ≡ t = ap (λ (o : ℕ × String). o.0) e in
      let acc : a ≡ b = ap (λ (o : ℕ × String). o.1) e in
      let own : (t == s) ≡ true = ground arith in
      let own' : (s == t) ≡ true = ground arith in
      let rest = marks_absent s seen es (rw (sym same) at fresh) in
      (
        tx,
        rw own refl,
        rw (own', rest)
            (find_hit (some a) tx txs (has t seen) (marks_of seen es)
              (match_same a b tx shows acc)),
      )
  find_own s a seen (init_event t b ∷ es) (tx ∷ txs) (free, fresh, h) ((shows, _, _), shown)
        (inr i) =
      let differ : s ≢ t = All-In (λ u. u ≢ t) (started es) s fresh (open-started s a es i) in
      let acc : a ≢ b = All-In (λ (o : ℕ × String). o.1 ≢ b) (open_sends es) (s, a) free i in
      let other : (t == s) ≡ false = ground arith in
      let other' : (s == t) ≡ false = ground arith in
      let (init, known, found) = find_own s a seen es txs h shown i in
      (
        init,
        rw other known,
        rw other' (
            find_skip (some a) tx init txs (has t seen) (marks_of seen es) (marks_of (s ∷ seen) es)
              (match_other a b tx shows acc) found),
      )
  find_own s a seen (finalize_event t b ∷ es) (tx ∷ txs) (_, h) ((shows, _, _), shown) i =
      let (init, known, found) =
        find_own s a seen es txs h shown (In-without t s a (open_sends es) i) in
      (
        init,
        known,
        find_skip (some a) tx init txs false (marks_of seen es) (marks_of (s ∷ seen) es)
            (match_none (some a) tx shows) found,
      )
  find_own s a seen (store_event ∷ es) (tx ∷ txs) h ((shows, _, _), shown) i =
      let (init, known, found) = find_own s a seen es txs h shown i in
      (
        init,
        known,
        find_skip (some a) tx init txs false (marks_of seen es) (marks_of (s ∷ seen) es)
            (match_none (some a) tx shows) found,
      )
