-- ===== src/Filter/Repeats.antt =====
-- What the filter of glassbox/signal/filter.py has passed once, it does not pass again.
use glassbox_ai_quant.Prelude.{
  ltb, ◌==◌, if◌then◌else◌, Bool-cases, length, All, value_or, contains, insert, lookup-insert, ℕ,
  ◌≡◌, sym, ◌∙◌, ◌≢◌, inl, inr, true, false, Option, none, some, List, [], ◌∷◌, ◌++◌, arith,
}
use glassbox_ai_quant.Prelude.Int.{pos, ◌-ℤ◌, ◌≤ℤ◌, ◌<ℤ◌, ltb_ℤ}
use glassbox_ai_quant.Prelude.Decimal.{Decimal, whole}
use glassbox_ai_quant.Clock.{Instant, hours}
use glassbox_ai_quant.Filter.Words.{Text, boilerplate, is_empty}
use glassbox_ai_quant.Filter.News.{
  NewsItem, NewsFilter, window, Entry, Seen, entries_of, is_recent, recent, prune, tokens_of,
  novelty, remember, first_phrase, judge_novelty, screen, evaluate,
}
use glassbox_ai_quant.Filter.Overlap.{
  jaccard_self, IsAmong, IsAmong-append, IsAmong-last, IsAmong-keep, novelty_of_known,
}

entries-insert :
    (k j : ℕ) (es : List Entry) (seen : Seen)
    → entries_of j (insert k es seen) ≡ (if j == k then es else entries_of j seen)
entries-insert k j es seen = rw (lookup-insert k j es seen) (ground arith)

entries-insert_self : (k : ℕ) (es : List Entry) (seen : Seen) → entries_of k (insert k es seen) ≡ es
entries-insert_self k es seen = rw (entries-insert k k es seen) (ground arith)

-- The entry of a symbol that is remembered, in what is remembered.
abbrev pub IsKnown : ℕ → Entry → Seen → Type 0
IsKnown symbol e seen = IsAmong e (entries_of symbol seen)

IsKnown-of : (k j : ℕ) (e : Entry) (seen : Seen) → k ≡ j → IsKnown k e seen → IsKnown j e seen
IsKnown-of k j e seen q h = rw (sym q) h

-- An item is created at most a window after an entry.
abbrev pub IsWithin : NewsFilter → Entry → NewsItem → Type 0
IsWithin f e item = item.created_at -ℤ e.0 ≤ℤ window f

module _ (lower : Text → Text) (f : NewsFilter) (k : ℕ) (e : Entry) where
  IsKnown-insert :
      (j : ℕ) (es : List Entry) (seen : Seen)
      → (k ≡ j → IsAmong e es)
      → IsKnown k e seen
      → IsKnown k e (insert j es seen)
  IsKnown-insert j es seen h known = elim (Bool-cases (k == j)) [
    | inl q ↦ rw (entries-insert j k es seen, q) (h (ground (arith, q)))
    | inr q ↦ rw (entries-insert j k es seen, q) known
  ]

  IsKnown-prune :
      (item : NewsItem) (seen : Seen)
      → IsWithin f e item
      → IsKnown k e seen
      → IsKnown k e (prune f item.symbol item.created_at seen)
  unfolding prune
  IsKnown-prune item seen w known =
      IsKnown-insert item.symbol (recent f item.symbol item.created_at seen) seen
        (λ q.
          IsAmong-keep (is_recent f item.created_at) e (entries_of item.symbol seen)
            (ground (arith, w)) (IsKnown-of k item.symbol e seen q known))
        known

  IsKnown-remember :
      (item : NewsItem) (seen : Seen) → IsKnown k e seen → IsKnown k e (remember lower item seen)
  unfolding remember
  IsKnown-remember item seen known =
      IsKnown-insert item.symbol _ seen
        (λ q.
          IsAmong-append e (entries_of item.symbol seen) _
            (IsKnown-of k item.symbol e seen q known))
        known

  IsKnown-judge :
      (item : NewsItem) (seen : Seen) (score : Decimal)
      → IsKnown k e seen
      → IsKnown k e (judge_novelty lower f seen item score).0
  unfolding judge_novelty
  IsKnown-judge item seen score known = elim (Bool-cases (ltb_ℤ score (whole 1 -ℤ f.threshold))) [
    | inl q ↦ rw q known
    | inr q ↦ rw q (IsKnown-remember item seen known)
  ]

  IsKnown-screen :
      (item : NewsItem) (now : Instant) (phrase : Option Text) (seen : Seen)
      → IsWithin f e item
      → IsKnown k e seen
      → IsKnown k e (screen lower f seen item now phrase).0
  unfolding screen
  IsKnown-screen item now (some phrase) seen w known = known
  IsKnown-screen item now none seen w known =
      elim (Bool-cases (ltb (length item.headline) f.cfg.min_headline_chars)) [
        | inl q ↦ rw q known
        | inr q ↦
            rw q
              (elim (Bool-cases (ltb_ℤ (hours f.cfg.max_news_age_hours) (now -ℤ item.created_at))) [
                | inl r ↦ rw r known
                | inr r ↦ rw r (
                    IsKnown-judge item _ (novelty lower f seen item)
                      (IsKnown-prune item seen w known))
              ])
      ]

  -- No evaluation of an item that is created within the window forgets an entry.
  IsKnown-evaluate :
      (item : NewsItem) (clock : Option Instant) (seen : Seen)
      → IsWithin f e item
      → IsKnown k e seen
      → IsKnown k e (evaluate lower f seen item clock).0
  unfolding evaluate
  IsKnown-evaluate item clock seen w known = elim (Bool-cases (contains item.symbol f.universe)) [
    | inl q ↦ rw q (IsKnown-screen item _ _ seen w known)
    | inr q ↦ rw q known
  ]

-- `evaluate` of one item after the other, each at its own time.
unfoldable pub evaluate_all :
    (Text → Text) → NewsFilter → List (NewsItem × Option Instant) → Seen → Seen
evaluate_all lower f [] seen = seen
evaluate_all lower f ((item, clock) ∷ rest) seen =
    evaluate_all lower f rest (evaluate lower f seen item clock).0

IsKnown-evaluate_all :
    (lower : Text → Text) (f : NewsFilter) (k : ℕ) (e : Entry)
    (items : List (NewsItem × Option Instant)) (seen : Seen)
    → All (λ p. IsWithin f e p.0) items
    → IsKnown k e seen
    → IsKnown k e (evaluate_all lower f items seen)
unfolding evaluate_all
IsKnown-evaluate_all lower f k e [] seen w known = known
IsKnown-evaluate_all lower f k e ((item, clock) ∷ rest) seen w known =
    IsKnown-evaluate_all lower f k e rest (evaluate lower f seen item clock).0 w.1
      (IsKnown-evaluate lower f k e item clock seen w.0 known)

-- The entry of an item.
abbrev pub entry_of : (Text → Text) → NewsItem → Entry
entry_of lower item = (item.created_at, tokens_of lower item)

passed-judge :
    (lower : Text → Text) (f : NewsFilter) (seen : Seen) (item : NewsItem) (score : Decimal)
    → (judge_novelty lower f seen item score).1.passed ≡ true
    → (ltb_ℤ score (whole 1 -ℤ f.threshold) ≡ false)
      × ((judge_novelty lower f seen item score).0 ≡ remember lower item seen)
unfolding judge_novelty
passed-judge lower f seen item score h = ground (arith, h)

passed-screen :
    (lower : Text → Text) (f : NewsFilter) (seen : Seen) (item : NewsItem) (now : Instant)
    (phrase : Option Text)
    → (screen lower f seen item now phrase).1.passed ≡ true
    → let r =
        judge_novelty lower f
          (prune f item.symbol item.created_at seen)
          item
          (novelty lower f seen item) in
      (r.1.passed ≡ true) × ((screen lower f seen item now phrase).0 ≡ r.0)
unfolding screen
passed-screen lower f seen item now (some phrase) h = absurd (ground (arith, h))
passed-screen lower f seen item now none h = ground (arith, h)

-- What passes is not too like what is remembered, and is remembered itself.
passed-evaluate :
    (lower : Text → Text) (f : NewsFilter) (seen : Seen) (item : NewsItem) (clock : Option Instant)
    → (evaluate lower f seen item clock).1.passed ≡ true
    → (ltb_ℤ (novelty lower f seen item) (whole 1 -ℤ f.threshold) ≡ false)
      × ((evaluate lower f seen item clock).0
          ≡ remember lower item (prune f item.symbol item.created_at seen))
unfolding evaluate
passed-evaluate lower f seen item clock h = elim (Bool-cases (contains item.symbol f.universe)) [
  | inl q ↦
      let now = value_or item.created_at clock in
      let phrase = first_phrase boilerplate (lower item.headline) in
      let (p, same) = passed-screen lower f seen item now phrase (ground (arith, h, q)) in
      let (bar, kept) =
        passed-judge lower f (prune f item.symbol item.created_at seen) item
          (novelty lower f seen item) p in
      rw q (bar, same ∙ kept)
  | inr q ↦ absurd (ground (arith, h, q))
]

-- What passes is known then.
IsKnown-passed :
    (lower : Text → Text) (f : NewsFilter) (seen : Seen) (item : NewsItem) (clock : Option Instant)
    → (evaluate lower f seen item clock).1.passed ≡ true
    → IsKnown item.symbol (entry_of lower item) (evaluate lower f seen item clock).0
unfolding remember
IsKnown-passed lower f seen item clock h =
    let pruned = prune f item.symbol item.created_at seen in
    let e = entry_of lower item in
    rw
      (
        (passed-evaluate lower f seen item clock h).1,
        entries-insert_self item.symbol (entries_of item.symbol pruned ++ e ∷ []) pruned,
      )
      (IsAmong-last e (entries_of item.symbol pruned))

-- An item with the tokens of a known entry is not novel at all.
known_low :
    (lower : Text → Text) (f : NewsFilter) (item again : NewsItem) (seen : Seen)
    → is_empty (tokens_of lower item) ≡ false
    → tokens_of lower again ≡ tokens_of lower item
    → IsWithin f (entry_of lower item) again
    → IsKnown again.symbol (entry_of lower item) seen
    → novelty lower f seen again ≤ℤ pos 0
unfolding novelty
known_low lower f item again seen some_token tok_eq w known =
    let ts = tokens_of lower item in
    let e = entry_of lower item in
    rw tok_eq (
      novelty_of_known ts e (recent f again.symbol again.created_at seen)
        (IsAmong-keep (is_recent f again.created_at) e (entries_of again.symbol seen)
          (ground (arith, w)) known)
        (jaccard_self ts some_token))

low_bar :
    (score threshold : Decimal)
    → threshold <ℤ whole 1
    → score ≤ℤ pos 0
    → ltb_ℤ score (whole 1 -ℤ threshold) ≢ false
unfolding ◌-ℤ◌
low_bar score threshold t low bar = ground (arith, t, low, bar)

-- What passes once is not passed again as a restatement: after `evaluate` passes an item, and after any
-- number of evaluations of items that are created within the window after it, `evaluate` does not pass
-- an item of the same symbol and of the same tokens that is created within the window. There must be
-- at least one token, and the threshold must be less than one.
pub restatement_dropped :
    (lower : Text → Text) (f : NewsFilter) (seen : Seen) (item again : NewsItem)
    (clock clock' : Option Instant) (items : List (NewsItem × Option Instant))
    → f.threshold <ℤ whole 1
    → is_empty (tokens_of lower item) ≡ false
    → (evaluate lower f seen item clock).1.passed ≡ true
    → All (λ p. IsWithin f (entry_of lower item) p.0) items
    → IsWithin f (entry_of lower item) again
    → again.symbol ≡ item.symbol
    → tokens_of lower again ≡ tokens_of lower item
    → (evaluate lower f
        (evaluate_all lower f items (evaluate lower f seen item clock).0)
        again
        clock').1.passed
      ≡ false
restatement_dropped lower f seen item again clock clock' items t some_token h ws w sym_eq tok_eq =
    let e = entry_of lower item in
    let after = (evaluate lower f seen item clock).0 in
    let later = evaluate_all lower f items after in
    let kept = IsKnown-passed lower f seen item clock h in
    let known = IsKnown-evaluate_all lower f item.symbol e items after ws kept in
    let low =
      known_low lower f item again later some_token tok_eq w
        (IsKnown-of item.symbol again.symbol e later (sym sym_eq) known) in
    elim (Bool-cases (evaluate lower f later again clock').1.passed) [
      | inl q ↦ absurd (
          low_bar (novelty lower f later again) f.threshold t low
            (passed-evaluate lower f later again clock' q).0)
      | inr q ↦ q
    ]
