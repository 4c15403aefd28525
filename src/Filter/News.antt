-- ===== src/Filter/News.antt =====
-- glassbox/signal/filter.py: the filter of the headlines. What it remembers is passed on.
use glassbox_ai_quant.Prelude.{
  ltb, if◌then◌else◌, length, keep_if, value_or, contains, Dict, lookup, insert, ℕ, Bool, true,
  false, Option, none, some, List, [], ◌∷◌, ◌++◌,
}
use glassbox_ai_quant.Prelude.Int.{ℤ, ◌-ℤ◌, ltb_ℤ, leb_ℤ, max_ℤ}
use glassbox_ai_quant.Prelude.Decimal.{Decimal, whole}
use glassbox_ai_quant.Clock.{Instant, hours}
use glassbox_ai_quant.Config.{SignalCfg}
use glassbox_ai_quant.Filter.Words.{Text, boilerplate, occurs, tokenise, jaccard}

pub record NewsItem : Type 0 where
  pub symbol : ℕ
  pub headline : Text
  pub summary : Text
  pub created_at : Instant

pub data FilterReason : Type 0 where
  not_in_universe : FilterReason
  is_boilerplate : Text → FilterReason
  too_short : FilterReason
  stale : FilterReason
  restatement : FilterReason
  novel : FilterReason

pub record FilterResult : Type 0 where
  pub passed : Bool
  pub reason : FilterReason
  pub novelty_score : Decimal

-- What `NewsFilter.__init__` fixes.
pub record NewsFilter : Type 0 where
  pub universe : List ℕ
  pub cfg : SignalCfg
  pub threshold : Decimal

-- `NewsFilter(universe, cfg, similarity_threshold)`
abbrev pub new_filter : List ℕ → SignalCfg → Option Decimal → NewsFilter
new_filter universe cfg similarity = record {
  universe = universe;
  cfg = cfg;
  threshold = value_or cfg.novelty_similarity_threshold similarity;
}

-- `self.window`
abbrev pub window : NewsFilter → ℤ
window f = hours (whole f.cfg.novelty_window_hours)

abbrev pub Entry : Type 0
Entry = Instant × List Text

-- `self._seen`
abbrev pub Seen : Type 0
Seen = Dict (List Entry)

-- `self._seen.get(symbol, [])`
abbrev pub entries_of : ℕ → Seen → List Entry
entries_of symbol seen = value_or [] (lookup symbol seen)

-- `now - t <= self.window`
abbrev pub is_recent : NewsFilter → Instant → Entry → Bool
is_recent f now e = leb_ℤ (now -ℤ e.0) (window f)

abbrev pub recent : NewsFilter → ℕ → Instant → Seen → List Entry
recent f symbol now seen = keep_if (is_recent f now) (entries_of symbol seen)

-- `_prune`, without its result
unfoldable pub prune : NewsFilter → ℕ → Instant → Seen → Seen
prune f symbol now seen = insert symbol (recent f symbol now seen) seen

-- The tokens of the headline and the summary.
unfoldable pub tokens_of : (Text → Text) → NewsItem → List Text
tokens_of lower item = tokenise lower (item.headline ++ b' ' ∷ item.summary)

unfoldable pub most_alike : List Text → Entry → List Entry → Decimal
most_alike tokens e [] = jaccard tokens e.1
most_alike tokens e (d ∷ ds) = max_ℤ (jaccard tokens e.1) (most_alike tokens d ds)

abbrev pub novelty_among : List Text → List Entry → Decimal
novelty_among tokens [] = whole 1
novelty_among tokens (e ∷ es) = whole 1 -ℤ most_alike tokens e es

-- `novelty`, without the pruning
unfoldable pub novelty : (Text → Text) → NewsFilter → Seen → NewsItem → Decimal
novelty lower f seen item =
    novelty_among (tokens_of lower item) (recent f item.symbol item.created_at seen)

-- `remember`
unfoldable pub remember : (Text → Text) → NewsItem → Seen → Seen
remember lower item seen =
    insert item.symbol (entries_of item.symbol seen ++ (item.created_at, tokens_of lower item) ∷ [])
      seen

abbrev pub drop_as : FilterReason → FilterResult
drop_as r = record { passed = false; reason = r; novelty_score = whole 1 }

-- The first phrase of a list that a text has.
unfoldable pub first_phrase : List Text → Text → Option Text
first_phrase [] text = none
first_phrase (p ∷ ps) text = if occurs p text then some p else first_phrase ps text

-- What follows from the score.
unfoldable pub judge_novelty :
    (Text → Text) → NewsFilter → Seen → NewsItem → Decimal → Seen × FilterResult
judge_novelty lower f seen item score =
    if ltb_ℤ score (whole 1 -ℤ f.threshold)
    then (seen, record { passed = false; reason = restatement; novelty_score = score })
    else (remember lower item seen, record { passed = true; reason = novel; novelty_score = score })

-- The tests after that of the universe.
unfoldable pub screen :
    (Text → Text) → NewsFilter → Seen → NewsItem → Instant → Option Text → Seen × FilterResult
screen lower f seen item now (some phrase) = (seen, drop_as (is_boilerplate phrase))
screen lower f seen item now none =
    if ltb (length item.headline) f.cfg.min_headline_chars
    then (seen, drop_as too_short)
    else if ltb_ℤ (hours f.cfg.max_news_age_hours) (now -ℤ item.created_at)
    then (seen, drop_as stale)
    else judge_novelty lower f (prune f item.symbol item.created_at seen) item
        (novelty lower f seen item)

-- `evaluate`
unfoldable pub evaluate :
    (Text → Text) → NewsFilter → Seen → NewsItem → Option Instant → Seen × FilterResult
evaluate lower f seen item clock =
    if contains item.symbol f.universe
    then screen lower f seen item (value_or item.created_at clock)
        (first_phrase boilerplate (lower item.headline))
    else (seen, drop_as not_in_universe)
