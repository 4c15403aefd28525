-- ===== src/Tests/Headlines.antt =====
-- Runs of glassbox/signal/filter.py.
use glassbox_ai_quant.Prelude.{
  leb, if◌then◌else◌, ℕ, ◌+◌, ◌*◌, ◌≡◌, refl, true, false, ◌&&◌, none, some, [], ◌∷◌, map, arith,
}
use glassbox_ai_quant.Prelude.Int.{pos, ◌-ℤ◌, ◌*ℤ◌}
use glassbox_ai_quant.Config.{default_signal}
use glassbox_ai_quant.Filter.Words.{Text, codes, occurs, runs, find_all, frozen, tokenise, is_empty}
use glassbox_ai_quant.Filter.News.{
  NewsItem, is_boilerplate, stale, NewsFilter, new_filter, tokens_of, novelty, first_phrase,
  judge_novelty, screen, evaluate,
}
use glassbox_ai_quant.Filter.Repeats.{IsWithin, evaluate_all, entry_of, restatement_dropped}

abbrev ascii_lower : ℕ → ℕ
ascii_lower c = if leb b'A' c && leb c b'Z' then c + 32 else c

abbrev lowered : Text → Text
lowered t = map ascii_lower t

-- In seconds after the first item.
abbrev item_at : ℕ → Text → ℕ → NewsItem
item_at symbol headline time = record {
  symbol = symbol;
  headline = headline;
  summary = codes "Sales up";
  created_at = pos (time * 1000000);
}

abbrev first_item : NewsItem
first_item = item_at 3 (codes "Acme raises the guidance") 0

-- Another wire's wording, with the same tokens.
abbrev reworded : NewsItem
reworded = item_at 3 (codes "ACME raises guidance") 600

abbrev elsewhere : NewsItem
elsewhere = item_at 4 (codes "Acme raises the guidance") 300

abbrev news_filter : NewsFilter
news_filter = new_filter (3 ∷ 4 ∷ []) default_signal none

first_passes : (evaluate lowered news_filter [] first_item none).1.passed ≡ true
unfolding evaluate screen judge_novelty first_phrase occurs novelty ◌-ℤ◌ ◌*ℤ◌
first_passes = refl

recap_dropped :
    (evaluate lowered news_filter []
      (item_at 3 (codes "Market Recap: stocks fall") 0)
      none).1.reason
    ≡ is_boilerplate (codes "market recap")
unfolding evaluate screen first_phrase occurs
recap_dropped = refl

stale_dropped :
    (evaluate lowered news_filter [] first_item (some (pos 7200000001))).1.reason ≡ stale
unfolding evaluate screen first_phrase occurs ◌-ℤ◌ ◌*ℤ◌
stale_dropped = refl

same_tokens : tokens_of lowered reworded ≡ tokens_of lowered first_item
unfolding tokens_of tokenise find_all runs frozen
same_tokens = refl

some_token : is_empty (tokens_of lowered first_item) ≡ false
unfolding tokens_of tokenise find_all runs frozen
some_token = refl

elsewhere-IsWithin : IsWithin news_filter (entry_of lowered first_item) elsewhere
unfolding ◌-ℤ◌ ◌*ℤ◌
elsewhere-IsWithin = omega arith

reworded-IsWithin : IsWithin news_filter (entry_of lowered first_item) reworded
unfolding ◌-ℤ◌ ◌*ℤ◌
reworded-IsWithin = omega arith

restatement_dropped_example :
    (evaluate lowered news_filter
      (evaluate_all lowered news_filter
        ((elsewhere, none) ∷ [])
        (evaluate lowered news_filter [] first_item none).0)
      reworded
      none).1.passed
    ≡ false
restatement_dropped_example =
    restatement_dropped lowered news_filter [] first_item reworded none none
      ((elsewhere, none) ∷ []) (omega arith) some_token first_passes (elsewhere-IsWithin, tt)
      reworded-IsWithin refl same_tokens
