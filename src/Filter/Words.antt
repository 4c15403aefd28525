-- ===== src/Filter/Words.antt =====
-- glassbox/signal/filter.py: texts as lists of code points, their tokens, and how much two sets of
-- tokens share. `str.lower` is an argument, since it reads Unicode's tables.
use Prim.Native.Char.{code}
use Prim.Native.String.{String}
use glassbox_ai_quant.Prelude.{
  leb, ◌==◌, if◌then◌else◌, length, any, keep_if, ℕ, ◌+◌, Bool, true, false, not, ◌&&◌, ◌||◌, List,
  [], ◌∷◌,
}
use glassbox_ai_quant.Prelude.Int.{pos}
use glassbox_ai_quant.Prelude.Decimal.{Decimal, whole, over}

abbrev pub Text : Type 0
Text = List ℕ

abbrev pub codes : String → Text
codes String.[] = []
codes (String.◌∷◌ c s) = code c ∷ codes s

abbrev pub boilerplate : List Text
boilerplate =
    codes "market update"
    ∷ codes "stocks moving"
    ∷ codes "movers"
    ∷ codes "watchlist"
    ∷ codes "what to watch"
    ∷ codes "premarket"
    ∷ codes "market recap"
    ∷ codes "closing bell"
    ∷ codes "opening bell"
    ∷ codes "top gainers"
    ∷ codes "top losers"
    ∷ codes "unusual options activity"
    ∷ codes "here's how much"
    ∷ codes "if you invested"
    ∷ []

abbrev stopwords : List Text
stopwords =
    codes "a"
    ∷ codes "an"
    ∷ codes "the"
    ∷ codes "of"
    ∷ codes "to"
    ∷ codes "in"
    ∷ codes "on"
    ∷ codes "for"
    ∷ codes "and"
    ∷ codes "or"
    ∷ codes "is"
    ∷ codes "are"
    ∷ codes "was"
    ∷ codes "were"
    ∷ codes "be"
    ∷ codes "been"
    ∷ codes "with"
    ∷ codes "as"
    ∷ codes "at"
    ∷ codes "by"
    ∷ codes "from"
    ∷ codes "this"
    ∷ codes "that"
    ∷ codes "it"
    ∷ codes "its"
    ∷ codes "has"
    ∷ codes "have"
    ∷ codes "had"
    ∷ codes "will"
    ∷ codes "would"
    ∷ codes "could"
    ∷ codes "after"
    ∷ codes "before"
    ∷ codes "said"
    ∷ codes "says"
    ∷ []

-- `a == b`, of texts
abbrev pub same_text : Text → Text → Bool
same_text [] [] = true
same_text (c ∷ cs) (d ∷ ds) = c == d && same_text cs ds
same_text _ _ = false

abbrev starts : Text → Text → Bool
starts [] t = true
starts (c ∷ cs) [] = false
starts (c ∷ cs) (d ∷ ds) = c == d && starts cs ds

-- `phrase in text`
unfoldable pub occurs : Text → Text → Bool
occurs phrase [] = starts phrase []
occurs phrase (c ∷ cs) = starts phrase (c ∷ cs) || occurs phrase cs

abbrev pub is_member : Text → List Text → Bool
is_member t ts = any (same_text t) ts

-- A character of the class `[a-z0-9']`.
abbrev is_token_char : ℕ → Bool
is_token_char c = leb b'a' c && leb c b'z' || leb b'0' c && leb c b'9' || c == b'\''

abbrev flush : Text → List Text → List Text
flush [] ts = ts
flush (c ∷ cs) ts = (c ∷ cs) ∷ ts

-- The run of token characters that a text starts with, and the runs after it.
unfoldable pub runs : Text → Text × List Text
runs [] = ([], [])
runs (c ∷ cs) =
    let (run, rest) = runs cs in if is_token_char c then (c ∷ run, rest) else ([], flush run rest)

-- `_TOKEN.findall`
unfoldable pub find_all : Text → List Text
find_all t = let (run, rest) = runs t in flush run rest

-- `frozenset`, without repetitions
unfoldable pub frozen : List Text → List Text
frozen [] = []
frozen (t ∷ ts) = let rest = frozen ts in if is_member t rest then rest else t ∷ rest

-- `tokenise`
unfoldable pub tokenise : (Text → Text) → Text → List Text
tokenise lower text = frozen (keep_if (λ t. not (is_member t stopwords)) (find_all (lower text)))

-- `a & b`
abbrev pub shared : List Text → List Text → List Text
shared a b = keep_if (λ t. is_member t b) a

-- `b - a`, what `a | b` has beyond `a`
abbrev pub beyond : List Text → List Text → List Text
beyond a b = keep_if (λ t. not (is_member t a)) b

abbrev pub is_empty {ℓ} : {A : Type ℓ} → List A → Bool
is_empty [] = true
is_empty (x ∷ xs) = false

-- `jaccard`
unfoldable pub jaccard : List Text → List Text → Decimal
jaccard a b =
    if is_empty a || is_empty b
    then pos 0
    else over (whole (length (shared a b))) (whole (length a + length (beyond a b)))
