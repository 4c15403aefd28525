-- ===== src/Portfolio.antt =====
-- glassbox/portfolio.py: the aggregate of the open positions, and correlated exposure.
pub mod Totals
use glassbox_ai_quant.Prelude.{
  ltb, ◌==◌, if◌then◌else◌, Dict, lookup, insert, ℕ, ◌+◌, ◌&&◌, Option, none, some, List, [], ◌∷◌,
}
use glassbox_ai_quant.Prelude.Int.{pos, ◌+ℤ◌, abs, leb_ℤ}
use glassbox_ai_quant.Prelude.Decimal.{Decimal}

pub record Greeks : Type 0 where
  pub delta_dollars : Decimal
  pub vega : Decimal
  pub gamma : Decimal
  pub theta : Decimal

-- `Greeks()`
abbrev pub no_greeks : Greeks
no_greeks = record { delta_dollars = pos 0; vega = pos 0; gamma = pos 0; theta = pos 0 }

-- `Greeks.__add__`
unfoldable pub add_greeks : Greeks → Greeks → Greeks
unfolding ◌+ℤ◌
add_greeks g h = record {
  delta_dollars = g.delta_dollars +ℤ h.delta_dollars;
  vega = g.vega +ℤ h.vega;
  gamma = g.gamma +ℤ h.gamma;
  theta = g.theta +ℤ h.theta;
}

pub record PortfolioState : Type 0 where
  pub heat : Decimal
  pub greeks : Greeks
  pub positions_by_underlying : Dict ℕ
  pub open_position_count : ℕ

-- `d.get(k, default)`
abbrev pub get_or {ℓ} : {A : Type ℓ} → Option A → A → A
get_or none d = d
get_or (some a) d = a

-- What `snapshot` reads of a row of `store.open_positions()`.
pub record HeldRow : Type 0 where
  pub position_id : ℕ
  pub underlying : ℕ
  pub max_loss : Decimal

-- One turn of the loop of `snapshot`.
unfoldable pub add_row : Dict Greeks → PortfolioState → HeldRow → PortfolioState
unfolding ◌+ℤ◌ add_greeks
add_row greeks_by_position s row = record {
  heat = s.heat +ℤ row.max_loss;
  greeks = add_greeks s.greeks (get_or (lookup row.position_id greeks_by_position) no_greeks);
  positions_by_underlying =
      insert row.underlying (get_or (lookup row.underlying s.positions_by_underlying) 0 + 1)
        s.positions_by_underlying;
  open_position_count = s.open_position_count + 1;
}

abbrev pub empty_portfolio : PortfolioState
empty_portfolio = record {
  heat = pos 0;
  greeks = no_greeks;
  positions_by_underlying = [];
  open_position_count = 0;
}

unfoldable pub snapshot_from : Dict Greeks → PortfolioState → List HeldRow → PortfolioState
unfolding add_row
snapshot_from g s [] = s
snapshot_from g s (row ∷ rows) = snapshot_from g (add_row g s row) rows

unfoldable pub snapshot : List HeldRow → Dict Greeks → PortfolioState
unfolding snapshot_from
snapshot rows g = snapshot_from g empty_portfolio rows

-- The correlations, keyed by a pair of names.
abbrev pub Correlations : Type 0
Correlations = List ((ℕ × ℕ) × Decimal)

-- `correlations.get((a, b), 0.0)`
pub correlation_of : ℕ → ℕ → Correlations → Decimal
correlation_of a b [] = pos 0
correlation_of a b ((k, c) ∷ rest) = if k.0 == a && k.1 == b then c else correlation_of a b rest

-- The key of two names, the smaller first.
abbrev pub pair_correlation : ℕ → ℕ → Correlations → Decimal
pair_correlation a b cs = if ltb b a then correlation_of b a cs else correlation_of a b cs

unfoldable pub correlated_exposure : Dict ℕ → ℕ → Correlations → Decimal → ℕ
unfolding correlation_of abs
correlated_exposure [] candidate cs threshold = 0
correlated_exposure ((underlying, n) ∷ rest) candidate cs threshold =
    let others = correlated_exposure rest candidate cs threshold in
    if underlying == candidate
    then others
    else if leb_ℤ threshold (abs (pair_correlation underlying candidate cs))
    then n + others
    else others
