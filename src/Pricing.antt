-- ===== src/Pricing.antt =====
-- Renewal prices: applyPortfolioPricing, eligibleForRenewalPrice and needsPricingCatalog in
-- src/internal/monitor/pricing.go. The list of public suffixes is an argument.
use domain_monitor.Base.{
  contains, distinct, ap, ◌∙◌, Bool-cases, Option-cases, get_or_else, ◌≡◌, refl, inl, inr, Bool,
  true, false, not, ◌&&◌, ◌||◌, List, [], ◌∷◌, Option, none, some, arith, if◌then◌else◌, is_empty,
  any, Map, lookup, insert, lookup-insert,
}
use domain_monitor.Text.{Text, text_beq, text_beq_iff, text_eq, Unicode}
use domain_monitor.Utils.{normalize_domain}
use domain_monitor.Types.Float.{Float64, pos, is_positive}
use domain_monitor.Types.Status.{unknown, same_status}
use domain_monitor.Types.Portfolio.{names}
use domain_monitor.Types.Config.{DomainConfig, AppConfig, is_delegated_zone}
use domain_monitor.Types.Results.{RdapState, CheckState}

-- pricingCatalog, without the time of its fetch.
abbrev pub Catalog : Type 0
Catalog = Map Text Float64

unfoldable pub needs_pricing_catalog : AppConfig → Bool
unfolding any is_delegated_zone
needs_pricing_catalog cfg =
    any (λ d. not (is_delegated_zone d) && not (is_positive d.renewal_price)) cfg.domains

-- The state of a domain that may get a price.
unfoldable pub eligible_for_renewal_price : DomainConfig → Map Text RdapState → Option RdapState
unfolding is_delegated_zone
eligible_for_renewal_price domain states =
    if is_delegated_zone domain then none else elim (lookup domain.domain states) [
      | none ↦ none
      | some state ↦
          if not (same_status state.status unknown) && not state.expiry_confirmed
          then some state
          else none
    ]

-- The first configured domain of a name.
unfoldable pub configured : List DomainConfig → Text → Option DomainConfig
configured [] x = none
configured (d ∷ domains) x =
    let rest = configured domains x in if text_beq d.domain x then some d else rest

module _ (u : Unicode) (public_suffix : Text → Text) where
  unfoldable pub extract_tld : Text → Text
  unfolding normalize_domain
  extract_tld domain =
      let name = normalize_domain u domain in
      if not (is_empty (public_suffix name)) then public_suffix name else name

  -- The price of a domain: its own, or that of the catalog, if it is positive.
  unfoldable pub price_of : Option Catalog → DomainConfig → Option Float64
  unfolding extract_tld
  price_of catalog domain =
      if is_positive domain.renewal_price then some domain.renewal_price else elim catalog [
        | none ↦ none
        | some prices ↦ elim (lookup (extract_tld domain.domain) prices) [
          | none ↦ none
          | some price ↦ if is_positive price then some price else none
        ]
      ]

  -- One round of the loop.
  unfoldable pub apply_price :
      Option Catalog → DomainConfig → Map Text RdapState → Map Text RdapState
  unfolding eligible_for_renewal_price price_of
  apply_price catalog domain states = elim (eligible_for_renewal_price domain states) [
    | none ↦ states
    | some state ↦ elim (price_of catalog domain) [
      | none ↦ states
      | some price ↦ insert domain.domain (record state { renewal_price = price }) states
    ]
  ]

  unfoldable pub apply_prices :
      Option Catalog → List DomainConfig → Map Text RdapState → Map Text RdapState
  unfolding apply_price
  apply_prices catalog [] states = states
  apply_prices catalog (d ∷ domains) states =
      apply_prices catalog domains (apply_price catalog d states)

  unfoldable pub apply_portfolio_pricing : AppConfig → CheckState → Option Catalog → CheckState
  unfolding apply_prices
  apply_portfolio_pricing cfg state catalog = record state {
    rdap = apply_prices catalog cfg.domains state.rdap;
  }

  -- The renewal price that a domain is due, against its configured price and the catalog.
  unfoldable pub due_price : Option Catalog → DomainConfig → Float64 → Float64
  unfolding extract_tld
  due_price catalog domain before =
      let listed =
        get_or_else (lookup (extract_tld domain.domain) (get_or_else catalog [])) (pos 0) in
      if is_positive domain.renewal_price
      then domain.renewal_price
      else if is_positive listed
      then listed
      else before

  -- The entry of a domain after the pricing, by the entry before.
  unfoldable pub priced : Option Catalog → DomainConfig → RdapState → RdapState
  unfolding due_price
  priced catalog domain state =
      let passed =
        is_delegated_zone domain || same_status state.status unknown || state.expiry_confirmed in
      if passed
      then state
      else record state { renewal_price = due_price catalog domain state.renewal_price }

  unfoldable pub entry_after :
      Option Catalog → Option DomainConfig → Option RdapState → Option RdapState
  entry_after catalog none before = before
  entry_after catalog (some d) none = none
  entry_after catalog (some d) (some state) = some (priced catalog d state)

  price_of-due :
      (catalog : Option Catalog) (d : DomainConfig) (state : RdapState)
      → record state { renewal_price = due_price catalog d state.renewal_price }
        ≡ elim (price_of catalog d) [
          | none ↦ state
          | some price ↦ record state { renewal_price = price }
        ]
  unfolding price_of due_price lookup
  price_of-due none d state = ground arith
  price_of-due (some prices) d state = elim (Option-cases (lookup (extract_tld d.domain) prices)) [
    | inl n ↦ ground (arith, n)
    | inr (p, n) ↦ ground (arith, n)
  ]

  apply_price-lookup :
      (catalog : Option Catalog) (d : DomainConfig) (states : Map Text RdapState) (x : Text)
      → lookup x (apply_price catalog d states) ≡ (
          if text_beq d.domain x
          then entry_after catalog (some d) (lookup d.domain states)
          else lookup x states)
  unfolding apply_price priced eligible_for_renewal_price entry_after
  apply_price-lookup catalog d states x =
      let same = λ (h : text_beq d.domain x ≡ true).
        ap (λ t. lookup t states) ((text_beq_iff d.domain x).0 h) in
      elim (Option-cases (lookup d.domain states)) [
        | inl n ↦ ground (arith, n, same)
        | inr (st, n) ↦ elim (Option-cases (price_of catalog d)) [
          | inl q ↦ ground (arith, n, q, same, price_of-due catalog d st)
          | inr (p, q) ↦ ground (
            arith,
            n,
            q,
            same,
            price_of-due catalog d st,
            lookup-insert d.domain x (record st { renewal_price = p }) states,
          )
        ]
      ]

  apply_prices-other :
      (catalog : Option Catalog) (domains : List DomainConfig) (states : Map Text RdapState)
      (x : Text)
      → contains (names domains) x ≡ false
      → lookup x (apply_prices catalog domains states) ≡ lookup x states
  unfolding apply_prices contains
  apply_prices-other catalog [] states x h = refl
  apply_prices-other catalog (d ∷ domains) states x h = ground (
    arith,
    apply_prices-other catalog domains (apply_price catalog d states) x,
    apply_price-lookup catalog d states x,
  )

  apply_prices-lookup :
      (catalog : Option Catalog) (domains : List DomainConfig) (states : Map Text RdapState)
      (x : Text)
      → distinct (names domains) ≡ true
      → lookup x (apply_prices catalog domains states)
        ≡ entry_after catalog (configured domains x) (lookup x states)
  unfolding apply_prices distinct configured entry_after
  apply_prices-lookup catalog [] states x h = refl
  apply_prices-lookup catalog (d ∷ domains) states x h = elim (Bool-cases (text_beq d.domain x)) [
    | inl e ↦
        let same = (text_beq_iff d.domain x).0 e in
        let apart : contains (names domains) x ≡ false = rw (← same) (ground (arith, h)) in
        apply_prices-other catalog domains (apply_price catalog d states) x apart
        ∙ (apply_price-lookup catalog d states x ∙ rw (e, same) refl)
    | inr e ↦
        let seen : lookup x (apply_price catalog d states) ≡ lookup x states =
          apply_price-lookup catalog d states x ∙ ground (arith, e) in
        rw e (
          apply_prices-lookup catalog domains (apply_price catalog d states) x (ground (arith, h))
          ∙ ap (entry_after catalog (configured domains x)) seen)
  ]

  -- Where no two domains have the same name, for every name: an entry of a name that is not configured
  -- stays as it was, and none is added; the entry of a configured domain of its own zone whose check
  -- has run and whose expiry is not confirmed gets the configured price, if that is positive, or else
  -- the price that the catalog has for its public suffix, if that is positive, and is otherwise
  -- unchanged; the entry of any other configured domain stays as it was.
  pub apply_portfolio_pricing-lookup :
      (cfg : AppConfig) (state : CheckState) (catalog : Option Catalog) (x : Text)
      → distinct (names cfg.domains) ≡ true
      → lookup x (apply_portfolio_pricing cfg state catalog).rdap
        ≡ entry_after catalog (configured cfg.domains x) (lookup x state.rdap)
  unfolding apply_portfolio_pricing
  apply_portfolio_pricing-lookup cfg state catalog x h =
      apply_prices-lookup catalog cfg.domains state.rdap x h
