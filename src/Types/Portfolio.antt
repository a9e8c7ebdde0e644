-- ===== src/Types/Portfolio.antt =====
-- The configured domains by their names.
use domain_monitor.Base.{
  ℕ, zero, suc, ◌≡◌, inl, inr, ap, true, false, List, [], ◌∷◌, map, some, arith, get_elem?,
  contains, beq_refl, Bool-cases,
}
use domain_monitor.Text.{Text, text_beq, text_beq_iff, text_eq}
use domain_monitor.Types.Config.{DomainConfig}

abbrev pub names : List DomainConfig → List Text
names domains = map (λ (d : DomainConfig). d.domain) domains

pub contains_name :
    (domains : List DomainConfig) (i : ℕ) (d : DomainConfig)
    → get_elem? domains i ≡ some d
    → contains (names domains) d.domain ≡ true
unfolding contains
contains_name [] i d at = cc at
contains_name (c ∷ domains) zero d at = ground (arith, at, beq_refl d.domain)
contains_name (c ∷ domains) (suc i) d at = ground (arith, contains_name domains i d at)

pub apart_of :
    (c d : DomainConfig) (domains : List DomainConfig) (i : ℕ)
    → get_elem? domains i ≡ some d
    → contains (names domains) c.domain ≡ false
    → text_beq c.domain d.domain ≡ false
apart_of c d domains i at h = elim (Bool-cases (text_beq c.domain d.domain)) [
  | inl e ↦ ground (
    arith,
    ap (contains (names domains)) ((text_beq_iff c.domain d.domain).0 e),
    contains_name domains i d at,
    h,
  )
  | inr e ↦ e
]
